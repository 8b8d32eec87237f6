-- ===== src/Tests/Blocks.antt =====
-- Blocks.
use bootcamp.Base.{ℕ, ◌+◌, ◌≡◌, ◌↔◌, refl, true, List, [], ◌∷◌, ◌++◌, ok, arith, length, Returns}
use bootcamp.SortedMap.{find, insert, erase}
use bootcamp.SortedMap.Total.{total}
use bootcamp.Wire.{encode_le, decode_le}
use bootcamp.Wire.Laws.{length-encode_le}
use bootcamp.Crypto.{hash_eq, hash_lt, empty_hash}
use bootcamp.Crypto.Order.{hash_order}
use bootcamp.Transaction.{
  signed_txn, preimage, update_balances, balance_available, validate as validate_txn, txn_size,
}
use bootcamp.Block.{
  Block, block_reward, validate, validate_txns, check_hash, reset_balances, default_block,
  hash_input,
}
use bootcamp.Block.Validate.{accepted_block, IsAcceptable, start_balances, validate_block_iff}
use bootcamp.Block.Supply.{destroyed_all, total-validate}
use bootcamp.BlockIo.{BlockMap, block_size, txns_size, write, read}
use bootcamp.BlockIo.Codec.{IsStorableBlock, linked, parsed, read-write_block}
use bootcamp.BlockIo.Safety.{BlockReadWithin, read_block_stays_within}
use bootcamp.Tests.Transactions.{payment-HasFieldSizes, payment-IsWritable}
use bootcamp.Tests.Fixtures.{toy_ssl, bob, carol, payment, genesis, store, second}

abbrev pub second_after : Block
second_after = record second {
  valid = true;
  transactions = record payment { valid = true } ∷ [];
  balances = (bob, 30) ∷ (carol, 170) ∷ [];
}

validate-second : validate toy_ssl store second ≡ ok (second_after, true)
unfolding validate validate_txns check_hash reset_balances default_block hash_input hash_eq hash_lt
    encode_le decode_le signed_txn preimage update_balances balance_available find insert erase
    validate_txn
validate-second = refl

validate_block_iff_example :
    (validate toy_ssl store second ≡ ok (second_after, true))
    ↔ (IsAcceptable toy_ssl store second × (second_after ≡ accepted_block toy_ssl store second))
validate_block_iff_example = validate_block_iff toy_ssl store second second_after

total-validate_example :
    total second_after.balances + destroyed_all second.transactions (start_balances store second)
    ≡ total (start_balances store second) + block_reward
unfolding reset_balances default_block
total-validate_example =
    total-validate toy_ssl store second second_after (omega arith) validate-second

abbrev pub blocks_by_hash : BlockMap
blocks_by_hash = (genesis.blk_hash, 0) ∷ []

pub second-IsStorableBlock : IsStorableBlock second
unfolding default_block empty_hash hash_input signed_txn preimage encode_le decode_le
second-IsStorableBlock = record {
  few = omega arith;
  storable = ((payment-HasFieldSizes, payment-IsWritable), tt);
  reward_size = refl;
  prev_size = refl;
  hash_size_of = refl;
}

second_size : block_size second ≡ 278
unfolding block_size txns_size txn_size default_block signed_txn preimage encode_le decode_le
second_size = refl

read-write_block_example :
    (bytes : List ℕ) × (write second [] ≡ ok ([] ++ bytes))
    × (length bytes ≡ block_size second)
    × (read store blocks_by_hash default_block (bytes ++ (5 ∷ [])) 300
        ≡ ok (linked store blocks_by_hash (parsed second), block_size second))
read-write_block_example =
    read-write_block store blocks_by_hash second [] (5 ∷ []) 300 second-IsStorableBlock
      (omega (arith, second_size))

read_block_stays_within_example :
    Returns (BlockReadWithin 120) (read store blocks_by_hash default_block (encode_le 130 77) 120)
unfolding default_block
read_block_stays_within_example =
    read_block_stays_within store blocks_by_hash default_block (encode_le 130 77) 120 refl
      (omega (arith, length-encode_le 130 77))
