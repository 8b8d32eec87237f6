-- ===== src/Tests/Chains.antt =====
-- The reader of a chain.
use bootcamp.Base.{get_elem?, length, ℕ, ◌≡◌, refl, some, List, [], ◌∷◌, ◌++◌, ok, arith}
use bootcamp.Wire.{encode_le, decode_le, read_word, read_bytes}
use bootcamp.SortedMap.{find, insert}
use bootcamp.Crypto.{empty_hash, hash_eq, hash_lt}
use bootcamp.Crypto.Order.{hash_order}
use bootcamp.Transaction.{add_balance}
use bootcamp.Block.{
  default_block, validate, validate_txns, check_hash, reset_balances, hash_input, is_coinbase,
}
use bootcamp.BlockIo.{insert_block, read_txns, finish_read, link_prev, find_block}
use bootcamp.BlockIo
use bootcamp.ChainReader.RoundTrip.{write_blocks, read_chain-write_blocks}
use bootcamp.BlockIo.Codec.{IsStorableBlock}
use bootcamp.ChainReader.Safety.{StaysInside, Anything, read_chain-StaysInside}
use bootcamp.ChainReader.{Chain, read_chain, read_blocks, read_next, keep_block}
use bootcamp.ChainReader.Invariant.{IsKept, read_chain-IsKept}
use bootcamp.Tests.Fixtures.{toy_ssl, genesis}

-- The file that holds the block that pays Alice.
unfoldable abbrev pub genesis_file : List ℕ
unfolding encode_le
genesis_file = encode_le 4 0 ++ (genesis.reward_addr ++ (genesis.prev_hash ++ genesis.blk_hash))

abbrev genesis_chain : Chain
genesis_chain = record { store = genesis ∷ []; bmap = (genesis.blk_hash, 0) ∷ []; tip = some 0 }

read_genesis : read_chain toy_ssl genesis_file ≡ ok genesis_chain
unfolding genesis_file read_chain read_blocks read_next keep_block insert_block BlockIo.read
    read_txns finish_read link_prev is_coinbase read_word read_bytes default_block validate
    validate_txns check_hash reset_balances hash_input hash_eq hash_lt encode_le decode_le find
    insert add_balance
read_genesis = refl

genesis_found : get_elem? genesis_chain.store 0 ≡ some genesis
genesis_found = refl

genesis_file_size : length genesis_file ≡ 100
unfolding genesis_file default_block hash_input encode_le decode_le
genesis_file_size = refl

read_chain-IsKept_example : IsKept toy_ssl genesis_chain.store 0 genesis
read_chain-IsKept_example =
    read_chain-IsKept toy_ssl genesis_file genesis_chain 0 genesis
      (omega (arith, genesis_file_size)) read_genesis genesis_found

read_chain-StaysInside_example : StaysInside Anything (read_chain toy_ssl (encode_le 130 255))
read_chain-StaysInside_example = read_chain-StaysInside toy_ssl (encode_le 130 255)

genesis-IsStorableBlock : IsStorableBlock genesis
unfolding default_block empty_hash hash_input encode_le decode_le
genesis-IsStorableBlock = record {
  few = omega arith;
  storable = tt;
  reward_size = refl;
  prev_size = refl;
  hash_size_of = refl;
}

read_chain-write_blocks_example :
    (out : List ℕ) × (write_blocks genesis_chain.store [] ≡ ok out)
    × (read_chain toy_ssl out ≡ ok genesis_chain)
read_chain-write_blocks_example =
    read_chain-write_blocks toy_ssl genesis_file genesis_chain read_genesis
      (genesis-IsStorableBlock, tt)
