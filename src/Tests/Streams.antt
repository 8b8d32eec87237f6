-- ===== src/Tests/Streams.antt =====
-- The readers of streams.
use bootcamp.Base.{ℕ, ◌≡◌, refl, true, false, ok, List, [], ◌∷◌, ◌++◌}
use bootcamp.Wire.{encode_le, decode_le}
use bootcamp.StreamIo.{txn_read, stream_read, stream_fields, stream_sized, block_read}
use bootcamp.StreamIo.Codec.{good, txn_read-txn_bytes}
use bootcamp.Block.{default_block}
use bootcamp.BlockIo.{write}
use bootcamp.BlockIo.Codec.{linked, parsed}
use bootcamp.StreamIo.Blocks.{block_read-write}
use bootcamp.Tests.Blocks.{blocks_by_hash, second-IsStorableBlock}
use bootcamp.Transaction.Codec.{txn_bytes}
use bootcamp.Tests.Transactions.{payment-HasFieldSizes, payment-IsWritable}
use bootcamp.Tests.Fixtures.{payment, change_to_self, second, store}

-- On a stream that has failed before, txn_t::read(in) reads nothing, and yet returns true, where the
-- memory of its two sizes happens to hold small numbers.
read_after_failure :
    (txn_read (encode_le 4 10) (encode_le 4 20) payment (record { left = []; failed = true })).1
    ≡ true
unfolding encode_le decode_le txn_read stream_sized stream_fields stream_read
read_after_failure = refl

txn_read-txn_bytes_example :
    txn_read [] [] change_to_self (good (txn_bytes payment ++ (5 ∷ [])))
    ≡ (record payment { valid = false }, true, good (5 ∷ []))
txn_read-txn_bytes_example =
    txn_read-txn_bytes [] [] payment change_to_self (5 ∷ []) payment-HasFieldSizes
      payment-IsWritable

block_read-write_example :
    (bytes : List ℕ) × (write second [] ≡ ok ([] ++ bytes))
    × (block_read [] store blocks_by_hash default_block (good (bytes ++ (5 ∷ [])))
        ≡ ok (linked store blocks_by_hash (parsed second), true, good (5 ∷ [])))
block_read-write_example =
    block_read-write [] store blocks_by_hash second [] (5 ∷ []) second-IsStorableBlock
