-- ===== src/Tests/Rewrites.antt =====
-- The file of chunks.
use bootcamp.Base.{some, ℕ, ◌≡◌, refl, List, [], ◌∷◌, length, ok, arith}
use bootcamp.Wire.{encode_le, decode_le}
use bootcamp.Crypto.{empty_hash}
use bootcamp.Transaction.{preimage, signed_txn, txn_size}
use bootcamp.Block.{default_block, hash_input}
use bootcamp.BlockIo.{block_size, txns_size}
use bootcamp.BalanceIo.{balance_map_size}
use bootcamp.IndexedFile.{Header, extract_header}
use bootcamp.IndexedFile.Offsets.{offsets_size}
use bootcamp.Rewriter.{Offsets, header_of, chunk_ends, chunk_end}
use bootcamp.Rewriter.Layout.{IsStored, Chunked, room}
use bootcamp.Rewriter.RoundTrip.{rewrite_chain-Chunked}
use bootcamp.Rewriter.Walk.{rewrite_chain}
use bootcamp.Rewriter.Trails.{Trail, coinbase, behind}
use bootcamp.Tests.Blocks.{second-IsStorableBlock}
use bootcamp.Tests.Fixtures.{genesis, second}

-- Three chunks of ten blocks end behind blocks 2, 5 and 9.
ends_of_ten : chunk_ends 10 3 3 0 ≡ 2 ∷ 5 ∷ 9 ∷ []
unfolding chunk_ends chunk_end
ends_of_ten = refl

genesis-IsStored : IsStored genesis
unfolding default_block empty_hash hash_input encode_le decode_le
genesis-IsStored = (
  record {
    few = omega arith;
    storable = tt;
    reward_size = refl;
    prev_size = refl;
    hash_size_of = refl;
  },
  record { entries = ((refl, omega arith), tt); sorted = (tt, tt); few = omega arith },
)

second-IsStored : IsStored second
unfolding default_block
second-IsStored = (second-IsStorableBlock, record { entries = tt; sorted = tt; few = omega arith })

two_blocks_room : room (genesis ∷ second ∷ []) ≡ 426
unfolding room block_size balance_map_size txns_size txn_size default_block signed_txn preimage
    encode_le decode_le hash_input
two_blocks_room = refl

abbrev no_header : Header
no_header = record { chunks = 0; chunk_off = []; map_off = []; map_sz = [] }

-- The two blocks as they lie in a store, and the pointers from the second back to the first.
two_blocks_Trail : Trail (genesis ∷ second ∷ []) 1 (0 ∷ []) (genesis ∷ second ∷ [])
unfolding default_block
two_blocks_Trail = behind 1 0 [] second (genesis ∷ []) refl refl (coinbase 0 genesis refl refl)

rewrite_chain-Chunked_example :
    (file : List ℕ) × (offs : Offsets) × (rewrite_chain 2 (genesis ∷ second ∷ []) 1 2
      ≡ some (ok file))
    × (extract_header no_header file (length file) ≡ ok (header_of 2 offs, offsets_size 2))
    × Chunked file (genesis ∷ second ∷ []) offs
rewrite_chain-Chunked_example =
    rewrite_chain-Chunked (genesis ∷ second ∷ []) 1 (0 ∷ []) (genesis ∷ second ∷ []) second 2
      no_header two_blocks_Trail refl refl (omega arith) (omega arith) (omega arith) (omega arith)
      (genesis-IsStored, (second-IsStored, tt)) (omega (arith, two_blocks_room))
