-- ===== src/Tests/Chunks.antt =====
-- The reader of a chunk, and what main makes of the chunks.
use bootcamp.Base.{
  err, out_of_bounds, ℕ, ◌≡◌, refl, true, none, some, List, [], ◌∷◌, ◌++◌, All, drop, ok, arith,
}
use bootcamp.Wire.{encode_le, decode_le, read_word, read_bytes}
use bootcamp.SortedMap.{find, insert}
use bootcamp.Crypto.{hash_eq, hash_lt}
use bootcamp.Crypto.Order.{hash_order}
use bootcamp.Transaction.{add_balance, BalanceMap}
use bootcamp.Block.{
  Store, default_block, validate, validate_txns, check_hash, reset_balances, hash_input,
  is_coinbase, set_prev_block,
}
use bootcamp.BlockIo
use bootcamp.BlockIo.{BlockMap, insert_block, find_block, read_txns, finish_read, link_prev}
use bootcamp.BalanceIo.{read_balance_map, read_entries}
use bootcamp.IndexedFile.{balance_maps_equal, included_in}
use bootcamp.ChunkReader.{
  Shared, read_chunk, read_rounds, read_round, place_block, attach, check_block, keep,
  initial_balances, finish_chunk, link_heads, recompute_length,
}
use bootcamp.ChunkReader.Tips.{Reports, read_chunk-Reports}
use bootcamp.ChunkReader.Links.{IsLinked, link_heads-IsLinked}
use bootcamp.ChunkReader.Lengths.{Depth, first, next, Recomputed, recompute_length-Depth}
use bootcamp.Tests.Chains.{genesis_file}
use bootcamp.Tests.Fixtures.{toy_ssl, alice, genesis, second}

-- The block that pays Alice, and the balances behind it.
abbrev chunk_file : List ℕ
unfolding encode_le genesis_file
chunk_file = genesis_file ++ (encode_le 4 1 ++ (alice ++ encode_le 8 100))

abbrev nothing : Shared
nothing = record { store = []; heads = []; tails = [] }

abbrev genesis_read : Shared
genesis_read = record { store = genesis ∷ []; heads = []; tails = (genesis.blk_hash, 0) ∷ [] }

read_genesis_chunk : read_chunk toy_ssl nothing chunk_file 0 0 100 ≡ ok (genesis_read, 1)
unfolding chunk_file genesis_file read_chunk read_rounds read_round place_block attach check_block
    keep initial_balances finish_chunk read_balance_map read_entries balance_maps_equal included_in
    BlockIo.read read_txns finish_read link_prev is_coinbase insert_block read_word read_bytes
    default_block set_prev_block validate validate_txns check_hash reset_balances hash_input hash_eq
    hash_lt encode_le decode_le find insert add_balance
read_genesis_chunk = refl

read_chunk-Reports_example :
    (final_bal : BalanceMap) × (read_balance_map (drop 100 chunk_file) ≡ ok final_bal)
    × Reports toy_ssl nothing final_bal genesis_read 1
read_chunk-Reports_example =
    read_chunk-Reports toy_ssl nothing genesis_read chunk_file 0 0 100 1 tt read_genesis_chunk
      (omega arith)

-- A chunk whose first block has not been linked yet.
abbrev two_chunks : Store
two_chunks = genesis ∷ record second { prev_block = none; length = 1 } ∷ []

abbrev linked_chunks : Store
unfolding set_prev_block reset_balances
linked_chunks =
    genesis
    ∷ set_prev_block two_chunks (some 0) (record second { prev_block = none; length = 1 })
    ∷ []

link_second : link_heads ((genesis.blk_hash, 0) ∷ []) (1 ∷ []) two_chunks ≡ (linked_chunks, true)
unfolding linked_chunks set_prev_block reset_balances default_block hash_input encode_le decode_le
    link_heads find_block hash_eq
link_second = refl

link_heads-IsLinked_example : All (IsLinked ((genesis.blk_hash, 0) ∷ []) linked_chunks) (1 ∷ [])
link_heads-IsLinked_example =
    link_heads-IsLinked ((genesis.blk_hash, 0) ∷ []) (1 ∷ []) two_chunks linked_chunks link_second

second-Depth : Depth (genesis ∷ second ∷ []) 1 2
unfolding default_block
second-Depth = next 1 0 1 second refl refl (first 0 genesis refl refl)

recompute_length-Depth_example :
    (s : Store) × (recompute_length 2 (genesis ∷ second ∷ []) 1 ≡ some s)
    × Recomputed (genesis ∷ second ∷ []) 1 2 s
recompute_length-Depth_example =
    recompute_length-Depth (genesis ∷ second ∷ []) 1 2 2 second-Depth (omega arith) (omega arith)

-- A map that is told to stand behind the end of the file is read there.
read_chunk_behind : read_chunk toy_ssl nothing (1 ∷ 2 ∷ []) 0 0 100 ≡ err out_of_bounds
unfolding read_chunk initial_balances read_balance_map read_word read_bytes
read_chunk_behind = refl
