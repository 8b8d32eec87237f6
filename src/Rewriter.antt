-- ===== src/Rewriter.antt =====
-- rewritechain.cpp (day 4): rewrite_chain, from its vector of blocks on. It cuts the blocks into
-- chunks, and writes the header of IndexedFile, and each chunk with the balances of its last block
-- behind it. The sums of file positions are taken modulo 2 ^ 64, as in the source.
pub mod Boundaries
pub mod Layout
pub mod Writing
pub mod RoundTrip
pub mod Walk
pub mod Trails
pub mod Chains
use bootcamp.Base.{
  ℕ, zero, suc, ◌+◌, ◌-◌, ◌*◌, ◌/◌, ◌%◌, ◌^◌, Bool, true, false, Option, none, some, List, [], ◌∷◌,
  ltb, ◌==◌, if◌then◌else◌, length, get_elem?, Result, ok, err, out_of_bounds, assert, ◌>>=◌, ◌>>◌,
}
use bootcamp.Block.{Block}
use bootcamp.BlockIo.{block_size, write}
use bootcamp.BalanceIo.{balance_map_size, write_balance_map}
use bootcamp.IndexedFile.{Header, write_header}

-- chunkEnd_i, for `n` blocks.
unfoldable pub chunk_end : ℕ → ℕ → ℕ → ℕ
chunk_end n chunks i =
    let end_of = if i == chunks - 1 then n else (n / chunks * ((i + 1) % 2 ^ 32)) % 2 ^ 64 in
    (end_of + 2 ^ 64 - 1) % 2 ^ 64

-- The loop that fills chunkEnds, from chunk `i` on, with the rounds that are left. The set holds
-- numbers of type unsigned, and is only asked for its members.
unfoldable pub chunk_ends : ℕ → ℕ → ℕ → ℕ → List ℕ
chunk_ends n chunks zero i = []
chunk_ends n chunks (suc rounds) i =
    chunk_end n chunks i % 2 ^ 32 ∷ chunk_ends n chunks rounds (suc i)

-- chunkEnds.find(i) != chunkEnds.end()
unfoldable pub is_end : ℕ → List ℕ → Bool
is_end i [] = false
is_end i (e ∷ ends) = if i == e then true else is_end i ends

-- chunkStartOffsets, mapStartOffsets and mapSizes.
pub record Offsets : Type 0 where
  pub chunk_starts : List ℕ
  pub map_starts : List ℕ
  pub map_sizes : List ℕ

unfoldable pub add_chunk : ℕ → ℕ → ℕ → Offsets → Offsets
add_chunk start map_start size offs = record {
  chunk_starts = start ∷ offs.chunk_starts;
  map_starts = map_start ∷ offs.map_starts;
  map_sizes = size ∷ offs.map_sizes;
}

-- The loop that computes the offsets, from block `i` on, at file_pos, with prev_end.
unfoldable pub lay_out : List ℕ → ℕ → List Block → ℕ → ℕ → Offsets
lay_out ends i [] file_pos prev_end = record { chunk_starts = []; map_starts = []; map_sizes = [] }
lay_out ends i (b ∷ blocks) file_pos prev_end =
    let after = (file_pos + block_size b) % 2 ^ 64 in
    let map_sz = balance_map_size b.balances in
    elim (is_end i ends) [
      | true ↦
          let behind = (after + map_sz) % 2 ^ 64 in
          add_chunk prev_end after map_sz (lay_out ends (suc i) blocks behind behind)
      | false ↦ lay_out ends (suc i) blocks after prev_end
    ]

-- The map behind chunk `j`, with the asserts before it.
unfoldable pub write_map : Header → ℕ → Block → List ℕ → Result (List ℕ)
write_map h j b out = do
  assert (ltb j h.chunks)
  elim (get_elem? h.map_off j) [
    | none ↦ err out_of_bounds
    | some at ↦ do assert (length out == at); ok (write_balance_map b.balances out)
  ]

-- The loop that writes, from block `i` and chunk `j` on.
unfoldable pub write_chunks : Header → List ℕ → ℕ → ℕ → List Block → List ℕ → Result (List ℕ)
write_chunks h ends i j [] out = ok out
write_chunks h ends i j (b ∷ blocks) out = do
  written ← write b out
  elim (is_end i ends) [
    | true ↦ do mapped ← write_map h j b written; write_chunks h ends (suc i) (suc j) blocks mapped
    | false ↦ write_chunks h ends (suc i) j blocks written
  ]

-- The header of the offsets.
unfoldable pub header_of : ℕ → Offsets → Header
header_of chunks offs = record {
  chunks = chunks;
  chunk_off = offs.chunk_starts;
  map_off = offs.map_starts;
  map_sz = offs.map_sizes;
}

-- filePos before the first block: 3*chunks is a product of 32 bits.
unfoldable pub header_size : ℕ → ℕ
header_size chunks = 4 + 3 * chunks % 2 ^ 32 * 8

-- rewrite_chain, from its vector of blocks on: the bytes of the file.
unfoldable pub rewrite_blocks : List Block → ℕ → Result (List ℕ)
rewrite_blocks blocks chunks = do
  assert (ltb 1 chunks)
  let ends = chunk_ends (length blocks) chunks chunks 0
  let offs = lay_out ends 0 blocks (header_size chunks) (header_size chunks)
  assert (length offs.map_starts == chunks)
  assert (length offs.chunk_starts == chunks)
  assert (length offs.map_sizes == chunks)
  write_chunks (header_of chunks offs) ends 0 0 blocks (write_header (header_of chunks offs) [])
