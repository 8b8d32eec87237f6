-- ===== src/Rewriter/Layout.antt =====
-- The offsets that rewrite_chain computes are those at which it writes.
use bootcamp.Base.{
  ℕ, suc, ◌+◌, ◌%◌, ◌^◌, ◌<◌, ◌≡◌, refl, ◌==◌, true, false, ltb, some, List, [], ◌∷◌, ◌++◌, length,
  drop, get_elem?, length-append, append_assoc, ok, arith,
}
use bootcamp.Block.{Block}
use bootcamp.BlockIo.{block_size}
use bootcamp.BlockIo.Codec.{IsStorableBlock, block_bytes, write-block_bytes, length-block_bytes}
use bootcamp.BalanceIo.{balance_map_size, read_balance_map}
use bootcamp.BalanceIo.Codec.{
  IsStorableMap, balance_map_bytes, write-balance_map_bytes, length-balance_map_bytes,
}
use bootcamp.IndexedFile.{Header}
use bootcamp.Rewriter.{Offsets, add_chunk, lay_out, write_map, write_chunks, is_end}

-- A block that fits the formats of the file.
abbrev pub IsStored : Block → Type 0
IsStored b = IsStorableBlock b × IsStorableMap b.balances

-- The blocks of a chunk, one after the other.
unfoldable pub blocks_bytes : List Block → List ℕ
blocks_bytes [] = []
blocks_bytes (b ∷ blocks) = block_bytes b ++ blocks_bytes blocks

-- No more bytes than these are written for the blocks.
unfoldable pub room : List Block → ℕ
room [] = 0
room (b ∷ blocks) = block_size b + balance_map_size b.balances + room blocks

-- The bytes that stand in a file from an offset on, before others.
abbrev pub StandsAt : List ℕ → ℕ → List ℕ → Type 0
StandsAt file start bytes = (rest : List ℕ) × (drop start file ≡ bytes ++ rest)

-- A file that holds the blocks, in chunks at the offsets: the blocks of each chunk fill it from its
-- start to its map, and the map is read as the balances of the last of them.
pub data Chunked (file : List ℕ) : List Block → Offsets → Type 0 where
  end : Chunked file [] (record { chunk_starts = []; map_starts = []; map_sizes = [] })
  chunk :
      (seg : List Block) (b : Block) (blocks : List Block) (start map_start size : ℕ)
      (offs : Offsets)
      → StandsAt file start (blocks_bytes (seg ++ (b ∷ [])))
      → start + length (blocks_bytes (seg ++ (b ∷ []))) ≡ map_start
      → read_balance_map (drop map_start file) ≡ ok b.balances
      → size ≡ balance_map_size b.balances
      → Chunked file blocks offs
      → Chunked file (seg ++ (b ∷ blocks)) (add_chunk start map_start size offs)

pub blocks_bytes-append :
    (xs ys : List Block) → blocks_bytes (xs ++ ys) ≡ blocks_bytes xs ++ blocks_bytes ys
unfolding blocks_bytes
blocks_bytes-append [] ys = refl
blocks_bytes-append (b ∷ xs) ys = rw (blocks_bytes-append xs ys, append_assoc)

-- What the loops make of the blocks from `i` on: the file, whose first bytes are those before, and
-- the offsets in it.
abbrev pub Written : Header → List ℕ → ℕ → ℕ → List Block → List ℕ → List Block → Offsets → Type 0
Written h ends i j blocks out seg offs =
    (file : List ℕ) × (tail : List ℕ) × (write_chunks h ends i j blocks out ≡ ok file)
    × (file ≡ out ++ tail)
    × Chunked file (seg ++ blocks) offs

-- What holds before a round: the blocks of the chunk so far stand behind its start.
pub record Round (start : ℕ) (seg : List Block) (out : List ℕ) : Type 0 where
  pub before : List ℕ
  pub starts : length before ≡ start
  pub holds : out ≡ before ++ blocks_bytes seg

write_map-append :
    (h : Header) (j : ℕ) (b : Block) (out : List ℕ)
    → IsStorableMap b.balances
    → j < h.chunks
    → get_elem? h.map_off j ≡ some (length out)
    → write_map h j b out ≡ ok (out ++ balance_map_bytes b.balances)
unfolding write_map
write_map-append h j b out w low at =
    let inside_table : ltb j h.chunks ≡ true = ground (arith, low) in
    let told : (length out == length out) ≡ true = ground arith in
    ground (arith, inside_table, at, told, write-balance_map_bytes b.balances out w)

module _ (ends : List ℕ) (i start : ℕ) (b : Block) (blocks : List Block) (out : List ℕ) where
  pub lay_out-inside :
      is_end i ends ≡ false
      → IsStored b
      → length out + block_size b < 2 ^ 64
      → lay_out ends i (b ∷ blocks) (length out) start
        ≡ lay_out ends (suc i) blocks (length (out ++ block_bytes b)) start
  unfolding lay_out
  lay_out-inside e w small =
      let pos : (length out + block_size b) % 2 ^ 64 ≡ length (out ++ block_bytes b) =
        omega (arith, length-append out (block_bytes b), length-block_bytes b w.0, small) in
      ground (arith, e, pos)

  pub lay_out-last :
      is_end i ends ≡ true
      → IsStored b
      → length out + block_size b + balance_map_size b.balances < 2 ^ 64
      → let written = out ++ block_bytes b in
        let mapped = written ++ balance_map_bytes b.balances in
        lay_out ends i (b ∷ blocks) (length out) start
        ≡ add_chunk start
            (length written)
            (balance_map_size b.balances)
            (lay_out ends (suc i) blocks (length mapped) (length mapped))
  unfolding lay_out
  lay_out-last e w small =
      let pos : (length out + block_size b) % 2 ^ 64 ≡ length (out ++ block_bytes b) =
        omega (arith, length-append out (block_bytes b), length-block_bytes b w.0, small) in
      let behind : (length (out ++ block_bytes b) + balance_map_size b.balances) % 2 ^ 64
          ≡ length ((out ++ block_bytes b) ++ balance_map_bytes b.balances) =
        omega (
          arith,
          length-append out (block_bytes b),
          length-append (out ++ block_bytes b) (balance_map_bytes b.balances),
          length-block_bytes b w.0,
          length-balance_map_bytes b.balances w.1,
          small,
        ) in
      ground (arith, e, pos, behind)

  pub write_chunks-inside :
      (h : Header) (j : ℕ)
      → is_end i ends ≡ false
      → IsStored b
      → write_chunks h ends i j (b ∷ blocks) out
        ≡ write_chunks h ends (suc i) j blocks (out ++ block_bytes b)
  unfolding write_chunks
  write_chunks-inside h j e w = ground (arith, e, write-block_bytes b out w.0)

  pub write_chunks-last :
      (h : Header) (j : ℕ)
      → is_end i ends ≡ true
      → IsStored b
      → j < h.chunks
      → get_elem? h.map_off j ≡ some (length (out ++ block_bytes b))
      → write_chunks h ends i j (b ∷ blocks) out
        ≡ write_chunks h ends
            (suc i)
            (suc j)
            blocks
            ((out ++ block_bytes b) ++ balance_map_bytes b.balances)
  unfolding write_chunks
  write_chunks-last h j e w low at = ground (
    arith,
    e,
    write-block_bytes b out w.0,
    write_map-append h j b (out ++ block_bytes b) w.1 low at,
  )
