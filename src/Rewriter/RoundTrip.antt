-- ===== src/Rewriter/RoundTrip.antt =====
-- The file that rewrite_chain writes, as readindexed.cpp reads it.
use bootcamp.Base.{
  none, some, get_elem?, subst, false, ℕ, suc, ◌+◌, ◌*◌, ◌%◌, ◌^◌, ◌<◌, ◌≤◌, ◌≡◌, ◌∙◌, refl, sym,
  ap, true, List, [], ◌∷◌, ◌++◌, All, length, length-append, ok, arith, ltb, ◌==◌,
}
use bootcamp.Block.{Store, Block}
use bootcamp.BlockIo.{block_size}
use bootcamp.BalanceIo.{balance_map_size}
use bootcamp.IndexedFile.{Header, extract_header, write_header}
use bootcamp.IndexedFile.Offsets.{IsWord, IsHeader, offsets_size, extract_header-write_header}
use bootcamp.Rewriter.{
  Offsets, chunk_ends, add_chunk, lay_out, write_chunks, header_of, header_size, is_end,
  rewrite_blocks,
}
use bootcamp.Rewriter.Boundaries.{Marked, over, inside, last, chunk_ends-Marked}
use bootcamp.Rewriter.Layout.{IsStored, room, Chunked}
use bootcamp.Rewriter.Walk.{
  NextMap, insert_next, track_back, collect, rewrite_counted, rewrite_chain,
}
use bootcamp.Rewriter.Trails.{Trail}
use bootcamp.Rewriter.Chains.{walk-Trail}
use bootcamp.Rewriter.Writing.{write_chunks-Written, Round-empty}

-- As many offsets of each kind as chunks, of 64 bits each.
record HasChunks (c : ℕ) (offs : Offsets) : Type 0 where
  starts : length offs.chunk_starts ≡ c
  maps : length offs.map_starts ≡ c
  sizes : length offs.map_sizes ≡ c
  start_words : All IsWord offs.chunk_starts
  map_words : All IsWord offs.map_starts
  size_words : All IsWord offs.map_sizes

add_chunk-HasChunks :
    (c start map_start size : ℕ) (offs : Offsets)
    → IsWord start
    → IsWord map_start
    → IsWord size
    → HasChunks c offs
    → HasChunks (suc c) (add_chunk start map_start size offs)
unfolding add_chunk
add_chunk-HasChunks c start map_start size offs s m z h = record {
  starts = ap suc h.starts;
  maps = ap suc h.maps;
  sizes = ap suc h.sizes;
  start_words = (s, h.start_words);
  map_words = (m, h.map_words);
  size_words = (z, h.size_words);
}

module _ (ends : List ℕ) (i pos start : ℕ) (b : Block) (blocks : List Block) where
  lay_out_goes_on :
      is_end i ends ≡ false
      → lay_out ends i (b ∷ blocks) pos start
        ≡ lay_out ends (suc i) blocks ((pos + block_size b) % 2 ^ 64) start
  unfolding lay_out
  lay_out_goes_on e = ground (arith, e)

  lay_out_marks :
      is_end i ends ≡ true
      → let after = (pos + block_size b) % 2 ^ 64 in
        let behind = (after + balance_map_size b.balances) % 2 ^ 64 in
        lay_out ends i (b ∷ blocks) pos start
        ≡ add_chunk start after
            (balance_map_size b.balances)
            (lay_out ends (suc i) blocks behind behind)
  unfolding lay_out
  lay_out_marks e = ground (arith, e)

lay_out-HasChunks :
    (ends : List ℕ) (i c pos start : ℕ) (blocks : List Block)
    → Marked ends i blocks c
    → IsWord start
    → room blocks < 2 ^ 64
    → HasChunks c (lay_out ends i blocks pos start)
unfolding lay_out room
lay_out-HasChunks ends _ _ pos start _ (over i) w small = record {
  starts = refl;
  maps = refl;
  sizes = refl;
  start_words = tt;
  map_words = tt;
  size_words = tt;
}
lay_out-HasChunks ends _ _ pos start _ (inside i c b b2 blocks e marked) w small =
    subst (HasChunks c) (sym (lay_out_goes_on ends i pos start b (b2 ∷ blocks) e)) (
      lay_out-HasChunks ends (suc i) c ((pos + block_size b) % 2 ^ 64) start (b2 ∷ blocks) marked w
        (omega (arith, small)))
lay_out-HasChunks ends _ _ pos start _ (last i c b blocks e marked) w small =
    let after = (pos + block_size b) % 2 ^ 64 in
    let behind = (after + balance_map_size b.balances) % 2 ^ 64 in
    subst (HasChunks (suc c)) (sym (lay_out_marks ends i pos start b blocks e)) (
      add_chunk-HasChunks c start after (balance_map_size b.balances) _ w (omega arith)
        (omega (arith, small))
        (lay_out-HasChunks ends (suc i) c behind behind blocks marked (omega arith)
          (omega (arith, small))))

-- The header and the loop behind it, for a header that tells the offsets that lay_out computes.
module _ (h before : Header) (ends : List ℕ) (blocks : List Block) where
  header-Chunked :
      (start : ℕ)
      → IsHeader h
      → Marked ends 0 blocks h.chunks
      → All IsStored blocks
      → offsets_size h.chunks ≡ start
      → h.map_off ≡ (lay_out ends 0 blocks start start).map_starts
      → start + room blocks < 2 ^ 64
      → (file : List ℕ) × (write_chunks h ends 0 0 blocks (write_header h []) ≡ ok file)
        × (extract_header before file (length file) ≡ ok (h, start))
        × Chunked file blocks (lay_out ends 0 blocks start start)
  header-Chunked start w marked stored sized told small =
      let out = write_header h [] in
      let (head, head_at, size, _) =
        extract_header-write_header h before [] [] start w (omega (arith, sized)) in
      let len : length out ≡ start = ap length head_at ∙ size ∙ sized in
      let (file, tail, writes, grows, chunked) =
        write_chunks-Written h ends 0 h.chunks 0 (length out) blocks [] out marked (λ e. refl)
          stored (Round-empty out) (omega (arith, small, len))
          (
            [],
            told ∙ ap (λ k. (lay_out ends 0 blocks k k).map_starts) (sym len),
            refl,
            omega arith,
          ) in
      let fits : offsets_size h.chunks ≤ length file =
        omega (arith, ap length grows, length-append out tail, len, sized) in
      let (bytes, bytes_at, _, read) =
        extract_header-write_header h before [] tail (length file) w fits in
      let split : file ≡ bytes ++ tail = grows ∙ ap (λ xs. xs ++ tail) bytes_at in
      (
        file,
        writes,
        ap (λ xs. extract_header before xs (length file)) split ∙ read ∙ ap (λ n. ok (h, n)) sized,
        subst (λ k. Chunked file blocks (lay_out ends 0 blocks k k)) len chunked,
      )

-- For more than one chunk and no more chunks than blocks, of blocks that fit the formats and do not
-- fill 2 ^ 64 bytes, rewrite_chain trips no assert behind its vector of
-- blocks. extractHeader finds in the file, whatever its
-- references held, a header with as many chunks; and the blocks stand in the file in chunks, each
-- from its offset to its map, which is read as the balances of the last block of the chunk.
pub rewrite_blocks-Chunked :
    (blocks : List Block) (chunks : ℕ) (before : Header)
    → 1 < chunks
    → chunks ≤ length blocks
    → length blocks < 2 ^ 32
    → 3 * chunks < 2 ^ 32
    → All IsStored blocks
    → offsets_size chunks + room blocks < 2 ^ 64
    → (file : List ℕ) × (offs : Offsets) × (rewrite_blocks blocks chunks ≡ ok file)
      × (extract_header before file (length file) ≡ ok (header_of chunks offs, offsets_size chunks))
      × Chunked file blocks offs
unfolding rewrite_blocks header_of header_size
rewrite_blocks-Chunked blocks chunks before some_chunks enough count few stored small =
    let ends = chunk_ends (length blocks) chunks chunks 0 in
    let start = offsets_size chunks in
    let pos : header_size chunks ≡ start = unfold header_size in omega (arith, few) in
    let offs = lay_out ends 0 blocks start start in
    let marked = chunk_ends-Marked blocks chunks (omega (arith, some_chunks)) enough count in
    let shape =
      lay_out-HasChunks ends 0 chunks start start blocks marked (omega (arith, small))
        (omega (arith, small)) in
    let h = header_of chunks offs in
    let w : IsHeader h = record {
      few = omega (arith, few);
      chunk_offs = shape.starts;
      map_offs = shape.maps;
      map_szs = shape.sizes;
      chunk_words = shape.start_words;
      map_words = shape.map_words;
      size_words = shape.size_words;
    } in
    let (file, writes, read, chunked) =
      header-Chunked h before ends blocks start w marked stored refl refl small in
    let go : ltb 1 chunks ≡ true = ground (arith, some_chunks) in
    let starts : (length offs.chunk_starts == chunks) ≡ true = ground (arith, shape.starts) in
    let maps : (length offs.map_starts == chunks) ≡ true = ground (arith, shape.maps) in
    let sizes : (length offs.map_sizes == chunks) ≡ true = ground (arith, shape.sizes) in
    (file, offs, rw (go, pos, maps, starts, sizes) writes, read, chunked)

rewrite_chain-steps :
    (bound : ℕ) (store : Store) (p head chunks : ℕ) (tip : Block) (m : NextMap)
    (blocks : List Block)
    → ltb 1 chunks ≡ true
    → get_elem? store p ≡ some tip
    → track_back bound store tip.prev_block p (insert_next p none []) ≡ some (m, head)
    → collect bound store m (some head) ≡ some blocks
    → rewrite_chain bound store p chunks ≡ some (rewrite_counted tip m blocks chunks)
unfolding rewrite_chain
rewrite_chain-steps bound store p head chunks tip m blocks go at back forth =
    ground (arith, go, at, back, forth)

-- Where the tip has the length of its chain, which has no more than 2 ^ 32 - 1 blocks, and those fit
-- the formats and do not fill 2 ^ 64 bytes, rewrite_chain with a number of chunks from two to the
-- number of blocks, three times which is below 2 ^ 32, ends within as many rounds as there are
-- blocks, and trips no assert. extractHeader finds in the file, whatever its references held, a
-- header with as many chunks; and the blocks of the chain, from the first on, stand in the file in
-- chunks, each from its offset to its map, which is read as the balances of the last block of the
-- chunk.
pub rewrite_chain-Chunked :
    (store : Store) (p : ℕ) (ps : List ℕ) (blocks : List Block) (tip : Block) (chunks : ℕ)
    (before : Header)
    → Trail store p ps blocks
    → get_elem? store p ≡ some tip
    → tip.length ≡ length blocks
    → 1 < chunks
    → chunks ≤ length blocks
    → length blocks < 2 ^ 32
    → 3 * chunks < 2 ^ 32
    → All IsStored blocks
    → offsets_size chunks + room blocks < 2 ^ 64
    → (file : List ℕ) × (offs : Offsets) × (rewrite_chain (length blocks) store p chunks
        ≡ some (ok file))
      × (extract_header before file (length file) ≡ ok (header_of chunks offs, offsets_size chunks))
      × Chunked file blocks offs
unfolding rewrite_counted
rewrite_chain-Chunked store p ps blocks tip chunks before t at len some_chunks enough count few
      stored small =
    let (m, head, back, size, forth) = walk-Trail store p ps blocks tip t at in
    let (file, offs, writes, read, chunked) =
      rewrite_blocks-Chunked blocks chunks before some_chunks enough count few stored small in
    let go : ltb 1 chunks ≡ true = ground (arith, some_chunks) in
    let all_listed : (length m == tip.length) ≡ true = ground (arith, size, len) in
    let all_found : (length blocks == tip.length) ≡ true = ground (arith, len) in
    (
      file,
      offs,
      rewrite_chain-steps (length blocks) store p head chunks tip m blocks go at back forth
          ∙ ap some (rw (all_listed, all_found) writes),
      read,
      chunked,
    )
