-- ===== src/Rewriter/Writing.antt =====
-- The loop of rewrite_chain that writes: no assert is tripped, and the chunks stand at the offsets.
use bootcamp.Base.{
  get_elem?-middle, ℕ, suc, ◌+◌, ◌^◌, ◌<◌, ◌≡◌, ◌∙◌, refl, sym, ap, subst, some, List, [], ◌∷◌,
  ◌++◌, All, length, drop, get_elem?, length-append, drop-append_length, append_assoc, append-nil,
  arith,
}
use bootcamp.Block.{Block}
use bootcamp.BlockIo.{block_size}
use bootcamp.BlockIo.Codec.{block_bytes, length-block_bytes}
use bootcamp.BalanceIo.{balance_map_size, read_balance_map}
use bootcamp.BalanceIo.Codec.{balance_map_bytes, length-balance_map_bytes, read-balance_map_bytes}
use bootcamp.IndexedFile.{Header}
use bootcamp.Rewriter.{Offsets, add_chunk, lay_out, write_chunks}
use bootcamp.Rewriter.Boundaries.{Marked, over, inside, last}
use bootcamp.Rewriter.Layout.{
  IsStored, blocks_bytes, room, Chunked, end, chunk, blocks_bytes-append, Round, Written,
  lay_out-inside, lay_out-last, write_chunks-inside, write_chunks-last,
}

-- Where the map behind chunk `j` is told to stand, if the offsets of what is left are `offs`.
abbrev Tells : Header → ℕ → ℕ → Offsets → Type 0
Tells h j c offs =
    (pre : List ℕ) × (h.map_off ≡ pre ++ offs.map_starts) × (length pre ≡ j) × (j + c ≡ h.chunks)

module _ (start : ℕ) (seg : List Block) (b : Block) (out : List ℕ) where
  Round-inside : Round start seg out → Round start (seg ++ (b ∷ [])) (out ++ block_bytes b)
  unfolding blocks_bytes
  Round-inside r = record {
    before = r.before;
    starts = r.starts;
    holds =
        rw (blocks_bytes-append seg (b ∷ []), append-nil)
          (ap (λ xs. xs ++ block_bytes b) r.holds
            ∙ append_assoc r.before (blocks_bytes seg) (block_bytes b));
  }

  -- A chunk with its map, in a file that goes on behind it.
  chunk-Chunked :
      (file tail : List ℕ) (blocks : List Block) (offs : Offsets)
      → Round start seg out
      → IsStored b
      → file ≡ ((out ++ block_bytes b) ++ balance_map_bytes b.balances) ++ tail
      → Chunked file blocks offs
      → Chunked file
          (seg ++ (b ∷ blocks))
          (add_chunk start (length (out ++ block_bytes b)) (balance_map_size b.balances) offs)
  chunk-Chunked file tail blocks offs r w e more =
      let whole = Round-inside r in
      let map = balance_map_bytes b.balances in
      let bytes = blocks_bytes (seg ++ (b ∷ [])) in
      let split : file ≡ whole.before ++ (bytes ++ (map ++ tail)) =
        e ∙ ap (λ xs. (xs ++ map) ++ tail) whole.holds ∙ simp append_assoc in
      let behind : file ≡ (out ++ block_bytes b) ++ (map ++ tail) =
        e ∙ append_assoc (out ++ block_bytes b) map tail in
      chunk seg b blocks start (length (out ++ block_bytes b)) (balance_map_size b.balances) offs
        (
          map ++ tail,
          ap (drop start) split
              ∙ drop-append_length whole.before (bytes ++ (map ++ tail)) start (sym whole.starts),
        )
        (omega (arith, ap length whole.holds, length-append whole.before bytes, whole.starts))
        (ap read_balance_map (
            ap (drop (length (out ++ block_bytes b))) behind
            ∙ drop-append_length (out ++ block_bytes b) (map ++ tail) _ refl)
          ∙ read-balance_map_bytes b.balances tail w.1)
        refl more

pub Round-empty : (out : List ℕ) → Round (length out) [] out
unfolding blocks_bytes
Round-empty out = record { before = out; starts = refl; holds = sym (append-nil out) }

-- The next offset of a map, and what is told of those behind it.
Tells-last :
    (h : Header) (j c start map_start size : ℕ) (offs : Offsets)
    → Tells h j (suc c) (add_chunk start map_start size offs)
    → (get_elem? h.map_off j ≡ some map_start) × Tells h (suc j) c offs
unfolding add_chunk
Tells-last h j c start map_start size offs (pre, e, len, count) = (
  ap (λ xs. get_elem? xs j) e
      ∙ subst (λ k. get_elem? (pre ++ (map_start ∷ offs.map_starts)) k ≡ some map_start) len
          (get_elem?-middle pre offs.map_starts map_start),
  (
    pre ++ (map_start ∷ []),
    e ∙ sym (append_assoc pre (map_start ∷ []) offs.map_starts),
    omega (arith, length-append pre (map_start ∷ []), len),
    omega (arith, count),
  ),
)

module _ (h : Header) (ends : List ℕ) where
  pub write_chunks-Written :
      (i c j start : ℕ) (blocks seg : List Block) (out : List ℕ)
      → Marked ends i blocks c
      → (blocks ≡ [] → seg ≡ [])
      → All IsStored blocks
      → Round start seg out
      → length out + room blocks < 2 ^ 64
      → Tells h j c (lay_out ends i blocks (length out) start)
      → Written h ends i j blocks out seg (lay_out ends i blocks (length out) start)
  unfolding room lay_out write_chunks
  write_chunks-Written _ _ j start _ seg out (over i) empty w r small told = (
    out,
    [],
    refl,
    sym (append-nil out),
    subst (λ s. Chunked out (s ++ []) (lay_out ends i [] (length out) start)) (sym (empty refl))
        end,
  )
  write_chunks-Written _ _ j start _ seg out (inside i c b b2 blocks e marked) empty w r small
        told =
      let more = b2 ∷ blocks in
      let grown = length-append out (block_bytes b) in
      let size = length-block_bytes b w.0.0 in
      let same = lay_out-inside ends i start b more out e w.0 (omega (arith, small)) in
      let (file, tail, writes, grows, chunks) =
        write_chunks-Written (suc i) c j start more (seg ++ (b ∷ [])) (out ++ block_bytes b) marked
          (λ x. cc x) w.1 (Round-inside start seg b out r) (omega (arith, small, grown, size))
          (subst (Tells h j c) same told) in
      (
        file,
        block_bytes b ++ tail,
        write_chunks-inside ends i start b more out h j e w.0 ∙ writes,
        grows ∙ append_assoc out (block_bytes b) tail,
        subst (Chunked file (seg ++ (b ∷ more))) (sym same) (
            subst
              (λ s.
                Chunked file s (lay_out ends (suc i) more (length (out ++ block_bytes b)) start))
              (append_assoc seg (b ∷ []) more) chunks),
      )
  write_chunks-Written _ _ j start _ seg out (last i c b blocks e marked) empty w r small told =
      let map = balance_map_bytes b.balances in
      let written = out ++ block_bytes b in
      let mapped = written ++ map in
      let size : length mapped ≡ length out + block_size b + balance_map_size b.balances = omega (
        arith,
        length-append out (block_bytes b),
        length-block_bytes b w.0.0,
        length-append written map,
        length-balance_map_bytes b.balances w.0.1,
      ) in
      let same = lay_out-last ends i start b blocks out e w.0 (omega (arith, small)) in
      let offs = lay_out ends (suc i) blocks (length mapped) (length mapped) in
      let (pre, starts, len, count) = subst (Tells h j (suc c)) same told in
      let (at, told') =
        Tells-last h j c start (length written) (balance_map_size b.balances) offs
          (subst (Tells h j (suc c)) same told) in
      let (file, tail, writes, grows, chunks) =
        write_chunks-Written (suc i) c (suc j) (length mapped) blocks [] mapped marked (λ x. refl)
          w.1 (Round-empty mapped) (omega (arith, small, size)) told' in
      (
        file,
        block_bytes b ++ (map ++ tail),
        write_chunks-last ends i start b blocks out h j e w.0 (omega (arith, count)) at ∙ writes,
        grows ∙ append_assoc written map tail ∙ append_assoc out (block_bytes b) (map ++ tail),
        subst (Chunked file (seg ++ (b ∷ blocks))) (sym same)
            (chunk-Chunked start seg b out file tail blocks offs r w.0 grows chunks),
      )
