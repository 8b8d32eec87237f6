-- ===== src/ChainReader/RoundTrip.antt =====
-- readchain.cpp: a file of valid blocks is read as those blocks, and the blocks that were read,
-- written again, are read again.
use bootcamp.Base.{
  length-drop, ◌⊎◌, ℕ, zero, suc, ◌+◌, ◌-◌, ◌≤◌, ◌<◌, ◌≡◌, ◌∙◌, ◌==◌, refl, sym, ap, subst, true,
  false, Bool-cases, List, [], ◌∷◌, ◌++◌, map, All, length, drop, length-append, drop-append_length,
  append_assoc, append-nil, arith, ok, Result, ◌>>=◌, bind-ok, inl, inr,
}
use bootcamp.Crypto.{size, OpenSsl}
use bootcamp.Transaction.{Txn}
use bootcamp.Block.{Block, default_block, validate}
use bootcamp.Block.Validate.{mark_valid}
use bootcamp.Block.Supply.{validate-accepted_block}
use bootcamp.BlockIo.{block_size, read, write}
use bootcamp.BlockIo.Codec.{
  IsStorableBlock, linked, parsed, unvalidated, block_bytes, write-block_bytes, read-block_bytes,
  length-block_bytes,
}
use bootcamp.BlockIo.Parsed.{HasFields, parsed-HasFields, read-parsed}
use bootcamp.Rewriter.Layout.{blocks_bytes}
use bootcamp.ChainReader.{Chain, empty_chain, keep_block, read_next, read_blocks, read_chain}
use bootcamp.ChainReader.Rounds.{after_round, read_blocks-suc}
use bootcamp.ChainReader.Invariant.{keep_if}

-- The blocks one after another, each by block_t::write.
unfoldable pub write_blocks : List Block → List ℕ → Result (List ℕ)
write_blocks [] out = ok out
write_blocks (b ∷ blocks) out = do written ← write b out; write_blocks blocks written

pub write_blocks-blocks_bytes :
    (blocks : List Block) (out : List ℕ)
    → All IsStorableBlock blocks
    → write_blocks blocks out ≡ ok (out ++ blocks_bytes blocks)
unfolding write_blocks blocks_bytes
write_blocks-blocks_bytes [] out h = ap ok (sym (append-nil out))
write_blocks-blocks_bytes (b ∷ blocks) out (w, ws) = rw (
  write-block_bytes b out w,
  write_blocks-blocks_bytes blocks (out ++ block_bytes b) ws,
  append_assoc,
)

map-unvalidated-mark_valid :
    (ts : List Txn) → map unvalidated (map mark_valid ts) ≡ map unvalidated ts
map-unvalidated-mark_valid [] = refl
map-unvalidated-mark_valid (t ∷ ts) = ap (λ us. unvalidated t ∷ us) (map-unvalidated-mark_valid ts)

block_size_pos : (b : Block) → 0 < block_size b
unfolding block_size size
block_size_pos b = omega arith

module _ (ssl : OpenSsl) where
  -- A block that the reader accepts at the end of a chain, with the fields that it has in a file.
  abbrev pub Accepts : Chain → Block → Type 0
  Accepts c b = validate ssl c.store (linked c.store c.bmap (parsed b)) ≡ ok (b, true)

  -- The blocks that lead from one chain to another: each is valid behind those before it.
  pub data Extends : Chain → List Block → Chain → Type 0 where
    same : (c : Chain) → Extends c [] c
    next :
        (c c' : Chain) (b : Block) (blocks : List Block)
        → Accepts c b
        → Extends (keep_block c b) blocks c'
        → Extends c (b ∷ blocks) c'

  -- What validate leaves has the fields that it was given.
  pub validate-HasFields :
      (store : List Block) (b b' : Block) → validate ssl store b ≡ ok (b', true) → HasFields b b'
  validate-HasFields store b b' e =
      let same = validate-accepted_block ssl store b b' e in
      rw same (record {
        txns = sym (map-unvalidated-mark_valid b.transactions);
        reward = refl;
        prev = refl;
        hash = refl;
      })

  read-Accepts :
      (c : Chain) (b b' : Block) (at0 : List ℕ) (left n : ℕ)
      → left ≤ length at0
      → read c.store c.bmap default_block at0 left ≡ ok (b, n)
      → (n == 0) ≡ false
      → validate ssl c.store b ≡ ok (b', true)
      → Accepts c b'
  read-Accepts c b b' at0 left n fits e taken valid =
      let own = read-parsed c.store c.bmap b at0 left n fits e taken in
      let fields = parsed-HasFields b b' (validate-HasFields c.store b b' valid) in
      subst (λ x. validate ssl c.store x ≡ ok (b', true)) (own ∙ ap (linked c.store c.bmap) fields)
        valid

  read_next-Accepts :
      (c : Chain) (b : Block) (rest : List ℕ) (left : ℕ)
      → IsStorableBlock b
      → block_size b ≤ left
      → Accepts c b
      → read_next ssl c (block_bytes b ++ rest) left ≡ ok (keep_block c b, block_size b)
  unfolding read_next block_size
  read_next-Accepts c b rest left w fits valid =
      ground (arith, read-block_bytes c.store c.bmap b rest left w fits, valid)

  -- One round of the loop.
  read_blocks-next :
      (rounds : ℕ) (c : Chain) (b : Block) (rest : List ℕ) (left : ℕ)
      → IsStorableBlock b
      → Accepts c b
      → left ≡ block_size b + length rest
      → read_blocks ssl (suc rounds) c (block_bytes b ++ rest) left
        ≡ read_blocks ssl rounds (keep_block c b) rest (length rest)
  read_blocks-next rounds c b rest left w valid e =
      let some_bytes : 0 < block_size b = block_size_pos b in
      let behind : drop (block_size b) (block_bytes b ++ rest) ≡ rest =
        drop-append_length (block_bytes b) rest (block_size b) (sym (length-block_bytes b w)) in
      let others : left - block_size b ≡ length rest = omega (arith, e) in
      let more : (left == 0) ≡ false = ground (arith, e, some_bytes) in
      let taken : (block_size b == 0) ≡ false = ground (arith, some_bytes) in
      read_blocks-suc ssl rounds c (block_bytes b ++ rest) left more
      ∙ ap (λ r. r >>= after_round ssl rounds (block_bytes b ++ rest) left)
          (read_next-Accepts c b rest left w (omega (arith, e)) valid)
      ∙ ground (arith, taken, behind, others)

  -- The bytes of blocks that lead from one chain to another take the reader there.
  read_blocks-Extends :
      (rounds : ℕ) (c c' : Chain) (blocks : List Block)
      → Extends c blocks c'
      → All IsStorableBlock blocks
      → length (blocks_bytes blocks) ≤ rounds
      → read_blocks ssl rounds c (blocks_bytes blocks) (length (blocks_bytes blocks)) ≡ ok c'
  unfolding read_blocks blocks_bytes
  read_blocks-Extends zero _ _ _ (same c) ws enough = refl
  read_blocks-Extends (suc rounds) _ _ _ (same c) ws enough = refl
  read_blocks-Extends zero _ _ _ (next c c' b blocks valid t) (w, ws) enough = absurd (
      omega (
        arith,
        enough,
        block_size_pos b,
        length-append (block_bytes b) (blocks_bytes blocks),
        length-block_bytes b w,
      ))
  read_blocks-Extends (suc rounds) _ _ _ (next c c' b blocks valid t) (w, ws) enough =
      let grown : length (block_bytes b ++ blocks_bytes blocks)
          ≡ block_size b + length (blocks_bytes blocks) =
        omega
          (arith, length-append (block_bytes b) (blocks_bytes blocks), length-block_bytes b w) in
      read_blocks-next rounds c b (blocks_bytes blocks) _ w valid grown
      ∙ read_blocks-Extends rounds (keep_block c b) c' blocks t ws
          (omega (arith, enough, grown, block_size_pos b))

  -- A round that keeps a block, or keeps the chain.
  read_next-Extends :
      (c c' : Chain) (at0 : List ℕ) (left n : ℕ)
      → left ≤ length at0
      → read_next ssl c at0 left ≡ ok (c', n)
      → (c ≡ c') ⊎ ((b : Block) × Accepts c b × (keep_block c b ≡ c'))
  unfolding read_next
  read_next-Extends c c' at0 left n fits e =
      let ((blk, m), e1, e0) = bind-ok _ (read c.store c.bmap default_block at0 left) _ e in
      elim (Bool-cases (m == 0)) [
        | inl stuck ↦ inl (ground (arith, e1, stuck))
        | inr taken ↦
            let e2 : validate ssl c.store blk >>= keep_if ssl c m ≡ ok (c', n) =
              ground (arith, e1, taken) in
            let ((b, v), e3, valid) = bind-ok (keep_if ssl c m) (validate ssl c.store blk) _ e2 in
            elim (Bool-cases v) [
              | inr dropped ↦ inl (ground (arith, e3, dropped))
              | inl accepts ↦ inr (
                b,
                read-Accepts c blk b at0 left m fits e0 taken (valid ∙ ap (λ t. ok (b, t)) accepts),
                ground (arith, e3, accepts),
              )
            ]
      ]

  round_first :
      (c more c' : Chain)
      → (c ≡ more) ⊎ ((b : Block) × Accepts c b × (keep_block c b ≡ more))
      → (blocks : List Block) × Extends more blocks c'
      → (blocks : List Block) × Extends c blocks c'
  round_first c more c' (inl kept) (blocks, t) =
      (blocks, subst (λ x. Extends x blocks c') (sym kept) t)
  round_first c more c' (inr (b, valid, kept)) (blocks, t) =
      (b ∷ blocks, next c c' b blocks valid (subst (λ x. Extends x blocks c') (sym kept) t))

  Extends-store :
      (c c' : Chain) (blocks : List Block) → Extends c blocks c' → c'.store ≡ c.store ++ blocks
  unfolding keep_block
  Extends-store _ _ _ (same c) = sym (append-nil c.store)
  Extends-store _ _ _ (next c c' b blocks valid t) =
      Extends-store (keep_block c b) c' blocks t ∙ append_assoc c.store (b ∷ []) blocks

  pub Extends-nil : (c c' : Chain) → Extends c [] c' → c ≡ c'
  Extends-nil _ _ (same c) = refl

  -- One more block.
  pub Extends-snoc :
      (c c' : Chain) (blocks : List Block) (b : Block)
      → Extends c blocks c'
      → Accepts c' b
      → Extends c (blocks ++ (b ∷ [])) (keep_block c' b)
  Extends-snoc _ _ _ b (same c) valid = next c (keep_block c b) b [] valid (same (keep_block c b))
  Extends-snoc _ _ _ b (next c c' x blocks first t) valid =
      next c (keep_block c' b) x (blocks ++ (b ∷ [])) first
        (Extends-snoc (keep_block c x) c' blocks b t valid)

  read_blocks-kept :
      (rounds : ℕ) (c c' : Chain) (at0 : List ℕ) (left : ℕ)
      → left ≤ length at0
      → read_blocks ssl rounds c at0 left ≡ ok c'
      → (blocks : List Block) × Extends c blocks c'
  unfolding read_blocks
  read_blocks-kept zero c c' at0 left fits e =
      let fin : c ≡ c' = ground (arith, e) in ([], subst (Extends c []) fin (same c))
  read_blocks-kept (suc rounds) c c' at0 left fits e = elim (Bool-cases (left == 0)) [
    | inl empty ↦
        let fin : c ≡ c' = ground (arith, e, empty) in ([], subst (Extends c []) fin (same c))
    | inr bytes ↦
        let e0 : read_next ssl c at0 left >>= after_round ssl rounds at0 left ≡ ok c' =
          sym (read_blocks-suc ssl rounds c at0 left bytes) ∙ e in
        let ((more, n), e2, e1) =
          bind-ok (after_round ssl rounds at0 left) (read_next ssl c at0 left) _ e0 in
        let round = read_next-Extends c more at0 left n fits e1 in
        let behind : (blocks : List Block) × Extends more blocks c' = elim (Bool-cases (n == 0)) [
          | inl stuck ↦
              let fin : more ≡ c' = ground (arith, e2, stuck) in
              ([], subst (Extends more []) fin (same more))
          | inr taken ↦
              read_blocks-kept rounds more c' (drop n at0) (left - n)
                (omega (arith, fits, length-drop n at0)) (ground (arith, e2, taken))
        ] in
        round_first c more c' round behind
  ]

  -- What readchain has read is a chain of valid blocks, from none on.
  read_chain-Extends :
      (bytes : List ℕ) (c : Chain) → read_chain ssl bytes ≡ ok c → Extends empty_chain c.store c
  unfolding read_chain
  read_chain-Extends bytes c e =
      let (blocks, t) =
        read_blocks-kept (length bytes) empty_chain c bytes (length bytes) (omega arith) e in
      subst (λ bs. Extends empty_chain bs c) (sym (Extends-store empty_chain c blocks t)) t

  -- The bytes of a chain of valid blocks, each in the format of a block_t, are read as that chain.
  pub read_chain-Extends_bytes :
      (c : Chain) (blocks : List Block)
      → Extends empty_chain blocks c
      → All IsStorableBlock blocks
      → read_chain ssl (blocks_bytes blocks) ≡ ok c
  unfolding read_chain
  read_chain-Extends_bytes c blocks t ws =
      read_blocks-Extends (length (blocks_bytes blocks)) empty_chain c blocks t ws (omega arith)

  -- The chain that the reader makes of any file can be written: where its blocks fit the format of
  -- block_t::write, all of them are written, and the reader makes the same chain of the bytes, with
  -- the same map and the same tip.
  pub read_chain-write_blocks :
      (bytes : List ℕ) (c : Chain)
      → read_chain ssl bytes ≡ ok c
      → All IsStorableBlock c.store
      → (out : List ℕ) × (write_blocks c.store [] ≡ ok out) × (read_chain ssl out ≡ ok c)
  read_chain-write_blocks bytes c e ws = (
    blocks_bytes c.store,
    write_blocks-blocks_bytes c.store [] ws,
    read_chain-Extends_bytes c c.store (read_chain-Extends bytes c e) ws,
  )
