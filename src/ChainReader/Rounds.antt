-- ===== src/ChainReader/Rounds.antt =====
-- The loop of readchain.cpp takes no more rounds than there are bytes.
use bootcamp.Base.{
  bind-ext, ℕ, zero, suc, ◌-◌, ◌≤◌, ◌≡◌, ◌==◌, refl, sym, ◌∙◌, true, false, Bool-cases, inl, inr,
  List, arith, ok, Result, ◌>>=◌, drop,
}
use bootcamp.Crypto.{OpenSsl}
use bootcamp.ChainReader.{Chain, read_next, read_blocks}

module _ (ssl : OpenSsl) where
  -- What the loop does behind a call of read.
  abbrev pub after_round : ℕ → List ℕ → ℕ → Chain × ℕ → Result Chain
  after_round rounds at0 left (next, n) = elim (n == 0) [
    | true ↦ ok next
    | false ↦ read_blocks ssl rounds next (drop n at0) (left - n)
  ]

  pub read_blocks-suc :
      (rounds : ℕ) (c : Chain) (at0 : List ℕ) (left : ℕ)
      → (left == 0) ≡ false
      → read_blocks ssl (suc rounds) c at0 left
        ≡ read_next ssl c at0 left >>= after_round rounds at0 left
  unfolding read_blocks
  read_blocks-suc rounds c at0 left bytes = ground (arith, bytes)

  -- The loop ends in the same way whatever the bound on its rounds is, from the number of bytes on:
  -- it is never the bound that ends it.
  pub read_blocks_enough :
      (rounds more : ℕ) (c : Chain) (at0 : List ℕ) (left : ℕ)
      → left ≤ rounds
      → left ≤ more
      → read_blocks ssl rounds c at0 left ≡ read_blocks ssl more c at0 left
  unfolding read_blocks
  read_blocks_enough zero zero c at0 left h k = refl
  read_blocks_enough zero (suc more) c at0 left h k = ground arith
  read_blocks_enough (suc rounds) zero c at0 left h k = ground arith
  read_blocks_enough (suc rounds) (suc more) c at0 left h k = elim (Bool-cases (left == 0)) [
    | inl empty ↦ ground (arith, empty)
    | inr bytes ↦
        read_blocks-suc rounds c at0 left bytes
        ∙ bind-ext (read_next ssl c at0 left) (after_round rounds at0 left)
            (after_round more at0 left)
            (λ (next, n). elim (Bool-cases (n == 0)) [
              | inl stuck ↦ ground (arith, stuck)
              | inr taken ↦
                  let others =
                    read_blocks_enough rounds more next (drop n at0) (left - n)
                      (ground (arith, taken, bytes, h)) (ground (arith, taken, bytes, k)) in
                  ground (arith, taken, others)
            ])
        ∙ sym (read_blocks-suc more c at0 left bytes)
  ]
