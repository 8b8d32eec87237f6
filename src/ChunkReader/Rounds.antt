-- ===== src/ChunkReader/Rounds.antt =====
-- The loop of readChunk takes no more rounds than there are bytes.
use bootcamp.Base.{
  bind-ext, ℕ, zero, suc, ◌-◌, ◌≤◌, ◌≡◌, ◌==◌, refl, sym, ◌∙◌, Bool, true, false, Bool-cases, inl,
  inr, List, arith, ok, Result, ◌>>=◌, drop,
}
use bootcamp.Crypto.{OpenSsl}
use bootcamp.Transaction.{BalanceMap}
use bootcamp.ChunkReader.{Chunk, read_round, read_rounds}

module _ (ssl : OpenSsl) (follows : Bool) (init_bal : BalanceMap) where
  -- What the loop does behind a round.
  abbrev after_round : ℕ → List ℕ → ℕ → Chunk × ℕ → Result Chunk
  after_round rounds at0 left (more, n) = elim (n == 0) [
    | true ↦ ok more
    | false ↦ read_rounds ssl rounds false follows init_bal more (drop n at0) (left - n)
  ]

  read_rounds-suc :
      (rounds : ℕ) (first : Bool) (c : Chunk) (at0 : List ℕ) (left : ℕ)
      → (left == 0) ≡ false
      → read_rounds ssl (suc rounds) first follows init_bal c at0 left
        ≡ read_round ssl first follows init_bal c at0 left >>= after_round rounds at0 left
  unfolding read_rounds
  read_rounds-suc rounds first c at0 left bytes = ground (arith, bytes)

  -- The loop of readChunk ends in the same way whatever the bound on its rounds is, from the number
  -- of bytes of the chunk on: it is never the bound that ends it.
  pub read_rounds_enough :
      (rounds more : ℕ) (first : Bool) (c : Chunk) (at0 : List ℕ) (left : ℕ)
      → left ≤ rounds
      → left ≤ more
      → read_rounds ssl rounds first follows init_bal c at0 left
        ≡ read_rounds ssl more first follows init_bal c at0 left
  unfolding read_rounds
  read_rounds_enough zero zero first c at0 left h k = refl
  read_rounds_enough zero (suc more) first c at0 left h k = ground arith
  read_rounds_enough (suc rounds) zero first c at0 left h k = ground arith
  read_rounds_enough (suc rounds) (suc more) first c at0 left h k = elim (Bool-cases (left == 0)) [
    | inl empty ↦ ground (arith, empty)
    | inr bytes ↦
        read_rounds-suc rounds first c at0 left bytes
        ∙ bind-ext (read_round ssl first follows init_bal c at0 left) (after_round rounds at0 left)
            (after_round more at0 left)
            (λ (next, n). elim (Bool-cases (n == 0)) [
              | inl stuck ↦ ground (arith, stuck)
              | inr taken ↦
                  let others =
                    read_rounds_enough rounds more false next (drop n at0) (left - n)
                      (ground (arith, taken, bytes, h)) (ground (arith, taken, bytes, k)) in
                  ground (arith, taken, others)
            ])
        ∙ sym (read_rounds-suc more first c at0 left bytes)
  ]
