-- ===== src/Matrix/Plain.antt =====
-- The plain multiplication, element by element.
use bootcamp.Base.{
  ℕ, ◌+◌, ◌*◌, ◌≤◌, ◌<◌, ◌≡◌, ◌∙◌, refl, sym, ap, true, false, Bool-cases, inl, inr, ◌==◌,
  if◌then◌else◌, arith,
}
use bootcamp.Matrix.{for_loop, write_at, mat_multiply}
use bootcamp.Matrix.Loops.{
  for_loop-at, for_loop-idle, for_loop-single, for_loop-ext, index-lt, index-injective,
}

module _ {ℓ} {V : Type ℓ} (nought : V) (plus times : V → V → V) (a b : ℕ → V) (size x : ℕ) where
  -- What a write to the element at `ij` does to the one at x.
  abbrev pub hit : ℕ → (V → V) → V → V
  hit ij f u = if x == ij then f u else u

  pub hit_same : (ij : ℕ) (f : V → V) (u : V) → x ≡ ij → hit ij f u ≡ f u
  hit_same ij f u e = let t : (x == ij) ≡ true = ground (arith, e) in rw t refl

  pub hit_other : (ij : ℕ) (f : V → V) (u : V) → (x ≡ ij → ⊥) → hit ij f u ≡ u
  hit_other ij f u e = let t : (x == ij) ≡ false = ground (arith, e) in rw t refl

  -- The term that round `k` adds to the element in row i and column j.
  abbrev pub term : ℕ → ℕ → ℕ → V → V
  term i j k u = plus u (times (a (i * size + k)) (b (k * size + j)))

  pub write_at-hit :
      (ij : ℕ) (p : V) (e : ℕ → V) → write_at ij (plus (e ij) p) e x ≡ hit ij (λ u. plus u p) (e x)
  unfolding write_at
  write_at-hit ij p e = elim (Bool-cases (x == ij)) [
    | inl t ↦ let same : x ≡ ij = ground (arith, t) in rw t (ap (λ k. plus (e k) p) (sym same))
    | inr t ↦ rw t refl
  ]

  pub write_at-nought : (ij : ℕ) (e : ℕ → V) → write_at ij nought e x ≡ hit ij (λ u. nought) (e x)
  unfolding write_at
  write_at-nought ij e = refl

  abbrev pub at_x : (ℕ → V) → V
  at_x e = e x

  -- The plain loops, as they change the element at x.
  abbrev plain : ℕ → ℕ → V → V
  plain i j v =
      for_loop size (λ k. hit (i * size + j) (term i j k)) (hit (i * size + j) (λ u. nought) v)

  mat_multiply-plain :
      (c0 : ℕ → V)
      → mat_multiply nought plus times a b size c0 x
        ≡ for_loop size (λ i. for_loop size (plain i)) (c0 x)
  unfolding mat_multiply
  mat_multiply-plain c0 =
      for_loop-at at_x size _ (λ i. for_loop size (plain i)) c0
        (λ i t. for_loop-at at_x size _ (plain i) t (λ j c.
          for_loop-at at_x size _ (λ k. hit (i * size + j) (term i j k))
            (write_at (i * size + j) nought c) (λ k e. write_at-hit (i * size + j) _ e)
          ∙ ap (for_loop size (λ k. hit (i * size + j) (term i j k)))
              (write_at-nought (i * size + j) c)))

  -- The sum for the element in row r and column q.
  abbrev pub dot : ℕ → ℕ → V
  dot r q = for_loop size (term r q) nought

  abbrev pub Within : ℕ → ℕ → Type 0
  Within r q = (r < size) × (q < size) × (x ≡ r * size + q)

  plain_idle : (i j : ℕ) (v : V) → (x ≡ i * size + j → ⊥) → plain i j v ≡ v
  plain_idle i j v other =
      for_loop-idle size _ _ (λ k u less. hit_other (i * size + j) (term i j k) u other)
      ∙ hit_other (i * size + j) (λ u. nought) v other

  plain-dot : (r q : ℕ) (v : V) → Within r q → plain r q v ≡ dot r q
  plain-dot r q v (row, column, e) =
      for_loop-ext size _ (term r q) _ (λ k u. hit_same (r * size + q) (term r q k) u e)
      ∙ ap (for_loop size (term r q)) (hit_same (r * size + q) (λ u. nought) v e)

  pub mat_multiply-dot :
      (r q : ℕ) (c0 : ℕ → V) → Within r q → mat_multiply nought plus times a b size c0 x ≡ dot r q
  mat_multiply-dot r q c0 (row, column, e) =
      mat_multiply-plain c0
      ∙ for_loop-single size r _ (c0 x) row (λ i u less other.
        for_loop-idle size (plain i) u (λ j v less2.
          plain_idle i j v (λ s. other (index-injective size i j r q less2 column (sym s ∙ e)).0)))
      ∙ for_loop-single size q (plain r) (c0 x) column (λ j u less other.
        plain_idle r j u (λ s. other (index-injective size r j r q less column (sym s ∙ e)).1))
      ∙ plain-dot r q (c0 x) (row, column, e)

  pub mat_multiply-outside :
      (c0 : ℕ → V) → size * size ≤ x → mat_multiply nought plus times a b size c0 x ≡ c0 x
  mat_multiply-outside c0 far =
      mat_multiply-plain c0
      ∙ for_loop-idle size _ (c0 x) (λ i u less. for_loop-idle size (plain i) u (λ j v less2.
        plain_idle i j v (λ s. omega (arith, s, far, index-lt size i j size 0 less2 less))))
