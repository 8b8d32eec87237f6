-- ===== src/Matrix/Loops.antt =====
-- Loops whose rounds change one element each, and loops of which one round does something.
use bootcamp.Base.{
  ltb→lt, ltb, ℕ, zero, suc, ◌+◌, ◌*◌, ◌≤◌, ◌<◌, ◌≡◌, ◌∙◌, refl, sym, ap, Bool-cases, inl, inr,
  ◌==◌, arith,
}
use native.Mathlib.Nat.{zero-mul, suc-mul, mul-le-mul}
use bootcamp.Matrix.{for_loop}

module _ {ℓ} {V : Type ℓ} where
  -- The element at x after a loop, where each round changes it by itself.
  pub for_loop-at {κ} :
      {S : Type κ} (at_x : S → V) (n : ℕ) (body : ℕ → S → S) (act : ℕ → V → V) (s : S)
      → ((i : ℕ) (t : S) → at_x (body i t) ≡ act i (at_x t))
      → at_x (for_loop n body s) ≡ for_loop n act (at_x s)
  unfolding for_loop
  for_loop-at at_x zero body act s h = refl
  for_loop-at at_x (suc n) body act s h =
      h n (for_loop n body s) ∙ ap (act n) (for_loop-at at_x n body act s h)

  -- A loop whose rounds do nothing.
  pub for_loop-idle :
      (n : ℕ) (act : ℕ → V → V) (v : V)
      → ((i : ℕ) (u : V) → i < n → act i u ≡ u)
      → for_loop n act v ≡ v
  unfolding for_loop
  for_loop-idle zero act v h = refl
  for_loop-idle (suc n) act v h =
      h n (for_loop n act v) (omega arith)
      ∙ for_loop-idle n act v (λ i u less. h i u (omega (arith, less)))

  -- A loop of which one round does something.
  pub for_loop-single :
      (n i0 : ℕ) (act : ℕ → V → V) (v : V)
      → i0 < n
      → ((i : ℕ) (u : V) → i < n → (i ≡ i0 → ⊥) → act i u ≡ u)
      → for_loop n act v ≡ act i0 v
  unfolding for_loop
  for_loop-single zero i0 act v less h = absurd (omega (arith, less))
  for_loop-single (suc n) i0 act v less h = elim (Bool-cases (n == i0)) [
    | inl e ↦
        let last : n ≡ i0 = ground (arith, e) in
        ap (act n) (
          for_loop-idle n act v (λ i u below.
            h i u (omega (arith, below)) (λ s. absurd (omega (arith, s, last, below)))))
        ∙ ap (λ i. act i v) last
    | inr e ↦
        let other : n ≡ i0 → ⊥ = λ s. ground (arith, e, s) in
        let before : i0 < n = ground (arith, e, less) in
        h n (for_loop n act v) (omega arith) other
        ∙ for_loop-single n i0 act v before (λ i u below. h i u (omega (arith, below)))
  ]

  -- Rounds that do the same.
  pub for_loop-ext :
      (n : ℕ) (f g : ℕ → V → V) (v : V)
      → ((i : ℕ) (u : V) → f i u ≡ g i u)
      → for_loop n f v ≡ for_loop n g v
  unfolding for_loop
  for_loop-ext zero f g v h = refl
  for_loop-ext (suc n) f g v h = h n (for_loop n f v) ∙ ap (g n) (for_loop-ext n f g v h)

  for_loop-append :
      (m n : ℕ) (f : ℕ → V → V) (v : V)
      → for_loop (m + n) f v ≡ for_loop n (λ i. f (m + i)) (for_loop m f v)
  unfolding for_loop
  for_loop-append m zero f v = let same : m + 0 ≡ m = omega arith in ap (λ k. for_loop k f v) same
  for_loop-append m (suc n) f v =
      let same : m + suc n ≡ suc (m + n) = omega arith in
      ap (λ k. for_loop k f v) same ∙ ap (f (m + n)) (for_loop-append m n f v)

  -- A loop of loops counts through.
  pub for_loop-tiles :
      (n tile : ℕ) (f : ℕ → V → V) (v : V)
      → for_loop n (λ t. for_loop tile (λ k. f (t * tile + k))) v ≡ for_loop (n * tile) f v
  unfolding for_loop
  for_loop-tiles zero tile f v = ap (λ k. for_loop k f v) (sym (zero-mul tile))
  for_loop-tiles (suc n) tile f v =
      ap (for_loop tile (λ k. f (n * tile + k))) (for_loop-tiles n tile f v)
      ∙ sym (for_loop-append (n * tile) tile f v)
      ∙ ap (λ k. for_loop k f v) (sym (suc-mul n tile))

-- A row and a column are told by the index.
pub index-lt : (size i j k l : ℕ) → j < size → i < k → i * size + j < k * size + l
index-lt size i j k l inside less =
    let rows : suc i * size ≤ k * size = mul-le-mul less (omega arith) in
    omega (arith, rows, suc-mul i size, inside)

pub index-injective :
    (size i j k l : ℕ) → j < size → l < size → i * size + j ≡ k * size + l → (i ≡ k) × (j ≡ l)
index-injective size i j k l inside inside2 e = elim (Bool-cases (i == k)) [
  | inl t ↦
      let same : i ≡ k = ground (arith, t) in (same, omega (arith, e, ap (λ r. r * size) same))
  | inr t ↦ elim (Bool-cases (ltb i k)) [
    | inl less ↦ absurd (omega (arith, e, index-lt size i j k l inside (ltb→lt i k less)))
    | inr past ↦
        let more : k < i = ground (arith, t, past) in
        absurd (omega (arith, e, index-lt size k l i j inside2 more))
  ]
]
