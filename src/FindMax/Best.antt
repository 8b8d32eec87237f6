-- ===== src/FindMax/Best.antt =====
-- The first place of the greatest value, and how it is put together from parts.
use bootcamp.Base.{
  ℕ, suc, ◌+◌, ◌≡◌, ◌∙◌, refl, sym, ap, subst, Bool, true, false, Bool-cases, inl, inr, some, List,
  [], ◌∷◌, ◌++◌, length, get_elem?, get_elem?-middle, length-append, append_assoc, ok, arith,
  if◌then◌else◌,
}
use bootcamp.FindMax.{element, scan}

-- x > y on doubles that are numbers: a strict weak order.
pub record IsGreater {V : Type 0} (gt : V → V → Bool) : Type 0 where
  pub irrefl : (x : V) → gt x x ≡ false
  pub trans : (x y z : V) → gt x y ≡ true → gt y z ≡ true → gt x z ≡ true
  pub split : (x y z : V) → gt x y ≡ false → gt y z ≡ false → gt x z ≡ false

module _ {V : Type 0} (function : ℕ → V) (gt : V → V → Bool) where
  -- The earlier of two places, unless the later has the greater value.
  abbrev pub better : ℕ × V → ℕ × V → ℕ × V
  better old new = if gt new.1 old.1 then new else old

  pub better_assoc : (x y z : ℕ × V) → IsGreater gt → better (better x y) z ≡ better x (better y z)
  better_assoc x y z h = elim (Bool-cases (gt y.1 x.1)) [
    | inl yx ↦ elim (Bool-cases (gt z.1 y.1)) [
      | inl zy ↦ let zx = h.trans z.1 y.1 x.1 zy yx in ground (arith, yx, zy, zx)
      | inr zy ↦ ground (arith, yx, zy)
    ]
    | inr yx ↦ elim (Bool-cases (gt z.1 y.1)) [
      | inl zy ↦ ground (arith, yx, zy)
      | inr zy ↦ let zx = h.split z.1 y.1 x.1 zy yx in ground (arith, yx, zy, zx)
    ]
  ]

  -- The best of what was found before and the elements, the first of which has index `i`.
  unfoldable pub best : ℕ → List ℕ → ℕ × V → ℕ × V
  best i [] found = found
  best i (x ∷ xs) found = best (suc i) xs (better found (i, function x))

  pub best-append :
      (i : ℕ) (xs ys : List ℕ) (found : ℕ × V)
      → best i (xs ++ ys) found ≡ best (i + length xs) ys (best i xs found)
  unfolding best
  best-append i [] ys found = ap (λ k. best k ys found) (omega arith)
  best-append i (x ∷ xs) ys found =
      let e : suc i + length xs ≡ i + suc (length xs) = omega arith in
      best-append (suc i) xs ys (better found (i, function x))
      ∙ ap (λ k. best k ys (best (suc i) xs (better found (i, function x)))) e

  pub best-better :
      (i : ℕ) (xs : List ℕ) (x y : ℕ × V)
      → IsGreater gt
      → best i xs (better x y) ≡ better x (best i xs y)
  unfolding best
  best-better i [] x y h = refl
  best-better i (z ∷ xs) x y h =
      ap (best (suc i) xs) (better_assoc x y (i, function z) h)
      ∙ best-better (suc i) xs x (better y (i, function z)) h

  -- The same place, counted from elsewhere.
  abbrev pub shift : ℕ → ℕ × V → ℕ × V
  shift k found = (found.0 + k, found.1)

  better-shift : (k : ℕ) (x y : ℕ × V) → better (shift k x) (shift k y) ≡ shift k (better x y)
  better-shift k x y = elim (Bool-cases (gt y.1 x.1)) [
    | inl greater ↦ ground (arith, greater)
    | inr other ↦ ground (arith, other)
  ]

  pub best-shift :
      (k i : ℕ) (xs : List ℕ) (found : ℕ × V)
      → best (i + k) xs (shift k found) ≡ shift k (best i xs found)
  unfolding best
  best-shift k i [] found = refl
  best-shift k i (x ∷ xs) found =
      let e : suc (i + k) ≡ suc i + k = omega arith in
      ap (best (suc (i + k)) xs) (better-shift k found (i, function x))
      ∙ ap (λ j. best j xs (shift k (better found (i, function x)))) e
      ∙ best-shift k (suc i) xs (better found (i, function x))

  scan-suc :
      (rounds i x : ℕ) (found : ℕ × V) (array : List ℕ)
      → get_elem? array i ≡ some x
      → let next = better found (i, function x) in
        scan function gt (suc rounds) i array found.0 found.1
        ≡ scan function gt rounds (suc i) array next.0 next.1
  unfolding scan element
  scan-suc rounds i x found array there = elim (Bool-cases (gt (function x) found.1)) [
    | inl greater ↦ ground (arith, there, greater)
    | inr other ↦ ground (arith, there, other)
  ]

  -- The loop over a part of an array.
  pub scan-best :
      (i : ℕ) (found : ℕ × V) (before xs rest : List ℕ)
      → length before ≡ i
      → scan function gt (length xs) i (before ++ (xs ++ rest)) found.0 found.1
        ≡ ok (best i xs found)
  unfolding scan best
  scan-best i found before [] rest e = refl
  scan-best i found before (x ∷ xs) rest e =
      let array = before ++ (x ∷ (xs ++ rest)) in
      let next = better found (i, function x) in
      let there : get_elem? array i ≡ some x =
        subst (λ k. get_elem? array k ≡ some x) e (get_elem?-middle before (xs ++ rest) x) in
      let len : length (before ++ (x ∷ [])) ≡ suc i =
        omega (arith, length-append before (x ∷ []), e) in
      scan-suc (length xs) i x found array there
      ∙ ap (λ a. scan function gt (length xs) (suc i) a next.0 next.1)
          (sym (append_assoc before (x ∷ []) (xs ++ rest)))
      ∙ scan-best (suc i) next (before ++ (x ∷ [])) xs rest len
