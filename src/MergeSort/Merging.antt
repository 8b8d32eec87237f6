-- ===== src/MergeSort/Merging.antt =====
-- merge puts the merged parts in the place of both.
use bootcamp.Base.{
  ap₂, ℕ, suc, ◌+◌, ◌-◌, ◌≡◌, ◌∙◌, refl, sym, ap, subst, Bool, true, false, Bool-cases, inl, inr,
  List, [], ◌∷◌, ◌++◌, All, length, length-append, take, drop, take-append_length,
  drop-append_length, set, append-nil, append_assoc, arith,
}
use mathlib.Core.List.{Perm, perm_middle}
use mathlib.Core.List.Perm
use bootcamp.MergeSort.{copy_into, merge_into, merge}

set-middle {ℓ} :
    {A : Type ℓ} (pre post : List A) (x y : A)
    → set (pre ++ (x ∷ post)) (length pre) y ≡ pre ++ (y ∷ post)
set-middle [] post x y = refl
set-middle (z ∷ pre) post x y = ap (λ xs. z ∷ xs) (set-middle pre post x y)

copy_into-append {ℓ} :
    {A : Type ℓ} (zs pre old post : List A)
    → length old ≡ length zs
    → copy_into zs (length pre) (pre ++ (old ++ post)) ≡ pre ++ (zs ++ post)
unfolding copy_into
copy_into-append [] pre [] post h = refl
copy_into-append [] pre (y ∷ old) post h = absurd (omega (arith, h))
copy_into-append (z ∷ zs) pre [] post h = absurd (omega (arith, h))
copy_into-append (z ∷ zs) pre (y ∷ old) post h =
    let next : length (pre ++ (z ∷ [])) ≡ suc (length pre) =
      omega (arith, length-append pre (z ∷ [])) in
    ap (copy_into zs (suc (length pre)))
      (set-middle pre (old ++ post) y z ∙ sym (append_assoc pre (z ∷ []) (old ++ post)))
    ∙ ap (λ k. copy_into zs k ((pre ++ (z ∷ [])) ++ (old ++ post))) (sym next)
    ∙ copy_into-append zs (pre ++ (z ∷ [])) old post (omega (arith, h))
    ∙ append_assoc pre (z ∷ []) (zs ++ post)

module _ {ℓ} {A : Type ℓ} (leq : A → A → Bool) where
  -- The order of the elements: total and transitive.
  pub record IsOrder : Type ℓ where
    pub total : (x y : A) → leq x y ≡ false → leq y x ≡ true
    pub trans : (x y z : A) → leq x y ≡ true → leq y z ≡ true → leq x z ≡ true

  abbrev pub IsAscending : List A → Type 0
  IsAscending [] = Unit
  IsAscending (x ∷ xs) = All (λ y. leq x y ≡ true) xs × IsAscending xs

  -- What the loops put one after the other.
  unfoldable pub merged : List A → List A → List A
  merged [] ys = ys
  merged (x ∷ xs) [] = x ∷ xs
  merged (x ∷ xs) (y ∷ ys) = elim (leq x y) [
    | true ↦ x ∷ merged xs (y ∷ ys)
    | false ↦ y ∷ merged (x ∷ xs) ys
  ]

  merged_left :
      (x y : A) (xs ys : List A)
      → leq x y ≡ true
      → merged (x ∷ xs) (y ∷ ys) ≡ x ∷ merged xs (y ∷ ys)
  unfolding merged
  merged_left x y xs ys e = ground (arith, e)

  merged_right :
      (x y : A) (xs ys : List A)
      → leq x y ≡ false
      → merged (x ∷ xs) (y ∷ ys) ≡ y ∷ merged (x ∷ xs) ys
  unfolding merged
  merged_right x y xs ys e = ground (arith, e)

  merge_into-merged :
      (xs ys : List A) (k : ℕ) (arr : List A)
      → merge_into leq xs ys k arr ≡ copy_into (merged xs ys) k arr
  unfolding merge_into merged copy_into
  merge_into-merged [] ys k arr = refl
  merge_into-merged (x ∷ xs) [] k arr = refl
  merge_into-merged (x ∷ xs) (y ∷ ys) k arr = elim (Bool-cases (leq x y)) [
    | inl e ↦ ground (arith, e, merge_into-merged xs (y ∷ ys) (suc k) (set arr k x))
    | inr e ↦ ground (arith, e, merge_into-merged (x ∷ xs) ys (suc k) (set arr k y))
  ]

  pub merged-Perm : (xs ys : List A) → Perm (merged xs ys) (xs ++ ys)
  unfolding merged
  merged-Perm [] ys = Perm.rfl
  merged-Perm (x ∷ xs) [] = subst (λ zs. Perm (x ∷ xs) zs) (sym (append-nil (x ∷ xs))) Perm.rfl
  merged-Perm (x ∷ xs) (y ∷ ys) = elim (Bool-cases (leq x y)) [
    | inl e ↦ rw (merged_left x y xs ys e) (Perm.cons x (merged-Perm xs (y ∷ ys)))
    | inr e ↦
        rw (merged_right x y xs ys e)
          (Perm.trans (Perm.cons y (merged-Perm (x ∷ xs) ys)) (Perm.symm (perm_middle (x ∷ xs) ys)))
  ]

  pub length-merged : (xs ys : List A) → length (merged xs ys) ≡ length xs + length ys
  unfolding merged
  length-merged [] ys = omega arith
  length-merged (x ∷ xs) [] = omega arith
  length-merged (x ∷ xs) (y ∷ ys) = elim (Bool-cases (leq x y)) [
    | inl e ↦ rw (merged_left x y xs ys e) (omega (arith, length-merged xs (y ∷ ys)))
    | inr e ↦ rw (merged_right x y xs ys e) (omega (arith, length-merged (x ∷ xs) ys))
  ]

  All-merged : (P : A → Type 0) (xs ys : List A) → All P xs → All P ys → All P (merged xs ys)
  unfolding merged
  All-merged P [] ys h g = g
  All-merged P (x ∷ xs) [] h g = h
  All-merged P (x ∷ xs) (y ∷ ys) (p, h) (q, g) = elim (Bool-cases (leq x y)) [
    | inl e ↦ rw (merged_left x y xs ys e) (p, All-merged P xs (y ∷ ys) h (q, g))
    | inr e ↦ rw (merged_right x y xs ys e) (q, All-merged P (x ∷ xs) ys (p, h) g)
  ]

  All-leq :
      (x y : A) (ys : List A)
      → IsOrder
      → leq x y ≡ true
      → All (λ z. leq y z ≡ true) ys
      → All (λ z. leq x z ≡ true) ys
  All-leq x y [] o e h = tt
  All-leq x y (z ∷ ys) o e (p, h) = (o.trans x y z e p, All-leq x y ys o e h)

  pub merged-IsAscending :
      (xs ys : List A) → IsOrder → IsAscending xs → IsAscending ys → IsAscending (merged xs ys)
  unfolding merged
  merged-IsAscending [] ys o h g = g
  merged-IsAscending (x ∷ xs) [] o h g = h
  merged-IsAscending (x ∷ xs) (y ∷ ys) o (p, h) (q, g) = elim (Bool-cases (leq x y)) [
    | inl e ↦ rw (merged_left x y xs ys e) (
      All-merged (λ z. leq x z ≡ true) xs (y ∷ ys) p (e, All-leq x y ys o e q),
      merged-IsAscending xs (y ∷ ys) o h (q, g),
    )
    | inr e ↦
        let less = o.total x y e in
        rw (merged_right x y xs ys e) (
          All-merged (λ z. leq y z ≡ true) (x ∷ xs) ys (less, All-leq y x xs o less p) q,
          merged-IsAscending (x ∷ xs) ys o (p, h) g,
        )
  ]

  -- merge on an array, of which the two parts stand one behind the other.
  pub merge-append :
      (pre xs ys post : List A) (l m r : ℕ)
      → length pre ≡ l
      → length pre + length xs ≡ m + 1
      → length ys ≡ r - m
      → merge leq (pre ++ ((xs ++ ys) ++ post)) l m r ≡ pre ++ (merged xs ys ++ post)
  unfolding merge
  merge-append pre xs ys post l m r start middle last =
      let arr = pre ++ ((xs ++ ys) ++ post) in
      let at_l : drop l arr ≡ xs ++ (ys ++ post) =
        drop-append_length pre ((xs ++ ys) ++ post) l (sym start) ∙ append_assoc xs ys post in
      let joined : arr ≡ (pre ++ xs) ++ (ys ++ post) =
        ap (λ zs. pre ++ zs) (append_assoc xs ys post) ∙ sym (append_assoc pre xs (ys ++ post)) in
      let at_m : drop (m + 1) arr ≡ ys ++ post =
        ap (drop (m + 1)) joined
        ∙ drop-append_length (pre ++ xs) (ys ++ post) (m + 1)
            (omega (arith, length-append pre xs, middle)) in
      let left : take (m + 1 - l) (drop l arr) ≡ xs =
        ap (take (m + 1 - l)) at_l
        ∙ take-append_length xs (ys ++ post) (m + 1 - l) (omega (arith, start, middle)) in
      let right : take (r - m) (drop (m + 1) arr) ≡ ys =
        ap (take (r - m)) at_m ∙ take-append_length ys post (r - m) (sym last) in
      ap₂ (λ us vs. merge_into leq us vs l arr) left right
      ∙ merge_into-merged xs ys l arr
      ∙ ap (λ k. copy_into (merged xs ys) k arr) (sym start)
      ∙ copy_into-append (merged xs ys) pre (xs ++ ys) post
          (omega (arith, length-append xs ys, length-merged xs ys))
