-- ===== src/MergeSort/Sorting.antt =====
-- mergeSort sorts its part of the array, and leaves the rest as it is.
use bootcamp.Base.{
  ℕ, zero, suc, ◌+◌, ◌-◌, ◌/◌, ◌≤◌, ◌<◌, ◌≡◌, ◌∙◌, refl, sym, ap, subst, Bool, true, Bool-cases,
  inl, inr, ltb, List, [], ◌∷◌, ◌++◌, length, length-append, take, drop, length-take, length-drop,
  append_assoc, arith,
}
use mathlib.Core.List.{Perm}
use mathlib.Core.List.Perm
use bootcamp.MergeSort.{merge, merge_sort}
use bootcamp.MergeSort.Merging.{
  IsOrder, IsAscending, merged, merged-Perm, length-merged, merged-IsAscending, merge-append,
}

pub take_append_drop {ℓ} : {A : Type ℓ} (n : ℕ) (xs : List A) → take n xs ++ drop n xs ≡ xs
take_append_drop zero xs = refl
take_append_drop (suc n) [] = refl
take_append_drop (suc n) (x ∷ xs) = ap (λ ys. x ∷ ys) (take_append_drop n xs)

module _ {ℓ} {A : Type ℓ} (leq : A → A → Bool) where
  -- What a part of the array has become.
  pub record IsSortOf (seg' seg : List A) : Type ℓ where
    pub ascending : IsAscending leq seg'
    pub same : Perm seg' seg
    pub size : length seg' ≡ length seg

  pub short-IsSortOf : (seg : List A) → length seg ≤ 1 → IsSortOf seg seg
  short-IsSortOf [] h = record { ascending = tt; same = Perm.rfl; size = refl }
  short-IsSortOf (x ∷ []) h = record { ascending = (tt, tt); same = Perm.rfl; size = refl }
  short-IsSortOf (x ∷ y ∷ seg) h = absurd (omega (arith, h))

  pub merged-IsSortOf :
      (xs xs' ys ys' : List A)
      → IsOrder leq
      → IsSortOf xs' xs
      → IsSortOf ys' ys
      → IsSortOf (merged leq xs' ys') (xs ++ ys)
  merged-IsSortOf xs xs' ys ys' o p q = record {
    ascending = merged-IsAscending leq xs' ys' o p.ascending q.ascending;
    same = Perm.trans (merged-Perm leq xs' ys') (Perm.append p.same q.same);
    size = omega (arith, length-merged leq xs' ys', length-append xs ys, p.size, q.size);
  }

  merge_sort-step :
      (depth l r : ℕ) (arr : List A)
      → l < r
      → let m = l + (r - l) / 2 in
        merge_sort leq (suc depth) arr l r
        ≡ merge leq (merge_sort leq depth (merge_sort leq depth arr l m) (m + 1) r) l m r
  unfolding merge_sort
  merge_sort-step depth l r arr h = let go : ltb l r ≡ true = ground (arith, h) in rw go refl

  -- The three calls of mergeSort.
  merge_sort-halves :
      (depth l r : ℕ) (pre seg post xs' ys' : List A)
      → IsOrder leq
      → l < r
      → length pre ≡ l
      → let m = l + (r - l) / 2 in
        let half = (r - l) / 2 + 1 in
        merge_sort leq depth (pre ++ (take half seg ++ (drop half seg ++ post))) l m
          ≡ pre ++ (xs' ++ (drop half seg ++ post))
        → merge_sort leq depth ((pre ++ xs') ++ (drop half seg ++ post)) (m + 1) r
          ≡ (pre ++ xs') ++ (ys' ++ post)
        → length pre + length xs' ≡ m + 1
        → length ys' ≡ r - m
        → merge_sort leq (suc depth) (pre ++ (seg ++ post)) l r
          ≡ pre ++ (merged leq xs' ys' ++ post)
  merge_sort-halves depth l r pre seg post xs' ys' o more start lower upper middle last =
      let m = l + (r - l) / 2 in
      let half = (r - l) / 2 + 1 in
      let rest = drop half seg ++ post in
      let arr = pre ++ (seg ++ post) in
      let split : arr ≡ pre ++ (take half seg ++ rest) =
        ap (λ zs. pre ++ (zs ++ post)) (sym (take_append_drop half seg))
        ∙ ap (λ zs. pre ++ zs) (append_assoc (take half seg) (drop half seg) post) in
      let lowered : merge_sort leq depth arr l m ≡ (pre ++ xs') ++ rest =
        ap (λ a. merge_sort leq depth a l m) split ∙ lower ∙ sym (append_assoc pre xs' rest) in
      let joined : (pre ++ xs') ++ (ys' ++ post) ≡ pre ++ ((xs' ++ ys') ++ post) =
        append_assoc pre xs' (ys' ++ post)
        ∙ ap (λ zs. pre ++ zs) (sym (append_assoc xs' ys' post)) in
      merge_sort-step depth l r arr more
      ∙ ap (λ a. merge leq (merge_sort leq depth a (m + 1) r) l m r) lowered
      ∙ ap (λ a. merge leq a l m r) (upper ∙ joined)
      ∙ merge-append leq pre xs' ys' post l m r start middle last

  -- mergeSort of the part from l to r of an array.
  pub merge_sort-IsSortOf :
      (depth l r : ℕ) (pre seg post : List A)
      → IsOrder leq
      → length pre ≡ l
      → length seg + l ≡ r + 1
      → length seg ≤ depth
      → (seg' : List A) × (merge_sort leq depth (pre ++ (seg ++ post)) l r ≡ pre ++ (seg' ++ post))
        × IsSortOf seg' seg
  unfolding merge_sort
  merge_sort-IsSortOf zero l r pre seg post o start size enough =
      (seg, refl, short-IsSortOf seg (omega (arith, enough)))
  merge_sort-IsSortOf (suc depth) l r pre seg post o start size enough =
      elim (Bool-cases (ltb l r)) [
        | inr done ↦ (seg, rw done refl, short-IsSortOf seg (ground (arith, done, size)))
        | inl go ↦
            let more : l < r = ground (arith, go) in
            let m = l + (r - l) / 2 in
            let half = (r - l) / 2 + 1 in
            let xs = take half seg in
            let ys = drop half seg in
            let (xs', lower, p) =
              merge_sort-IsSortOf depth l m pre xs (ys ++ post) o start
                (omega (arith, length-take half seg, size, more))
                (omega (arith, length-take half seg, size, more, enough)) in
            let (ys', upper, q) =
              merge_sort-IsSortOf depth (m + 1) r (pre ++ xs') ys post o
                (omega
                  (arith, length-append pre xs', p.size, length-take half seg, size, more, start))
                (omega (arith, length-drop half seg, size, more))
                (omega (arith, length-drop half seg, size, more, enough)) in
            (
              merged leq xs' ys',
              merge_sort-halves depth l r pre seg post xs' ys' o more start lower upper
                  (omega (arith, p.size, length-take half seg, size, more, start))
                  (omega (arith, q.size, length-drop half seg, size, more)),
              subst (IsSortOf (merged leq xs' ys')) (take_append_drop half seg)
                  (merged-IsSortOf xs xs' ys ys' o p q),
            )
      ]
