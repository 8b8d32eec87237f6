-- ===== src/FindMax/Parts.antt =====
-- What a thread finds in its part, and the threads behind the first together.
use bootcamp.Base.{
  ℕ, zero, suc, ◌+◌, ◌-◌, ◌*◌, ◌/◌, ◌%◌, ◌≡◌, ◌∙◌, if◌then◌else◌, refl, sym, ap, subst, Bool,
  Bool-cases, inl, inr, List, [], ◌∷◌, ◌++◌, length, drop, length-append, drop-append_length,
  append_assoc, append-nil, ok, arith, ◌==◌,
}
use native.Mathlib.Nat.{mul-suc}
use bootcamp.FindMax.{ThreadParam, element, partition, find_max, join_threads}
use bootcamp.FindMax.Best.{
  IsGreater, better, best, best-append, best-better, shift, best-shift, scan-best,
}

pub split_at {ℓ} :
    {A : Type ℓ} (k m : ℕ) (ys : List A)
    → length ys ≡ k + m
    → (xs : List A) × (tl : List A) × (ys ≡ xs ++ tl) × (length xs ≡ k) × (length tl ≡ m)
split_at zero m ys e = ([], ys, refl, refl, omega (arith, e))
split_at (suc k) m [] e = absurd (omega (arith, e))
split_at (suc k) m (y ∷ ys) e =
    let (xs, tl, split, taken, behind) = split_at k m ys (omega (arith, e)) in
    (y ∷ xs, tl, ap (◌∷◌ y) split, ap suc taken, behind)

module _ {V : Type 0} (function : ℕ → V) (gt : V → V → Bool) where
  -- The best of the elements, the first of which has index `i`.
  abbrev pub best_of : ℕ → ℕ → List ℕ → ℕ × V
  best_of i x xs = best function gt (suc i) xs (i, function x)

  pub find_max-best :
      (x k start : ℕ) (xs rest : List ℕ)
      → k ≡ suc (length xs)
      → find_max function gt (record { array = x ∷ (xs ++ rest); size = k; start_index = start })
        ≡ ok (best_of 0 x xs)
  unfolding find_max element
  find_max-best x k start xs rest e =
      let rounds : k - 1 ≡ length xs = omega (arith, e) in
      rw rounds (scan-best function gt 1 (0, function x) (x ∷ []) xs rest refl)

  best-later :
      (start x : ℕ) (xs : List ℕ) (found : ℕ × V)
      → IsGreater gt
      → best function gt start (x ∷ xs) found
        ≡ better function gt found (shift function gt start (best_of 0 x xs))
  unfolding best
  best-later start x xs found h =
      let value = function x in
      let one : 1 + start ≡ suc start = omega arith in
      let none_before : 0 + start ≡ start = omega arith in
      best-better function gt (suc start) xs found (start, value) h
      ∙ ap (better function gt found) (
          ap (λ j. best function gt (suc start) xs (j, value)) (sym none_before)
          ∙ ap (λ j. best function gt j xs (0 + start, value)) (sym one)
          ∙ best-shift function gt start 1 xs (0, value))

  -- A thread behind the first: what it finds is compared with what was found before.
  join_threads-suc :
      (c x k start : ℕ) (xs rest : List ℕ) (params : List ThreadParam) (found : ℕ × V)
      → IsGreater gt
      → k ≡ suc (length xs)
      → let next = best function gt start (x ∷ xs) found in
        join_threads function gt
          (suc c)
          (record { array = x ∷ (xs ++ rest); size = k; start_index = start } ∷ params)
          found.0
          found.1
        ≡ join_threads function gt (suc (suc c)) params next.0 next.1
  unfolding join_threads
  join_threads-suc c x k start xs rest params found h e =
      let mine = best_of 0 x xs in
      let found_by = find_max-best x k start xs rest e in
      let whole = best-later start x xs found h in
      rw whole (elim (Bool-cases (gt mine.1 found.1)) [
        | inl greater ↦ ground (arith, found_by, greater)
        | inr other ↦ ground (arith, found_by, other)
      ])

  partition-suc :
      (a rest : List ℕ) (num_threads left c start next size : ℕ)
      → drop start a ≡ rest
      → size ≡ length a / num_threads
      → next ≡ start + size
      → let others = partition a num_threads left (suc (suc c)) next in
        partition a num_threads (suc left) (suc c) start
        ≡ (record { array = rest; size = size; start_index = start } ∷ others.0, others.1)
  unfolding partition
  partition-suc a rest num_threads left c start next size there share behind =
      let exact : length a / num_threads + (if suc c == 0 then length a % num_threads else 0)
          ≡ size =
        ground (arith, share) in
      rw (there, exact, sym behind) refl

  -- The threads behind the first `suc c`, whose parts are `before`, find the best of the rest.
  abbrev pub Joined : List ℕ → ℕ → ℕ → ℕ → List ℕ → List ℕ → ℕ × V → Type 0
  Joined a num_threads left c before rest found =
      let parts = partition a num_threads left (suc c) (length before) in
      (parts.1 ≡ length a)
      × (join_threads function gt (suc c) parts.0 found.0 found.1
          ≡ ok (best function gt (length before) rest found))

  Joined-suc :
      (a before xs tl : List ℕ) (x num_threads left c : ℕ) (found : ℕ × V)
      → IsGreater gt
      → a ≡ before ++ (x ∷ (xs ++ tl))
      → suc (length xs) ≡ length a / num_threads
      → Joined a num_threads left
          (suc c)
          (before ++ (x ∷ xs))
          tl
          (best function gt (length before) (x ∷ xs) found)
      → Joined a num_threads (suc left) c before (x ∷ (xs ++ tl)) found
  unfolding partition
  Joined-suc a before xs tl x num_threads left c found h e share (behind, joined) =
      let start = length before in
      let there : drop start a ≡ x ∷ (xs ++ tl) =
        ap (drop start) e ∙ drop-append_length before (x ∷ (xs ++ tl)) start refl in
      let next : length (before ++ (x ∷ xs)) ≡ start + suc (length xs) =
        length-append before (x ∷ xs) in
      let whole : best function gt start ((x ∷ xs) ++ tl) found
          ≡ best function gt (length (before ++ (x ∷ xs))) tl
              (best function gt start (x ∷ xs) found) =
        best-append function gt start (x ∷ xs) tl found
        ∙ ap (λ k. best function gt k tl (best function gt start (x ∷ xs) found)) (sym next) in
      let others = partition a num_threads left (suc (suc c)) (length (before ++ (x ∷ xs))) in
      let shape =
        partition-suc a (x ∷ (xs ++ tl)) num_threads left c start (length (before ++ (x ∷ xs)))
          (suc (length xs)) there share next in
      subst
        (λ (parts : List ThreadParam × ℕ).
          (parts.1 ≡ length a)
          × (join_threads function gt (suc c) parts.0 found.0 found.1
              ≡ ok (best function gt start (x ∷ (xs ++ tl)) found)))
        (sym shape)
        (
          behind,
          join_threads-suc c x (suc (length xs)) start xs tl others.0 found h refl
              ∙ joined
              ∙ ap ok (sym whole),
        )

  -- The threads behind the first find the best of the rest of the array.
  pub join_threads-partition :
      (a before rest : List ℕ) (num_threads left c size : ℕ) (found : ℕ × V)
      → IsGreater gt
      → a ≡ before ++ rest
      → suc size ≡ length a / num_threads
      → length rest ≡ suc size * left
      → Joined a num_threads left c before rest found
  unfolding partition join_threads best
  join_threads-partition a before [] num_threads zero c size found h e share len =
      (sym (ap length (e ∙ append-nil before)), refl)
  join_threads-partition a before (x ∷ rest) num_threads zero c size found h e share len =
      absurd (omega (arith, len))
  join_threads-partition a before [] num_threads (suc left) c size found h e share len =
      absurd (omega (arith, len, mul-suc (suc size) left))
  join_threads-partition a before (x ∷ rest) num_threads (suc left) c size found h e share len =
      let more : length rest ≡ size + suc size * left =
        omega (arith, len, mul-suc (suc size) left) in
      let (xs, tl, split, taken, behind) = split_at size (suc size * left) rest more in
      let e2 : a ≡ before ++ (x ∷ (xs ++ tl)) = e ∙ ap (λ ys. before ++ (x ∷ ys)) split in
      let rest_joined =
        join_threads-partition a (before ++ (x ∷ xs)) tl num_threads left (suc c) size
          (best function gt (length before) (x ∷ xs) found) h
          (e2 ∙ sym (append_assoc before (x ∷ xs) tl)) share behind in
      subst (λ ys. Joined a num_threads (suc left) c before (x ∷ ys) found) (sym split)
        (Joined-suc a before xs tl x num_threads left c found h e2 (ap suc taken ∙ share)
          rest_joined)
