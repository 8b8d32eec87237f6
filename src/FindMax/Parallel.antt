-- ===== src/FindMax/Parallel.antt =====
-- The threads find what one pass finds.
use bootcamp.Base.{
  ℕ, zero, suc, ◌+◌, ◌-◌, ◌*◌, ◌/◌, ◌%◌, ◌<◌, ◌≤◌, ◌≡◌, ◌∙◌, refl, sym, ap, subst, Bool, List, [],
  ◌∷◌, ◌++◌, length, append-nil, ok, arith,
}
use native.Mathlib.Nat.{mul_comm, mul-suc, div-add-mod, le-div_iff_mul-le}
use bootcamp.FindMax.{
  ThreadParam, element, partition, scan, find_max_serial, find_max, join_threads, find_max_parallel,
}
use bootcamp.FindMax.Best.{IsGreater, best, best-append, scan-best}
use bootcamp.FindMax.Greatest.{IsGreatest, pass-IsGreatest}
use bootcamp.FindMax.Parts.{split_at, best_of, find_max-best, join_threads-partition}

module _ {V : Type 0} (function : ℕ → V) (gt : V → V → Bool) where
  serial-best :
      (x : ℕ) (xs : List ℕ)
      → find_max_serial function gt (x ∷ xs) (length (x ∷ xs)) ≡ ok (best_of function gt 0 x xs)
  unfolding find_max_serial element
  serial-best x xs =
      let rounds : suc (length xs) - 1 ≡ length xs = omega arith in
      let whole = scan-best function gt 1 (0, function x) (x ∷ []) xs [] refl in
      rw rounds (
        subst
          (λ ys.
            scan function gt (length xs) 1 (x ∷ ys) 0 (function x)
            ≡ ok (best_of function gt 0 x xs))
          (append-nil xs) whole)

  partition-first :
      (a : List ℕ) (num_threads left size : ℕ)
      → size ≡ length a / num_threads + length a % num_threads
      → let others = partition a num_threads left 1 size in
        partition a num_threads (suc left) 0 0
        ≡ (record { array = a; size = size; start_index = 0 } ∷ others.0, others.1)
  unfolding partition
  partition-first a num_threads left size share =
      let exact : 0 + (length a / num_threads + length a % num_threads) ≡ size =
        omega (arith, share) in
      rw (exact, sym share) refl

  find_max_parallel-parts :
      (a : List ℕ) (num_threads th_pos : ℕ) (params : List ThreadParam) (initial : V)
      → partition a num_threads num_threads 0 0 ≡ (params, th_pos)
      → th_pos ≡ length a
      → find_max_parallel function gt a num_threads initial
        ≡ join_threads function gt 0 params 0 initial
  unfolding find_max_parallel
  find_max_parallel-parts a num_threads th_pos params initial e full = ground (arith, e, full)

  join_threads-first :
      (param : ThreadParam) (params : List ThreadParam) (initial : V) (found : ℕ × V)
      → find_max function gt param ≡ ok found
      → join_threads function gt 0 (param ∷ params) 0 initial
        ≡ join_threads function gt 1 params found.0 found.1
  unfolding join_threads
  join_threads-first param params initial found e = ground (arith, e)

  -- The same, where the elements are cut at the end of the first part.
  parallel-split :
      (x left size : ℕ) (xs tl : List ℕ) (initial : V)
      → IsGreater gt
      → let a = x ∷ (xs ++ tl) in
        suc size ≡ length a / suc left
        → suc (length xs) ≡ length a / suc left + length a % suc left
        → length tl ≡ suc size * left
        → find_max_parallel function gt a (suc left) initial
          ≡ find_max_serial function gt a (length a)
  parallel-split x left size xs tl initial h share fst behind =
      let a = x ∷ (xs ++ tl) in
      let found = best_of function gt 0 x xs in
      let (full, joined) =
        join_threads-partition function gt a (x ∷ xs) tl (suc left) left 0 size found h refl share
          behind in
      let others = partition a (suc left) left 1 (suc (length xs)) in
      let next : 1 + length xs ≡ suc (length xs) = omega arith in
      let all : best_of function gt 0 x (xs ++ tl) ≡ best function gt (suc (length xs)) tl found =
        best-append function gt 1 xs tl (0, function x)
        ∙ ap (λ k. best function gt k tl found) next in
      find_max_parallel-parts a (suc left) others.1 _ initial
        (partition-first a (suc left) left (suc (length xs)) fst) full
      ∙ join_threads-first (record { array = a; size = suc (length xs); start_index = 0 }) others.0
          initial found (find_max-best function gt x (suc (length xs)) 0 xs tl refl)
      ∙ joined
      ∙ ap ok (sym all)
      ∙ sym (serial-best x (xs ++ tl))

  -- The same for any number of threads.
  parallel-serial :
      (a : List ℕ) (num_threads : ℕ) (initial : V)
      → IsGreater gt
      → 0 < num_threads
      → num_threads ≤ length a
      → find_max_parallel function gt a num_threads initial
        ≡ find_max_serial function gt a (length a)
  parallel-serial a zero initial h pos enough = absurd (omega (arith, pos))
  parallel-serial [] (suc left) initial h pos enough = absurd (omega (arith, enough))
  parallel-serial (x ∷ ys) (suc left) initial h pos enough =
      let n = suc (length ys) in
      let q = n / suc left in
      let r = n % suc left in
      let parts : n ≡ q * left + q + r =
        omega (arith, div-add-mod n (suc left), mul_comm (suc left) q, mul-suc q left) in
      let share : 0 < q = (le-div_iff_mul-le pos).1 (omega (arith, enough)) in
      let whole : suc (q - 1) ≡ q = omega (arith, share) in
      let (xs, tl, split, taken, behind) =
        split_at (q + r - 1) (q * left) ys (omega (arith, parts, share)) in
      let fst : suc (length xs) ≡ q + r = omega (arith, taken, share) in
      let len : n ≡ length (x ∷ (xs ++ tl)) = ap (λ zs. suc (length zs)) split in
      subst
        (λ zs.
          find_max_parallel function gt (x ∷ zs) (suc left) initial
          ≡ find_max_serial function gt (x ∷ zs) (length (x ∷ zs)))
        (sym split)
        (parallel-split x left (q - 1) xs tl initial h (whole ∙ ap (λ k. k / suc left) len)
          (fst ∙ ap (λ k. k / suc left + k % suc left) len)
          (behind ∙ ap (λ k. k * left) (sym whole)))

  -- Where the values are compared by a strict weak order, and there are as many elements as threads
  -- or more, and at least one thread, the threads come to an end, with no read behind the array and
  -- no assert tripped, and so does one pass; both find the same index and value: the index is inside
  -- the array, the value is that of its element, no element has a greater value, and each element
  -- before it has a smaller one.
  pub find_max_parallel-serial :
      (a : List ℕ) (num_threads : ℕ) (initial : V)
      → IsGreater gt
      → 0 < num_threads
      → num_threads ≤ length a
      → (found : ℕ × V) × (find_max_parallel function gt a num_threads initial ≡ ok found)
        × (find_max_serial function gt a (length a) ≡ ok found)
        × IsGreatest function gt a found
  find_max_parallel-serial [] num_threads initial h pos enough = absurd (omega (arith, pos, enough))
  find_max_parallel-serial (x ∷ xs) num_threads initial h pos enough =
      let serial = serial-best x xs in
      (
        best_of function gt 0 x xs,
        parallel-serial (x ∷ xs) num_threads initial h pos enough ∙ serial,
        serial,
        pass-IsGreatest function gt x xs h,
      )
