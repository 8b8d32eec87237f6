-- ===== src/BlockHash/Progress.antt =====
-- The threads finish: how many turns they take.
use bootcamp.Base.{
  ℕ, zero, suc, ◌+◌, ◌-◌, ◌*◌, ◌<◌, ◌≡◌, ◌≢◌, ◌∙◌, inl, inr, refl, sym, ap, subst, Bool-cases, leb,
  some, List, [], ◌∷◌, length, get_elem?, set, replicate, arith,
}
use bootcamp.BlockHash.{
  Worker, ready, finished, hashing, System, hash_count, turn_at, turn, run, start_threads,
}
use bootcamp.BlockHash.Workers.{below-hash_count}
use bootcamp.BlockHash.Turns.{
  Holds, turn-Holds, turn-some, start-Holds, run-Holds, run-hash_of, hash_of,
}

-- The turns that a thread takes until it is finished, if there are no more blocks.
weight : Worker → ℕ
weight ready = 1
weight finished = 0
weight (hashing c k) = 2

weights : List Worker → ℕ
weights [] = 0
weights (w ∷ ws) = weight w + weights ws

weights-set :
    (ws : List Worker) (i : ℕ) (w v : Worker)
    → get_elem? ws i ≡ some w
    → weights (set ws i v) + weight w ≡ weights ws + weight v
unfolding weights
weights-set [] i w v e = cc e
weights-set (u ∷ ws) zero w v e =
    let same : weight u ≡ weight w = ap weight (cc e) in omega (arith, same)
weights-set (u ∷ ws) (suc i) w v e = omega (arith, weights-set ws i w v e)

weights-ready : (n : ℕ) → weights (replicate n ready) ≡ n
unfolding weights weight
weights-ready zero = refl
weights-ready (suc n) = omega (arith, weights-ready n)

weights-finished :
    (ws : List Worker) (i : ℕ) → weights ws ≡ 0 → i < length ws → get_elem? ws i ≡ some finished
unfolding weights weight
weights-finished [] i e low = absurd (omega (arith, low))
weights-finished (ready ∷ ws) i e low = absurd (omega (arith, e))
weights-finished (hashing c k ∷ ws) i e low = absurd (omega (arith, e))
weights-finished (finished ∷ ws) zero e low = refl
weights-finished (finished ∷ ws) (suc i) e low =
    weights-finished ws i (omega (arith, e)) (omega (arith, low))

module _ (mix : ℕ → ℕ) (bytes : List ℕ) where
  -- A schedule in which no thread takes a turn that is finished, or does not exist.
  unfoldable pub IsUseful : System → List ℕ → Type 0
  IsUseful s [] = Unit
  IsUseful s (i ∷ schedule) =
      ((w : Worker) × (get_elem? s.workers i ≡ some w) × (w ≢ finished))
      × IsUseful (turn mix bytes s i) schedule

  -- The turns that are left.
  work : System → ℕ
  work s = 2 * (hash_count (length bytes) - s.optr) + weights s.workers

  turn_at-work :
      (room crew : ℕ) (s : System) (i : ℕ) (w : Worker)
      → Holds mix bytes room crew s
      → get_elem? s.workers i ≡ some w
      → w ≢ finished
      → suc (work (turn_at mix bytes s i w)) ≡ work s
  unfolding work turn_at weight
  turn_at-work room crew s i ready h at going = elim (Bool-cases (leb (length bytes) s.dataptr)) [
    | inl over ↦ rw over (omega (arith, weights-set s.workers i ready finished at))
    | inr more ↦
        let low : s.dataptr < length bytes = ground (arith, more) in
        let below = below-hash_count (length bytes) s.optr (omega (arith, low, h.pointer)) in
        rw more (omega (arith, weights-set s.workers i ready (hashing s.dataptr s.optr) at, below))
  ]
  turn_at-work room crew s i finished h at going = absurd (going refl)
  turn_at-work room crew s i (hashing c k) h at going =
      omega (arith, weights-set s.workers i (hashing c k) ready at)

  run-work :
      (room crew : ℕ) (s : System) (schedule : List ℕ)
      → Holds mix bytes room crew s
      → IsUseful s schedule
      → length schedule + work (run mix bytes s schedule) ≡ work s
  unfolding run IsUseful
  run-work room crew s [] h useful = omega arith
  run-work room crew s (i ∷ schedule) h ((w, at, going), useful) =
      let less : suc (work (turn mix bytes s i)) ≡ work s =
        ap (λ t. suc (work t)) (turn-some mix bytes s i w at)
        ∙ turn_at-work room crew s i w h at going in
      omega (
        arith,
        less,
        run-work room crew (turn mix bytes s i) schedule (turn-Holds mix bytes room crew s i h)
            useful,
      )

  start-work :
      (memory : List ℕ) (crew : ℕ)
      → work (start_threads memory crew) ≡ 2 * hash_count (length bytes) + crew
  unfolding work start_threads
  start-work memory crew = omega (arith, weights-ready crew)

  work-zero : (s : System) → work s ≡ 0 → weights s.workers ≡ 0
  unfolding work
  work-zero s e = omega (arith, e)

  -- Whichever threads take turns, a schedule in which none does that is finished ends with all
  -- threads finished after two turns for each block and one for each thread, of which there is one
  -- or more; and then every block of the file has its hash stored under its number, if there is room
  -- for as many hashes as main asks malloc for.
  pub run-useful :
      (memory schedule : List ℕ) (num_threads k : ℕ)
      → length memory ≡ hash_count (length bytes)
      → 0 < num_threads
      → IsUseful (start_threads memory num_threads) schedule
      → length schedule ≡ 2 * hash_count (length bytes) + num_threads
      → k < hash_count (length bytes)
      → let s = run mix bytes (start_threads memory num_threads) schedule in
        ((i : ℕ) → i < num_threads → get_elem? s.workers i ≡ some finished)
        × (get_elem? s.hashes k ≡ some (hash_of mix bytes k))
  run-useful memory schedule num_threads k enough crew useful turns low =
      let start = start_threads memory num_threads in
      let s = run mix bytes start schedule in
      let h0 = start-Holds mix bytes memory num_threads in
      let h = run-Holds mix bytes (length memory) num_threads start schedule h0 in
      let all_work : work start ≡ 2 * hash_count (length bytes) + num_threads =
        start-work memory num_threads in
      let idle : weights s.workers ≡ 0 = work-zero s (
        omega (
          arith,
          run-work (length memory) num_threads start schedule h0 useful,
          all_work,
          turns,
        )) in
      let all = λ (i : ℕ) (member : i < num_threads).
        weights-finished s.workers i idle (subst (λ n. i < n) (sym h.threads) member) in
      (all, run-hash_of mix bytes memory schedule num_threads k enough crew all low)
