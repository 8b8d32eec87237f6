-- ===== src/BlockHash/Turns.antt =====
-- Whatever the order in which the threads take turns, they hash every block.
use bootcamp.Base.{
  length-replicate, ℕ, ◌+◌, ◌*◌, ◌<◌, ◌≤◌, ◌≡◌, ◌≢◌, ◌⊎◌, ◌∙◌, inl, inr, refl, sym, ap, subst,
  Bool-cases, leb, ◌==◌, none, some, Option-cases, List, [], ◌∷◌, length, get_elem?, set,
  get_elem?-set_self, get_elem?-set_other, length-set, get_elem?-below, arith,
}
use bootcamp.BlockHash.{
  file_block_size, Worker, ready, finished, hashing, System, hash_count, calculate_and_store_hash,
  turn_at, turn, run, start_threads,
}
use bootcamp.BlockHash.Workers.{after_set, replicated, get_elem?-length, hash_count-below}

module _ (mix : ℕ → ℕ) (bytes : List ℕ) where
  abbrev pub hash_of : ℕ → ℕ
  hash_of k = calculate_and_store_hash mix bytes (file_block_size * k)

  abbrev Stored : System → ℕ → Type 0
  Stored s k = (get_elem? s.hashes k ≡ some (hash_of k))

  abbrev Busy : System → ℕ → Type 0
  Busy s k = (i : ℕ) × (get_elem? s.workers i ≡ some (hashing (file_block_size * k) k))

  -- What holds between the turns, with room for `room` hashes and `crew` threads.
  pub record Holds (room crew : ℕ) (s : System) : Type 0 where
    pub threads : length s.workers ≡ crew
    pub pointer : s.dataptr ≡ file_block_size * s.optr
    pub hashes_room : length s.hashes ≡ room
    pub taken : (i c k : ℕ) → get_elem? s.workers i ≡ some (hashing c k) → c ≡ file_block_size * k
    pub stopped : (i : ℕ) → get_elem? s.workers i ≡ some finished → length bytes ≤ s.dataptr
    pub known : (k : ℕ) → k < s.optr → k < room → Stored s k ⊎ Busy s k

  turn-none : (s : System) (i : ℕ) → get_elem? s.workers i ≡ none → turn mix bytes s i ≡ s
  unfolding turn
  turn-none s i e = ground (arith, e)

  pub turn-some :
      (s : System) (i : ℕ) (w : Worker)
      → get_elem? s.workers i ≡ some w
      → turn mix bytes s i ≡ turn_at mix bytes s i w
  unfolding turn
  turn-some s i w e = ground (arith, e)

  module _ (room crew : ℕ) (s : System) (i : ℕ) (h : Holds room crew s) where
    stop-Holds :
        get_elem? s.workers i ≡ some ready
        → length bytes ≤ s.dataptr
        → Holds room crew (record s { workers = set s.workers i finished })
    stop-Holds at over = record {
      threads = length-set s.workers i finished ∙ h.threads;
      pointer = h.pointer;
      hashes_room = h.hashes_room;
      taken = λ j c k e. elim (after_set s.workers i j finished (hashing c k) e) [
        | inl (same, new) ↦ cc new
        | inr (other, old) ↦ h.taken j c k old
      ];
      stopped = λ j e. over;
      known = λ k low fits. elim (h.known k low fits) [
        | inl stored ↦ inl stored
        | inr (j, busy) ↦
            inr (j, get_elem?-set_other s.workers i j finished (λ same. cc (same, at, busy)) ∙ busy)
      ];
    }

    grab-Holds :
        get_elem? s.workers i ≡ some ready
        → Holds room crew (record {
          dataptr = s.dataptr + file_block_size;
          optr = s.optr + 1;
          hashes = s.hashes;
          workers = set s.workers i (hashing s.dataptr s.optr);
        })
    grab-Holds at = record {
      threads = length-set s.workers i (hashing s.dataptr s.optr) ∙ h.threads;
      pointer = omega (arith, h.pointer);
      hashes_room = h.hashes_room;
      taken = λ j c k e. elim (after_set s.workers i j (hashing s.dataptr s.optr) (hashing c k) e) [
        | inl (same, new) ↦
            let c_same : c ≡ s.dataptr = cc new in
            let k_same : k ≡ s.optr = cc new in omega (arith, c_same, k_same, h.pointer)
        | inr (other, old) ↦ h.taken j c k old
      ];
      stopped = λ j e. elim (after_set s.workers i j (hashing s.dataptr s.optr) finished e) [
        | inl (same, new) ↦ cc new
        | inr (other, old) ↦ omega (arith, h.stopped j old)
      ];
      known = λ k low fits. elim (Bool-cases (k == s.optr)) [
        | inl new ↦
            let same : k ≡ s.optr = ground (arith, new) in
            let place : s.dataptr ≡ file_block_size * k = omega (arith, same, h.pointer) in
            inr (
              i,
              get_elem?-set_self s.workers i ready (hashing s.dataptr s.optr) at
                  ∙ ap (λ c. some (hashing c s.optr)) place
                  ∙ ap (λ j. some (hashing (file_block_size * k) j)) (sym same),
            )
        | inr other ↦ elim (h.known k (ground (arith, other, low)) fits) [
          | inl stored ↦ inl stored
          | inr (j, busy) ↦ inr (
            j,
            get_elem?-set_other s.workers i j (hashing s.dataptr s.optr)
                  (λ same. cc (same, at, busy))
                ∙ busy,
          )
        ]
      ];
    }

    store-Holds :
        (c k : ℕ)
        → get_elem? s.workers i ≡ some (hashing c k)
        → Holds room crew (record s {
          hashes = set s.hashes k (calculate_and_store_hash mix bytes c);
          workers = set s.workers i ready;
        })
    store-Holds c k at = record {
      threads = length-set s.workers i ready ∙ h.threads;
      pointer = h.pointer;
      hashes_room = length-set s.hashes k (calculate_and_store_hash mix bytes c) ∙ h.hashes_room;
      taken = λ j c2 k2 e. elim (after_set s.workers i j ready (hashing c2 k2) e) [
        | inl (same, new) ↦ cc new
        | inr (other, old) ↦ h.taken j c2 k2 old
      ];
      stopped = λ j e. elim (after_set s.workers i j ready finished e) [
        | inl (same, new) ↦ cc new
        | inr (other, old) ↦ h.stopped j old
      ];
      known = λ k2 low fits.
          let value = calculate_and_store_hash mix bytes c in
          elim (Bool-cases (k2 == k)) [
            | inl mine ↦
                let same : k ≡ k2 = ground (arith, mine) in
                let place : c ≡ file_block_size * k2 =
                  h.taken i c k at ∙ ap (λ j. file_block_size * j) same in
                let (x, there) =
                  get_elem?-below s.hashes k (omega (arith, fits, same, h.hashes_room)) in
                inl (
                  ap (get_elem? (set s.hashes k value)) (sym same)
                  ∙ get_elem?-set_self s.hashes k x value there
                  ∙ ap (λ j. some (calculate_and_store_hash mix bytes j)) place)
            | inr other ↦
                let apart : k ≢ k2 = λ e. ground (arith, other, e) in
                elim (h.known k2 low fits) [
                  | inl stored ↦ inl (get_elem?-set_other s.hashes k k2 value apart ∙ stored)
                  | inr (j, busy) ↦ inr (
                    j,
                    get_elem?-set_other s.workers i j ready (λ same. apart (cc (same, at, busy)))
                        ∙ busy,
                  )
                ]
          ];
    }

    turn_at-Holds :
        (w : Worker) → get_elem? s.workers i ≡ some w → Holds room crew (turn_at mix bytes s i w)
    unfolding turn_at
    turn_at-Holds ready at = elim (Bool-cases (leb (length bytes) s.dataptr)) [
      | inl over ↦ rw over (stop-Holds at (ground (arith, over)))
      | inr more ↦ rw more (grab-Holds at)
    ]
    turn_at-Holds finished at = h
    turn_at-Holds (hashing c k) at = store-Holds c k at

    pub turn-Holds : Holds room crew (turn mix bytes s i)
    turn-Holds = elim (Option-cases (get_elem? s.workers i)) [
      | inl missing ↦ subst (Holds room crew) (sym (turn-none s i missing)) h
      | inr (w, at) ↦ subst (Holds room crew) (sym (turn-some s i w at)) (turn_at-Holds w at)
    ]

  pub run-Holds :
      (room crew : ℕ) (s : System) (schedule : List ℕ)
      → Holds room crew s
      → Holds room crew (run mix bytes s schedule)
  unfolding run
  run-Holds room crew s [] h = h
  run-Holds room crew s (i ∷ schedule) h =
      run-Holds room crew (turn mix bytes s i) schedule (turn-Holds room crew s i h)

  pub start-Holds :
      (memory : List ℕ) (crew : ℕ) → Holds (length memory) crew (start_threads memory crew)
  unfolding start_threads
  start-Holds memory crew = record {
    threads = length-replicate crew ready;
    pointer = omega arith;
    hashes_room = refl;
    taken = λ i c k e. cc (replicated crew i (hashing c k) e);
    stopped = λ i e. cc (replicated crew i finished e);
    known = λ k low fits. absurd (omega (arith, low));
  }

  -- Whatever the schedule is, when all threads have finished, of which there is one or more, every
  -- block of the file has its hash stored under its number, if there is room for as many hashes as
  -- main asks malloc for.
  pub run-hash_of :
      (memory schedule : List ℕ) (num_threads k : ℕ)
      → length memory ≡ hash_count (length bytes)
      → 0 < num_threads
      → ((i : ℕ)
          → i < num_threads
          → get_elem? (run mix bytes (start_threads memory num_threads) schedule).workers i
            ≡ some finished)
      → k < hash_count (length bytes)
      → get_elem? (run mix bytes (start_threads memory num_threads) schedule).hashes k
        ≡ some (hash_of k)
  run-hash_of memory schedule num_threads k enough crew all low =
      let s = run mix bytes (start_threads memory num_threads) schedule in
      let h =
        run-Holds (length memory) num_threads (start_threads memory num_threads) schedule
          (start-Holds memory num_threads) in
      let over : length bytes ≤ s.dataptr = h.stopped 0 (all 0 crew) in
      let grabbed : k < s.optr =
        omega (arith, hash_count-below (length bytes) k low, over, h.pointer) in
      elim (h.known k grabbed (omega (arith, low, enough))) [
        | inl stored ↦ stored
        | inr (i, busy) ↦
            let member : i < num_threads =
              subst (λ n. i < n) h.threads (get_elem?-length s.workers i _ busy) in
            cc (all i member, busy)
      ]
