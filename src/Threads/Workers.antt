-- ===== src/Threads/Workers.antt =====
-- The threads that main of readindexed.cpp makes for its chunks.
use bootcamp.Base.{
  get_elem?-middle, ℕ, zero, suc, ◌+◌, ◌<◌, ◌≤◌, ◌≡◌, ◌∙◌, refl, ap, Bool, true, false, Option,
  none, some, List, [], ◌∷◌, ◌++◌, ltb, leb, ◌==◌, length, length-append, All-append, if◌then◌else◌,
  Bool-cases, inl, inr, ◌&&◌, get_elem?, set, ok, ◌>>=◌, arith, All, append_assoc,
}
use bootcamp.Threads.{
  max_threads, Address, Thread, Manager, SysResults, is_some, new_threads, thmgr, find_free_thread,
  thread_at, store_thread, new_stack, create_at, create, launch, wait_one, start_workers,
  wait_workers,
}

abbrev AllUsed : List Thread → Type 0
AllUsed = All (λ th. th.used ≡ true)

find_free_thread-append :
    (i : ℕ) (busy rest : List Thread) (th : Thread)
    → AllUsed busy
    → th.used ≡ false
    → find_free_thread i (busy ++ (th ∷ rest)) ≡ some (i + length busy)
unfolding find_free_thread
find_free_thread-append i [] rest th h free = ground (arith, free)
find_free_thread-append i (b ∷ busy) rest th (u, h) free =
    rw u (find_free_thread-append (suc i) busy rest th h free ∙ ap some (omega arith))

find_free_thread-AllUsed :
    (i : ℕ) (busy : List Thread) → AllUsed busy → find_free_thread i busy ≡ none
unfolding find_free_thread
find_free_thread-AllUsed i [] h = refl
find_free_thread-AllUsed i (b ∷ busy) (u, h) = rw u (find_free_thread-AllUsed (suc i) busy h)

set-middle {ℓ} :
    {A : Type ℓ} (xs ys : List A) (x y : A) → set (xs ++ (x ∷ ys)) (length xs) y ≡ xs ++ (y ∷ ys)
set-middle [] ys x y = refl
set-middle (z ∷ xs) ys x y = ap (λ l. z ∷ l) (set-middle xs ys x y)

-- The calls of the operating system succeed.
pub record Succeeds (sys : SysResults) : Type 0 where
  pub inits : sys.attr_init ≡ true
  pub maps : is_some sys.mmap ≡ true
  pub sets : sys.attr_setstack ≡ true
  pub registers : sys.register_key ≡ true
  pub creates : sys.pthread_create ≡ true

abbrev blank : ℕ → Thread
blank i = record { tid = i; used = false; running = false; thfunc = none; stack = none; arg = none }

module _ (sys : SysResults) (secure : Bool) (tfunc : Address) (thdata : ℕ → Address) where
  abbrev given_stack : Option Address
  given_stack = if secure then sys.mmap else none

  -- The slot of a thread that was created, of one that runs, and of one that was waited for.
  abbrev created_at : ℕ → Thread
  created_at i = record (blank i) {
    used = true;
    thfunc = some tfunc;
    stack = given_stack;
    arg = some (thdata i);
  }

  abbrev running_at : ℕ → Thread
  running_at i = record (created_at i) { running = true }

  abbrev pub waited_at : ℕ → Thread
  waited_at i = record (created_at i) { thfunc = none }

  -- The slots from `i` on.
  pub slots : (ℕ → Thread) → ℕ → ℕ → List Thread
  slots slot zero i = []
  slots slot (suc n) i = slot i ∷ slots slot n (suc i)

  abbrev table : List Thread → Manager
  table ths = record { threads = ths; secure = secure }

  new_stack-given : Succeeds sys → new_stack sys secure none ≡ ok given_stack
  unfolding new_stack
  new_stack-given s = elim (Bool-cases secure) [
    | inl e ↦ ground (arith, e, s.maps, s.sets)
    | inr e ↦ ground (arith, e)
  ]

  given_stack_mapped :
      Succeeds sys → (if secure then is_some given_stack && sys.register_key else true) ≡ true
  given_stack_mapped s = elim (Bool-cases secure) [
    | inl e ↦ ground (arith, e, s.maps, s.registers)
    | inr e ↦ ground (arith, e)
  ]

  module _ (busy rest : List Thread) (i : ℕ) (e : length busy ≡ i) where
    thread_at-middle : (th : Thread) → thread_at (table (busy ++ (th ∷ rest))) i ≡ ok th
    unfolding thread_at
    thread_at-middle th =
        let found : get_elem? (busy ++ (th ∷ rest)) i ≡ some th =
          rw (← e) (get_elem?-middle busy rest th) in
        ground (arith, found)

    store_thread-middle :
        (th th' : Thread)
        → store_thread (table (busy ++ (th ∷ rest))) i th' ≡ table (busy ++ (th' ∷ rest))
    unfolding store_thread
    store_thread-middle th th' = ap table (rw (← e) (set-middle busy rest th th'))

    middle-lt : (th : Thread) → ltb i (length (busy ++ (th ∷ rest))) ≡ true
    middle-lt th = ground (arith, length-append busy (th ∷ rest), e)

    create_next :
        Succeeds sys
        → AllUsed busy
        → create sys (table (busy ++ (blank i ∷ rest))) tfunc (thdata i)
          ≡ ok (table (busy ++ (created_at i ∷ rest)), some i)
    unfolding create create_at new_stack
    create_next s h =
        let free : find_free_thread 0 (busy ++ (blank i ∷ rest)) ≡ some i =
          find_free_thread-append 0 busy rest (blank i) h refl ∙ ap some (omega (arith, e)) in
        let m = table (busy ++ (blank i ∷ rest)) in
        let at_slot : create sys m tfunc (thdata i) ≡ create_at sys m tfunc (thdata i) i =
          ground (arith, free) in
        at_slot
        ∙ rw
            (
              create_at,
              thread_at-middle (blank i),
              s.inits,
              new_stack-given s,
              store_thread-middle (blank i) (created_at i),
            )
            refl

    launch_next :
        Succeeds sys
        → launch sys (table (busy ++ (created_at i ∷ rest))) i
          ≡ ok (table (busy ++ (running_at i ∷ rest)))
    unfolding launch
    launch_next s = rw (
      middle-lt (created_at i),
      thread_at-middle (created_at i),
      given_stack_mapped s,
      s.creates,
      store_thread-middle (created_at i) (running_at i),
    )

    wait_next :
        wait_one (table (busy ++ (running_at i ∷ rest))) i
        ≡ ok (table (busy ++ (waited_at i ∷ rest)))
    unfolding wait_one
    wait_next = rw (
      middle-lt (running_at i),
      thread_at-middle (running_at i),
      store_thread-middle (running_at i) (waited_at i),
    )

  grown :
      (busy : List Thread) (th : Thread) (i : ℕ)
      → length busy ≡ i
      → length (busy ++ (th ∷ [])) ≡ suc i
  grown busy th i e = omega (arith, length-append busy (th ∷ []))

  start_workers-slots :
      (n i : ℕ) (busy : List Thread)
      → Succeeds sys
      → AllUsed busy
      → length busy ≡ i
      → start_workers sys tfunc thdata n i (table (busy ++ slots blank n i))
        ≡ ok (table (busy ++ slots running_at n i))
  unfolding start_workers slots
  start_workers-slots zero i busy s h e = refl
  start_workers-slots (suc n) i busy s h e =
      let rest = slots blank n (suc i) in
      let others =
        start_workers-slots n (suc i) (busy ++ (running_at i ∷ [])) s
          (All-append (λ th. th.used ≡ true) busy (running_at i ∷ []) h (refl, tt))
          (grown busy (running_at i) i e) in
      let same : (i == i) ≡ true = ground arith in
      rw (create_next busy rest i e s h, same, launch_next busy rest i e s)
        (simp append_assoc at others)

  wait_workers-slots :
      (n i : ℕ) (busy : List Thread)
      → length busy ≡ i
      → wait_workers n i (table (busy ++ slots running_at n i))
        ≡ ok (table (busy ++ slots waited_at n i))
  unfolding wait_workers slots
  wait_workers-slots zero i busy e = refl
  wait_workers-slots (suc n) i busy e =
      let rest = slots running_at n (suc i) in
      let others =
        wait_workers-slots n (suc i) (busy ++ (waited_at i ∷ [])) (grown busy (waited_at i) i e) in
      rw (wait_next busy rest i e) (simp append_assoc at others)

  new_threads-slots : (n i : ℕ) → new_threads n i ≡ slots blank n i
  unfolding new_threads slots
  new_threads-slots zero i = refl
  new_threads-slots (suc n) i = ap (λ l. blank i ∷ l) (new_threads-slots n (suc i))

  slots-AllUsed : (n i : ℕ) → AllUsed (slots waited_at n i)
  unfolding slots
  slots-AllUsed zero i = tt
  slots-AllUsed (suc n) i = (refl, slots-AllUsed n (suc i))

  -- The table after main has waited for its threads.
  abbrev pub after_workers : ℕ → Manager
  after_workers n = table (slots waited_at n 0)

  -- For 1 to MAX_THREADS chunks, with the calls of the operating system succeeding, main creates and
  -- launches a thread for each chunk under the chunk's number, and waits for each; no assert is
  -- tripped, and no thread is running in the end.
  pub workers-after_workers :
      (n : ℕ)
      → 0 < n
      → n ≤ max_threads
      → Succeeds sys
      → (do
        m ← thmgr secure n
        started ← start_workers sys tfunc thdata n 0 m
        wait_workers n 0 started)
        ≡ ok (after_workers n)
  unfolding thmgr
  workers-after_workers n one few s =
      let in_range : (ltb 0 n && leb n max_threads) ≡ true = ground (arith, one, few) in
      rw (in_range, new_threads-slots n 0, start_workers-slots n 0 [] s tt refl)
        (wait_workers-slots n 0 [] refl)

  create-busy :
      (n : ℕ) (tfunc' tharg : Address)
      → create sys (after_workers n) tfunc' tharg ≡ ok (after_workers n, none)
  unfolding create
  create-busy n tfunc' tharg =
      let busy = find_free_thread-AllUsed 0 (slots waited_at n 0) (slots-AllUsed n 0) in
      ground (arith, busy)

  -- wait(tid) leaves the slot marked as used: for 1 to MAX_THREADS chunks, with the calls of the
  -- operating system succeeding, when main has started its threads and waited for them one by one,
  -- create has no slot left for another thread, and returns -1.
  pub create-after_workers :
      (n : ℕ) (tfunc' tharg : Address)
      → 0 < n
      → n ≤ max_threads
      → Succeeds sys
      → (do
        m ← thmgr secure n
        started ← start_workers sys tfunc thdata n 0 m
        waited ← wait_workers n 0 started
        create sys waited tfunc' tharg)
        ≡ ok (after_workers n, none)
  unfolding thmgr
  create-after_workers n tfunc' tharg one few s =
      let in_range : (ltb 0 n && leb n max_threads) ≡ true = ground (arith, one, few) in
      rw
        (
          in_range,
          new_threads-slots n 0,
          start_workers-slots n 0 [] s tt refl,
          wait_workers-slots n 0 [] refl,
        )
        (create-busy n tfunc' tharg)
