-- ===== src/Sthreads/Paging.antt =====
-- The loop of fork_callback finds the start of the page of the stack pointer.
use bootcamp.Base.{ℕ, zero, suc, ◌-◌, ◌%◌, ◌≤◌, ◌<◌, ◌≡◌, ◌==◌, Bool-cases, inl, inr, arith}
use bootcamp.Sthreads.{page_start}

page_start_enough : (rounds s : ℕ) → s % 4096 ≤ rounds → page_start rounds s ≡ s - s % 4096
unfolding page_start
page_start_enough zero s h = omega arith
page_start_enough (suc rounds) s h = elim (Bool-cases (s % 4096 == 0)) [
  | inl start ↦ ground (arith, start)
  | inr inside ↦
      let apart : 0 < s % 4096 = ground (arith, inside) in
      let before : (s - 1) % 4096 ≡ s % 4096 - 1 = omega arith in
      let others = page_start_enough rounds (s - 1) (omega arith) in
      let there : page_start rounds (s - 1) ≡ s - s % 4096 = omega arith in
      ground (arith, inside, there)
]

-- The 4096 rounds of the loop are enough for every stack pointer: it ends at the start of the page.
pub page_start_lem : (s : ℕ) → page_start 4096 s ≡ s - s % 4096
page_start_lem s = page_start_enough 4096 s (omega arith)
