-- ===== src/Tests/Workers.antt =====
-- The thread manager.
use bootcamp.Base.{◌≡◌, ◌+◌, refl, true, none, some, ok, arith, ◌>>=◌}
use bootcamp.Threads.{
  wait_all, wait_from, wait_running, wait_one, store_thread, thread_at, launch, new_stack,
  find_free_thread, create_at, new_threads, SysResults, thmgr, create, start_workers, wait_workers,
}
use bootcamp.Threads.Workers.{Succeeds, after_workers, workers-after_workers, create-after_workers}

abbrev fine : SysResults
fine = record {
  attr_init = true;
  mmap = some 4096;
  attr_setstack = true;
  register_key = true;
  pthread_create = true;
}

fine-Succeeds : Succeeds fine
fine-Succeeds = record { inits = refl; maps = refl; sets = refl; registers = refl; creates = refl }

workers-after_workers_example :
    (do
      m ← thmgr true 3
      started ← start_workers fine 100 (λ i. 200 + i) 3 0 m
      wait_workers 3 0 started)
    ≡ ok (after_workers fine true 100 (λ i. 200 + i) 3)
workers-after_workers_example =
    workers-after_workers fine true 100 (λ i. 200 + i) 3 (omega arith) (omega arith) fine-Succeeds

create-after_workers_example :
    (do
      m ← thmgr true 3
      started ← start_workers fine 100 (λ i. 200 + i) 3 0 m
      waited ← wait_workers 3 0 started
      create fine waited 100 300)
    ≡ ok (after_workers fine true 100 (λ i. 200 + i) 3, none)
create-after_workers_example =
    create-after_workers fine true 100 (λ i. 200 + i) 3 100 300 (omega arith) (omega arith)
      fine-Succeeds

-- wait() frees the slots, which wait(tid) does not.
create-after_wait :
    (do
      m ← thmgr true 2
      started ← start_workers fine 100 (λ i. 200 + i) 2 0 m
      waited ← wait_all started
      (created, tid) ← create fine waited 100 300
      ok tid)
    ≡ ok (some 0)
unfolding thmgr new_threads start_workers create create_at find_free_thread new_stack launch
    thread_at store_thread wait_one wait_running wait_from wait_all
create-after_wait = refl
