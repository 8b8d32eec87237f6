-- ===== src/Chdev/Admission.antt =====
-- Which threads of a process that has registered a key and an error function start where they are
-- meant to: those on a stack that launch has prepared.
use bootcamp.Base.{
  ℕ, ◌+◌, ◌-◌, ◌%◌, ◌^◌, ◌≤◌, ◌<◌, ◌≡◌, ◌≢◌, ◌==◌, ◌⊎◌, inl, inr, refl, true, Bool-cases, Option,
  some, arith, ok, ◌>>=◌,
}
use bootcamp.Sthreads.{
  ProcessInfo, allocated, Device, done, Task, command_size, page_start, demo_open, demo_write,
  handle_command, after_command, run_command, read_pinfo, start_process, start_thread, read_user,
  fork_callback, wake_up_new_task,
}
use bootcamp.Sthreads.Paging.{page_start_lem}
use bootcamp.Chdev.{
  Chdev, succeeded, dev_open, get_chdev, dev_command, register_key, register_error_function, poke,
  key_slot, prepare_stack, enter_secure,
}

-- What *pinfo is once main has entered the secure mode.
abbrev pub registered_info : ℕ → ℕ → ℕ → ProcessInfo
registered_info current handler key = record {
  pid = current;
  is_valid_key = true;
  is_valid_callback = true;
  key = key;
  error_callback = handler;
}

-- The device once main has entered the secure mode on `d`.
abbrev pub secured : ℕ → ℕ → ℕ → Device → Device
secured current handler key d = record d {
  device_opened = 1;
  pinfo = allocated (registered_info current handler key);
  probing = d.registered;
  holders = d.holders + 1;
}

module _ (current handler key : ℕ) (d : Device) (memory : ℕ → Option ℕ) (newp : Task) where
  wake_up_new_task_admits :
      memory (page_start 4096 newp.sp) ≡ some key
      → newp.task_pid ≢ newp.tgid
      → wake_up_new_task current memory newp (secured current handler key d) ≡ ok newp.ip
  unfolding wake_up_new_task fork_callback start_process start_thread read_user read_pinfo
  wake_up_new_task_admits word thread = ground (arith, word, thread)

  wake_up_new_task_refuses :
      d.registered ≡ true
      → (newp.task_pid ≡ newp.tgid)
        ⊎ ((word : ℕ) × (memory (page_start 4096 newp.sp) ≡ some word) × (word ≢ key))
      → wake_up_new_task current memory newp (secured current handler key d) ≡ ok handler
  unfolding wake_up_new_task fork_callback start_process start_thread read_user read_pinfo
  wake_up_new_task_refuses probe (inl process) = ground (arith, probe, process)
  wake_up_new_task_refuses probe (inr (word, there, other)) =
      elim (Bool-cases (newp.task_pid == newp.tgid)) [
        | inl process ↦ ground (arith, probe, process)
        | inr thread ↦ ground (arith, probe, there, other, thread)
      ]

module _ (current handler key : ℕ) (c : Chdev) (isopen : c.isopen ≡ true) where
  register_key-secured :
      (d : Device) (key' : ℕ)
      → register_key current key' c (secured current handler key d)
        ≡ ok (secured current handler key' d, done command_size)
  unfolding register_key dev_command demo_write handle_command after_command run_command read_pinfo
  register_key-secured d key' =
      let own : (current == current) ≡ true = ground arith in ground (arith, isopen, own)

  -- A thread of the process, on a stack of whole pages that launch has prepared, starts where
  -- pthread_create says, if its first stack pointer is in the page that the key stands in.
  pub prepare_stack-wake_up_new_task :
      (d : Device) (key' stack : ℕ) (memory : ℕ → Option ℕ) (newp : Task)
      → stack % 4096 ≡ 0
      → stack + 2 ^ 20 < 2 ^ 64
      → stack + 2 ^ 20 - 2 ^ 13 ≤ newp.sp
      → newp.sp < stack + 2 ^ 20 - 2 ^ 12
      → newp.task_pid ≢ newp.tgid
      → (do
        (keyed, memory') ← prepare_stack current key' stack c memory (secured current handler key d)
        wake_up_new_task current memory' newp keyed)
        ≡ ok newp.ip
  unfolding prepare_stack wake_up_new_task fork_callback start_process start_thread read_user
      read_pinfo succeeded poke key_slot
  prepare_stack-wake_up_new_task d key' stack memory newp pages small low high thread =
      let at_slot : newp.sp - newp.sp % 4096
          ≡ ((stack + 2 ^ 20) % 2 ^ 64 + 2 ^ 64 - 2 ^ 13) % 2 ^ 64 =
        omega arith in
      let found = page_start_lem newp.sp in
      let keyed = register_key-secured d key' in
      let admitted =
        wake_up_new_task_admits current handler key' d (poke (key_slot stack) key' memory) newp
          (ground (arith, found, at_slot)) thread in
      rw (keyed) admitted

-- On a closed device, main enters the secure mode.
pub enter_secure-secured :
    (current handler key : ℕ) (memory : ProcessInfo) (d : Device)
    → d.device_opened ≡ 0
    → (c : Chdev) × (c.isopen ≡ true)
      × (enter_secure current (some memory) handler key d ≡ ok (c, secured current handler key d))
unfolding enter_secure get_chdev dev_open register_error_function register_key dev_command demo_open
    demo_write handle_command after_command run_command read_pinfo succeeded
enter_secure-secured current handler key memory d shut =
    let own : (current == current) ≡ true = ground arith in
    (record { owner = current; isopen = true }, refl, ground (arith, shut, own))

-- Once main has entered the secure mode with the probe registered, a process that it forks, and a
-- thread whose page of the stack begins with a word that is not the key, start at the error
-- function.
pub wake_up_new_task_diverts :
    (current handler key : ℕ) (info : ProcessInfo) (d : Device) (memory : ℕ → Option ℕ)
    (newp : Task)
    → d.device_opened ≡ 0
    → d.registered ≡ true
    → (newp.task_pid ≡ newp.tgid)
      ⊎ ((word : ℕ) × (memory (newp.sp - newp.sp % 4096) ≡ some word) × (word ≢ key))
    → (do
      (c, keyed) ← enter_secure current (some info) handler key d
      wake_up_new_task current memory newp keyed)
      ≡ ok handler
unfolding wake_up_new_task fork_callback start_process start_thread read_user read_pinfo
wake_up_new_task_diverts current handler key info d memory newp shut probe why =
    let (c, isopen, entered) = enter_secure-secured current handler key info d shut in
    rw (entered) (
      wake_up_new_task_refuses current handler key d memory newp probe
        (rw (page_start_lem newp.sp) why))
