-- ===== src/Sthreads/Lifetime.antt =====
-- The device over its life: what the kernel calls in which states, and what holds in all of them.
use bootcamp.Base.{
  ℕ, ◌+◌, ◌-◌, ◌%◌, ◌^◌, ◌≡◌, ◌≢◌, ◌==◌, inl, inr, ◌⊎◌, refl, subst, false, Bool-cases, Option,
  none, some, Option-cases, arith, Result, ok, err, out_of_bounds,
}
use bootcamp.Sthreads.{
  eperm, ProcessInfo, null, allocated, Device, done, ebusy, Command, Task, Event, opening, closing,
  reading, writing, waking, step, demo_open, demo_release, demo_read, demo_write, handle_command,
  after_command, run_command, read_pinfo, fork_callback, wake_up_new_task, read_user, start_process,
  start_thread,
}
use bootcamp.Sthreads.Paging.{page_start_lem}

-- The kernel writes to and closes only what is open.
unfoldable pub Allowed : Event → Device → Type 0
Allowed (opening current memory) d = Unit
Allowed closing d = d.device_opened ≢ 0
Allowed reading d = d.device_opened ≢ 0
Allowed (writing current cmd) d = d.device_opened ≢ 0
Allowed (waking current memory newp) d = Unit

-- The states from a loaded module on.
pub data Reachable : Device → Type 0 where
  loaded :
      (d : Device)
      → d.device_opened ≡ 0
      → d.pinfo ≡ null
      → d.probing ≡ false
      → d.holders ≡ 0
      → Reachable d
  later : (e : Event) (d d' : Device) → Reachable d → Allowed e d → step e d ≡ ok d' → Reachable d'

-- Memory of a user that a handler reads without a check, and that is not there: what write was told
-- to copy, or the start of the page that the stack pointer of a new thread is in.
abbrev pub IsUserFault : Event → Type 0
IsUserFault (writing current none) = Unit
IsUserFault (waking current memory newp) =
    (newp.task_pid ≢ newp.tgid) × (memory (newp.sp - newp.sp % 4096) ≡ none)
IsUserFault e = ⊥

-- The device is closed, without a probe; or it is open, once, with the memory of pinfo allocated.
pub data IsConsistent (d : Device) : Type 0 where
  closed : d.device_opened ≡ 0 → d.probing ≡ false → d.holders ≡ 0 → IsConsistent d
  opened :
      (info : ProcessInfo)
      → d.device_opened ≡ 1
      → d.pinfo ≡ allocated info
      → d.probing ≡ d.registered
      → d.holders ≡ 1
      → IsConsistent d

-- An event that returns, and leaves a consistent state.
abbrev pub Survives : Result Device → Type 0
Survives r = (d : Device) × (r ≡ ok d) × IsConsistent d

opening-Survives :
    (current : ℕ) (memory : Option ProcessInfo) (d : Device)
    → IsConsistent d
    → Survives (step (opening current memory) d)
unfolding step demo_open
opening-Survives current none d (closed shut off free) =
    (record d { pinfo = null }, ground (arith, shut), closed shut off free)
opening-Survives current (some info) d (closed shut off free) = (
  record d {
    device_opened = (d.device_opened + 1) % 2 ^ 32;
    pinfo =
        allocated (record info { pid = current; is_valid_key = false; is_valid_callback = false });
    probing = d.registered;
    holders = d.holders + 1;
  },
  ground (arith, shut),
  opened _ (omega (arith, shut)) refl refl (omega (arith, free)),
)
opening-Survives current memory d (opened info one there on held) =
    (d, ground (arith, one), opened info one there on held)

closing-Survives : (d : Device) → IsConsistent d → d.device_opened ≢ 0 → Survives (step closing d)
unfolding step demo_release
closing-Survives d (closed shut off free) in_use = absurd (in_use shut)
closing-Survives d (opened info one there on held) in_use =
    (_, refl, closed (omega (arith, one)) refl (omega (arith, held)))

writing-Survives :
    (current : ℕ) (cmd : Command) (d : Device)
    → IsConsistent d
    → d.device_opened ≢ 0
    → Survives (step (writing current (some cmd)) d)
unfolding step demo_write handle_command after_command read_pinfo
writing-Survives current cmd d (closed shut off free) in_use = absurd (in_use shut)
writing-Survives current cmd d (opened info one there on held) in_use =
    elim (Bool-cases (current == info.pid)) [
      | inl own ↦ elim (Option-cases (run_command cmd info)) [
        | inl unknown ↦ (d, ground (arith, there, own, unknown), opened info one there on held)
        | inr (next, known) ↦ (
          record d { pinfo = allocated next },
          ground (arith, there, own, known),
          opened next one refl on held,
        )
      ]
      | inr other ↦ (d, ground (arith, there, other), opened info one there on held)
    ]

-- A new task starts somewhere, or is a thread without the memory of its stack.
fork_callback-cases :
    (current : ℕ) (memory : ℕ → Option ℕ) (newp : Task) (d : Device) (info : ProcessInfo)
    → d.pinfo ≡ allocated info
    → ((ip : ℕ) × (fork_callback current memory newp d ≡ ok ip))
      ⊎ (IsUserFault (waking current memory newp)
          × (fork_callback current memory newp d ≡ err out_of_bounds))
unfolding fork_callback read_pinfo read_user
fork_callback-cases current memory newp d info there = elim (Bool-cases (info.pid == current)) [
  | inr other ↦ inl (newp.ip, ground (arith, there, other))
  | inl own ↦ elim (Bool-cases (newp.task_pid == newp.tgid)) [
    | inl process ↦ inl (start_process newp info, ground (arith, there, own, process))
    | inr thread ↦
        let found = page_start_lem newp.sp in
        elim (Option-cases (memory (newp.sp - newp.sp % 4096))) [
          | inl gone ↦
              inr ((ground (arith, thread), gone), ground (arith, there, own, thread, found, gone))
          | inr (word, mapped) ↦
              inl (start_thread word newp info, ground (arith, there, own, thread, found, mapped))
        ]
  ]
]

-- An event that returns and leaves a consistent state, or reads memory of a user that is not there.
abbrev pub Settles : Event → Device → Type 0
Settles e d = Survives (step e d) ⊎ (IsUserFault e × (step e d ≡ err out_of_bounds))

waking-Settles :
    (current : ℕ) (memory : ℕ → Option ℕ) (newp : Task) (d : Device)
    → IsConsistent d
    → Settles (waking current memory newp) d
unfolding step wake_up_new_task
waking-Settles current memory newp d (closed shut off free) =
    inl (d, ground (arith, off), closed shut off free)
waking-Settles current memory newp d (opened info one there on held) = elim (Bool-cases d.probing) [
  | inr idle ↦ inl (d, ground (arith, idle), opened info one there on held)
  | inl probed ↦ elim (fork_callback-cases current memory newp d info there) [
    | inl (ip, started) ↦ inl (d, ground (arith, probed, started), opened info one there on held)
    | inr (gone, fault) ↦ inr (gone, ground (arith, probed, fault))
  ]
]

step-Settles : (e : Event) (d : Device) → IsConsistent d → Allowed e d → Settles e d
unfolding Allowed step demo_read demo_write
step-Settles (opening current memory) d h may = inl (opening-Survives current memory d h)
step-Settles closing d h may = inl (closing-Survives d h may)
step-Settles reading d h may = inl (d, refl, h)
step-Settles (writing current none) d h may = inr (tt, refl)
step-Settles (writing current (some cmd)) d h may = inl (writing-Survives current cmd d h may)
step-Settles (waking current memory newp) d h may = waking-Settles current memory newp d h

pub Reachable-IsConsistent : (d : Device) → Reachable d → IsConsistent d
Reachable-IsConsistent d (loaded _ shut null_info off free) = closed shut off free
Reachable-IsConsistent _ (later e d d' before may there) =
    elim (step-Settles e d (Reachable-IsConsistent d before) may) [
      | inl (after, returned, h) ↦
          let same : after ≡ d' = cc (returned, there) in subst IsConsistent same h
      | inr (gone, fault) ↦ cc (fault, there)
    ]

-- In every state that the calls of the kernel reach, whatever it calls next returns, or reads memory
-- of a user that is not there: the memory at buff, which demo_write copies without a check, or the
-- start of the page that the stack pointer of a new thread is in, which fork_callback reads. No
-- BUG_ON is hit, and with the memory of the user in place pinfo is not followed where it is null or
-- freed.
pub step-Returns :
    (e : Event) (d : Device)
    → Reachable d
    → Allowed e d
    → ((d' : Device) × (step e d ≡ ok d')) ⊎ (IsUserFault e × (step e d ≡ err out_of_bounds))
step-Returns e d r may = elim (step-Settles e d (Reachable-IsConsistent d r) may) [
  | inl (after, returned, h) ↦ inl (after, returned)
  | inr fault ↦ inr fault
]

-- Nobody but the process that opened the device changes what it keeps: another process that opens
-- it is told that it is busy, and one that writes to it has no permission.
pub step_of_strangers :
    (d : Device) (owner : ProcessInfo) (current : ℕ) (memory : Option ProcessInfo) (cmd : Command)
    → Reachable d
    → d.device_opened ≢ 0
    → d.pinfo ≡ allocated owner
    → owner.pid ≢ current
    → (demo_open current memory d ≡ (d, ebusy)) × (demo_write current (some cmd) d ≡ ok (d, eperm))
unfolding demo_open demo_write handle_command read_pinfo
step_of_strangers d owner current memory cmd r in_use there other =
    elim (Reachable-IsConsistent d r) [
      | closed shut off free ↦ absurd (in_use shut)
      | opened info one also on held ↦ (
        ground (arith, one),
        elim (Bool-cases (current == owner.pid)) [
          | inl same ↦ absurd (other (ground (arith, same)))
          | inr apart ↦ ground (arith, there, apart)
        ],
      )
    ]

-- When the process that has the device open closes it, any process opens it again, where kmalloc
-- has memory, and nothing that the one before has registered is left.
pub demo_open-after_release :
    (d : Device) (current : ℕ) (memory : ProcessInfo)
    → Reachable d
    → d.device_opened ≢ 0
    → (d' : Device) × (demo_open current (some memory) (demo_release d).0 ≡ (d', done 0))
      × (d'.pinfo
          ≡ allocated
              (record memory { pid = current; is_valid_key = false; is_valid_callback = false }))
unfolding demo_open demo_release
demo_open-after_release d current memory r in_use = elim (Reachable-IsConsistent d r) [
  | closed shut off free ↦ absurd (in_use shut)
  | opened info one there on held ↦ (
    record d {
      device_opened = 1;
      pinfo =
          allocated
            (record memory { pid = current; is_valid_key = false; is_valid_callback = false });
      probing = d.registered;
      holders = d.holders - 1 + 1;
    },
    ground (arith, one),
    refl,
  )
]
