-- ===== src/Sthreads.antt =====
-- module/sthreads.c (day 4): the kernel module behind /dev/sthreads. It keeps the key and the error
-- callback of the process that has the device open, and is called for each new task, whose stack
-- has to hold the key. What the kernel returns is an argument of the operations. A handler runs as
-- one step.
pub mod Lifetime
pub mod Paging
pub mod Setup
pub mod Loading
use bootcamp.Base.{
  ℕ, zero, suc, ◌+◌, ◌-◌, ◌%◌, ◌^◌, Bool, true, false, not, ◌&&◌, Option, none, some, ◌==◌,
  if◌then◌else◌, Result, ok, err, out_of_bounds, assert, ◌>>=◌, ◌>>◌,
}

-- struct process_info
pub record ProcessInfo : Type 0 where
  pub pid : ℕ
  pub is_valid_key : Bool
  pub is_valid_callback : Bool
  pub key : ℕ
  pub error_callback : ℕ

-- The pointer pinfo.
pub data Pinfo : Type 0 where
  null freed : Pinfo
  allocated : ProcessInfo → Pinfo

-- What register_chrdev, class_create and device_create return: a number or a pointer, or an error
-- number.
pub data Returned : Type 0 where
  granted failed : ℕ → Returned

-- The variables of the module, whether forkjp is registered and enabled, and how often the module is
-- held.
pub record Device : Type 0 where
  pub major : Returned
  pub device_opened : ℕ
  pub sthreads_class : Returned
  pub sthreads_device : Returned
  pub pinfo : Pinfo
  pub registered : Bool
  pub probing : Bool
  pub holders : ℕ

-- What a handler returns: a number from 0 on, or the negative of an error number.
pub data Status : Type 0 where
  done : ℕ → Status
  ebusy enomem eperm einval : Status

-- struct command_t, and the numbers of its commands.
pub record Command : Type 0 where
  pub command : ℕ
  pub param : ℕ

abbrev pub reg_key : ℕ
reg_key = 0

abbrev pub unreg_key : ℕ
unreg_key = 1

abbrev pub reg_err_fn : ℕ
reg_err_fn = 2

abbrev pub unreg_err_fn : ℕ
unreg_err_fn = 3

abbrev pub command_size : ℕ
command_size = 16

-- A task that is woken up for the first time, with the registers it starts with.
pub record Task : Type 0 where
  pub task_pid : ℕ
  pub tgid : ℕ
  pub ip : ℕ
  pub sp : ℕ

-- *pinfo
unfoldable pub read_pinfo : Pinfo → Result ProcessInfo
read_pinfo null = err out_of_bounds
read_pinfo freed = err out_of_bounds
read_pinfo (allocated info) = ok info

abbrev pub is_null : Pinfo → Bool
is_null null = true
is_null freed = false
is_null (allocated info) = false

-- demo_open in the process `current`, where kmalloc returns `memory`.
unfoldable pub demo_open : ℕ → Option ProcessInfo → Device → Device × Status
demo_open current memory d = if not (d.device_opened == 0) then (d, ebusy) else elim memory [
  | none ↦ (record d { pinfo = null }, enomem)
  | some info ↦ (
    record d {
      device_opened = (d.device_opened + 1) % 2 ^ 32;
      pinfo =
          allocated
            (record info { pid = current; is_valid_key = false; is_valid_callback = false });
      probing = d.registered;
      holders = d.holders + 1;
    },
    done 0,
  )
]

-- demo_release
unfoldable pub demo_release : Device → Device × Status
demo_release d = (
  record d {
    device_opened = (d.device_opened + 2 ^ 32 - 1) % 2 ^ 32;
    pinfo = freed;
    probing = false;
    holders = d.holders - 1;
  },
  done 0,
)

-- demo_read
unfoldable pub demo_read : Device → Device × Status
demo_read d = (d, einval)

-- The switch of handle_command; none is its default case.
unfoldable pub run_command : Command → ProcessInfo → Option ProcessInfo
run_command cmd info =
    if cmd.command == reg_key
    then some (record info { key = cmd.param; is_valid_key = true })
    else if cmd.command == unreg_key
    then some (record info { is_valid_key = false })
    else if cmd.command == reg_err_fn
    then some (record info { is_valid_callback = true; error_callback = cmd.param })
    else if cmd.command == unreg_err_fn
    then some (record info { is_valid_callback = false })
    else none

-- The result of handle_command, with the new *pinfo.
unfoldable pub after_command : Device → Option ProcessInfo → Device × Status
after_command d none = (d, einval)
after_command d (some info) = (record d { pinfo = allocated info }, done command_size)

-- handle_command; BUG_ON is an assert.
unfoldable pub handle_command : ℕ → Command → Device → Result (Device × Status)
handle_command current cmd d = do
  assert (not (is_null d.pinfo))
  info ← read_pinfo d.pinfo
  ok (if not (current == info.pid) then (d, eperm) else after_command d (run_command cmd info))

-- demo_write, where buff points to the bytes of a command, or to memory that cannot be read. It
-- copies the size of a command, whatever len is.
unfoldable pub demo_write : ℕ → Option Command → Device → Result (Device × Status)
demo_write current none d = err out_of_bounds
demo_write current (some cmd) d = handle_command current cmd d

-- The loop of fork_callback that goes down to the start of a page, with the rounds that are left.
unfoldable pub page_start : ℕ → ℕ → ℕ
page_start zero s = s
page_start (suc rounds) s =
    let next = page_start rounds (s - 1) in if s % 4096 == 0 then s else next

-- *((unsigned long *) s), where `memory` holds the words that are mapped.
unfoldable pub read_user : (ℕ → Option ℕ) → ℕ → Result ℕ
read_user memory s = elim (memory s) [ none ↦ err out_of_bounds | some word ↦ ok word ]

-- Where a new process of the owner starts, and a new thread, whose page begins with `stored_key`.
unfoldable pub start_process : Task → ProcessInfo → ℕ
start_process newp info = if info.is_valid_callback then info.error_callback else newp.ip

unfoldable pub start_thread : ℕ → Task → ProcessInfo → ℕ
start_thread stored_key newp info =
    if info.is_valid_key && not (stored_key == info.key) && info.is_valid_callback
    then info.error_callback
    else newp.ip

-- fork_callback in the process `current`: where the task starts.
unfoldable pub fork_callback : ℕ → (ℕ → Option ℕ) → Task → Device → Result ℕ
fork_callback current memory newp d = do
  info ← read_pinfo d.pinfo
  elim (info.pid == current) [
    | false ↦ ok newp.ip
    | true ↦ elim (newp.task_pid == newp.tgid) [
      | true ↦ ok (start_process newp info)
      | false ↦ do
        stored_key ← read_user memory (page_start 4096 newp.sp)
        ok (start_thread stored_key newp info)
    ]
  ]

-- wake_up_new_task, with the probe where it is enabled.
unfoldable pub wake_up_new_task : ℕ → (ℕ → Option ℕ) → Task → Device → Result ℕ
wake_up_new_task current memory newp d =
    if d.probing then fork_callback current memory newp d else ok newp.ip

-- What the kernel calls the module for.
pub data Event : Type 0 where
  opening : ℕ → Option ProcessInfo → Event
  closing : Event
  reading : Event
  writing : ℕ → Option Command → Event
  waking : ℕ → (ℕ → Option ℕ) → Task → Event

-- The module after an event.
unfoldable pub step : Event → Device → Result Device
step (opening current memory) d = ok (demo_open current memory d).0
step closing d = ok (demo_release d).0
step reading d = ok (demo_read d).0
step (writing current cmd) d = do written ← demo_write current cmd d; ok written.0
step (waking current memory newp) d = do ip ← wake_up_new_task current memory newp d; ok d
