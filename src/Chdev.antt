-- ===== src/Chdev.antt =====
-- chdev_t of os.h and os.cpp (day 4), the client of the kernel module, and what thmgr_t::launch does
-- with it for a thread of a secure manager. A call of write on the device is a call of demo_write.
pub mod Admission
use bootcamp.Base.{
  ℕ, ◌+◌, ◌-◌, ◌%◌, ◌^◌, Bool, true, false, not, ◌&&◌, Option, none, some, ◌==◌, if◌then◌else◌,
  Result, ok, err, assertion, assert, ◌>>=◌, ◌>>◌,
}
use bootcamp.Sthreads.{
  ProcessInfo, Device, Status, done, ebusy, enomem, eperm, einval, Command, reg_key, unreg_key,
  reg_err_fn, unreg_err_fn, demo_open, demo_release, demo_write,
}

-- chdev_t
pub record Chdev : Type 0 where
  pub owner : ℕ
  pub isopen : Bool

-- status >= 0
unfoldable pub succeeded : Status → Bool
succeeded (done n) = true
succeeded ebusy = false
succeeded enomem = false
succeeded eperm = false
succeeded einval = false

-- chdev_t::dev_open in the process `current`, and whether it returns 0.
unfoldable pub dev_open : ℕ → Option ProcessInfo → Chdev → Device → Result (Chdev × Device × Bool)
dev_open current memory c d = do
  assert (not c.isopen)
  let (opened, status) = demo_open current memory d
  ok (if succeeded status then (record c { isopen = true }, opened, true) else (c, opened, false))

-- chdev_t::get_chdev: the instance, which is none where the device does not open.
unfoldable pub get_chdev :
    ℕ → Option ProcessInfo → Option Chdev → Device → Result (Option Chdev × Device)
get_chdev current memory (some c) d = ok (some c, d)
get_chdev current memory none d = do
  (c, opened, works) ← dev_open current memory (record { owner = current; isopen = false }) d
  ok (if works then some c else none, opened)

-- chdev_t::~chdev_t, in the process `current`.
unfoldable pub delete_chdev : ℕ → Chdev → Device → Device
delete_chdev current c d = if c.isopen && (current == c.owner) then (demo_release d).0 else d

-- chdev_t::dev_command
unfoldable pub dev_command : ℕ → Command → Chdev → Device → Result (Device × Status)
dev_command current cmd c d = do assert c.isopen; demo_write current (some cmd) d

-- chdev_t::register_key
unfoldable pub register_key : ℕ → ℕ → Chdev → Device → Result (Device × Status)
register_key current key c d = dev_command current (record { command = reg_key; param = key }) c d

-- chdev_t::unregister_key
unfoldable pub unregister_key : ℕ → ℕ → Chdev → Device → Result (Device × Status)
unregister_key current key c d =
    dev_command current (record { command = unreg_key; param = key }) c d

-- chdev_t::register_error_function; `handler` is the address of handle_bad_thread.
unfoldable pub register_error_function : ℕ → ℕ → Chdev → Device → Result (Device × Status)
register_error_function current handler c d =
    dev_command current (record { command = reg_err_fn; param = handler }) c d

-- chdev_t::unregister_error_function
unfoldable pub unregister_error_function : ℕ → Chdev → Device → Result (Device × Status)
unregister_error_function current c d =
    dev_command current (record { command = unreg_err_fn; param = 0 }) c d

-- *((unsigned long *) s) = key;
unfoldable pub poke : ℕ → ℕ → (ℕ → Option ℕ) → ℕ → Option ℕ
poke s key memory at = if at == s then some key else memory at

-- Where launch puts the key in a stack.
unfoldable pub key_slot : ℕ → ℕ
key_slot stack = ((stack + 2 ^ 20) % 2 ^ 64 + 2 ^ 64 - 2 ^ 13) % 2 ^ 64

-- thmgr_t::launch for a secure manager, up to pthread_create: the device, and the words of
-- memory that are mapped.
unfoldable pub prepare_stack :
    ℕ → ℕ → ℕ → Chdev → (ℕ → Option ℕ) → Device → Result (Device × (ℕ → Option ℕ))
prepare_stack current key stack c memory d = do
  (registered, status) ← register_key current key c d
  assert (succeeded status)
  ok (registered, poke (key_slot stack) key memory)

-- main of readindexed.cpp with --secure: the device with its error function, and a first key.
unfoldable pub enter_secure : ℕ → Option ProcessInfo → ℕ → ℕ → Device → Result (Chdev × Device)
enter_secure current memory handler key d = do
  (instance_of, opened) ← get_chdev current memory none d
  elim instance_of [
    | none ↦ err assertion
    | some c ↦ do
      (armed, status) ← register_error_function current handler c opened
      assert (succeeded status)
      (keyed, status2) ← register_key current key c armed
      assert (succeeded status2)
      ok (c, keyed)
  ]
