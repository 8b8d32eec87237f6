-- ===== src/Threads.antt =====
-- os.h and os.cpp (day 4): thmgr_t, the table of threads, and the use that main of readindexed.cpp
-- makes of it. The threads themselves run elsewhere; what the calls of the operating system return
-- is an argument of the operations.
pub mod Workers
use bootcamp.Base.{
  ℕ, zero, suc, Bool, true, false, not, ◌&&◌, Option, none, some, List, [], ◌∷◌, ltb, leb, ◌==◌,
  if◌then◌else◌, length, get_elem?, set, Result, ok, err, assertion, out_of_bounds, assert, ◌>>=◌,
  ◌>>◌,
}

abbrev pub max_threads : ℕ
max_threads = 32

-- The memory addresses of functions, arguments and stacks.
abbrev pub Address : Type 0
Address = ℕ

-- thread_t
pub record Thread : Type 0 where
  pub tid : ℕ
  pub used : Bool
  pub running : Bool
  pub thfunc : Option Address
  pub stack : Option Address
  pub arg : Option Address

-- thmgr_t
pub record Manager : Type 0 where
  pub threads : List Thread
  pub secure : Bool

-- Whether pthread_attr_init returns 0, what mmap returns (none is MAP_FAILED), whether
-- pthread_attr_setstack returns 0, register_key at least 0, and pthread_create 0.
pub record SysResults : Type 0 where
  pub attr_init : Bool
  pub mmap : Option Address
  pub attr_setstack : Bool
  pub register_key : Bool
  pub pthread_create : Bool

abbrev pub is_some {ℓ} : {A : Type ℓ} → Option A → Bool
is_some none = false
is_some (some x) = true

-- The table that the constructors fill, from index `i` on.
unfoldable pub new_threads : ℕ → ℕ → List Thread
new_threads zero i = []
new_threads (suc n) i =
    record { tid = i; used = false; running = false; thfunc = none; stack = none; arg = none }
    ∷ new_threads n (suc i)

-- thmgr_t::thmgr_t, both constructors.
unfoldable pub thmgr : Bool → ℕ → Result Manager
thmgr secure num_threads = do
  assert (ltb 0 num_threads && leb num_threads max_threads)
  ok (record { threads = new_threads num_threads 0; secure = secure })

-- thmgr_t::find_free_thread, from index `i` on.
unfoldable pub find_free_thread : ℕ → List Thread → Option ℕ
find_free_thread i [] = none
find_free_thread i (th ∷ ths) = if th.used then find_free_thread (suc i) ths else some i

-- threads + i
unfoldable pub thread_at : Manager → ℕ → Result Thread
thread_at m i = elim (get_elem? m.threads i) [ none ↦ err out_of_bounds | some th ↦ ok th ]

unfoldable pub store_thread : Manager → ℕ → Thread → Manager
store_thread m i th = record m { threads = set m.threads i th }

-- The stack that create maps for a thread.
unfoldable pub new_stack : SysResults → Bool → Option Address → Result (Option Address)
new_stack sys false old = ok old
new_stack sys true old = do assert (is_some sys.mmap); assert sys.attr_setstack; ok sys.mmap

-- thmgr_t::create on the free slot `i`.
unfoldable pub create_at :
    SysResults → Manager → Address → Address → ℕ → Result (Manager × Option ℕ)
create_at sys m tfunc tharg i = do
  th ← thread_at m i
  assert (not th.used)
  assert sys.attr_init
  stack ← new_stack sys m.secure th.stack
  let created = record th { used = true; thfunc = some tfunc; arg = some tharg; stack = stack }
  ok (store_thread m i created, some th.tid)

-- thmgr_t::create; none is the result -1.
unfoldable pub create : SysResults → Manager → Address → Address → Result (Manager × Option ℕ)
create sys m tfunc tharg = elim (find_free_thread 0 m.threads) [
  | none ↦ ok (m, none)
  | some i ↦ create_at sys m tfunc tharg i
]

-- thmgr_t::launch
unfoldable pub launch : SysResults → Manager → ℕ → Result Manager
launch sys m tid = do
  assert (ltb tid (length m.threads))
  th ← thread_at m tid
  assert (not th.running && is_some th.thfunc)
  assert (if m.secure then is_some th.stack && sys.register_key else true)
  assert sys.pthread_create
  ok (store_thread m tid (record th { running = true }))

-- thmgr_t::wait(tid), once pthread_join has returned.
unfoldable pub wait_one : Manager → ℕ → Result Manager
wait_one m tid = do
  assert (ltb tid (length m.threads))
  th ← thread_at m tid
  assert th.running
  ok (store_thread m tid (record th { running = false; thfunc = none }))

-- What thmgr_t::wait() does with thread `i`.
unfoldable pub wait_running : Manager → ℕ → Thread → Result Manager
wait_running m i th = elim th.running [
  | false ↦ ok m
  | true ↦ do
    assert th.used
    waited ← wait_one m i
    joined ← thread_at waited i
    ok (store_thread waited i (record joined { used = false }))
]

-- thmgr_t::wait(), from thread `i` on, with the rounds that are left.
unfoldable pub wait_from : ℕ → ℕ → Manager → Result Manager
wait_from zero i m = ok m
wait_from (suc n) i m = do
  th ← thread_at m i
  waited ← wait_running m i th
  wait_from n (suc i) waited

-- thmgr_t::wait()
unfoldable pub wait_all : Manager → Result Manager
wait_all m = wait_from (length m.threads) 0 m

-- The loop of main that starts a thread for each chunk, from chunk `i` on. The address of
-- thdata[i] is given by `thdata`.
unfoldable pub start_workers :
    SysResults → Address → (ℕ → Address) → ℕ → ℕ → Manager → Result Manager
start_workers sys tfunc thdata zero i m = ok m
start_workers sys tfunc thdata (suc n) i m = do
  (created, tid) ← create sys m tfunc (thdata i)
  assert (elim tid [ none ↦ false | some t ↦ t == i ])
  launched ← launch sys created i
  start_workers sys tfunc thdata n (suc i) launched

-- The loop of main that waits for each of them.
unfoldable pub wait_workers : ℕ → ℕ → Manager → Result Manager
wait_workers zero i m = ok m
wait_workers (suc n) i m = do waited ← wait_one m i; wait_workers n (suc i) waited
