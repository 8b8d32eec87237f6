-- ===== src/Tests/Devices.antt =====
-- The device of the kernel module, and its client.
use bootcamp.Base.{
  ◌≡◌, ◌⊎◌, refl, true, false, none, some, inr, ok, err, out_of_bounds, arith, ◌>>=◌, [], ◌∷◌,
}
use bootcamp.Sthreads.{
  granted, failed, ProcessInfo, null, allocated, Device, Task, done, opening, waking, step,
  demo_open, demo_release, wake_up_new_task,
}
use bootcamp.Sthreads.Setup.{Registration, error_regdev, error_class, no_resources, init_module}
use bootcamp.Sthreads.Lifetime.{
  Allowed, IsUserFault, Reachable, loaded, later, step-Returns, demo_open-after_release,
}
use bootcamp.Sthreads.Loading.{Settled, first_error, init_module-Settled}
use bootcamp.Chdev.{Chdev, prepare_stack, enter_secure}
use bootcamp.Chdev.Admission.{secured, prepare_stack-wake_up_new_task, wake_up_new_task_diverts}

abbrev idle : Device
idle = record {
  major = granted 240;
  device_opened = 0;
  sthreads_class = granted 1;
  sthreads_device = granted 2;
  pinfo = null;
  registered = true;
  probing = false;
  holders = 0;
}

abbrev memory : ProcessInfo
memory = record {
  pid = 99;
  is_valid_key = true;
  is_valid_callback = true;
  key = 98;
  error_callback = 97;
}

abbrev in_use : Device
in_use = record idle {
  device_opened = 1;
  pinfo = allocated (record memory { pid = 7; is_valid_key = false; is_valid_callback = false });
  probing = true;
  holders = 1;
}

opened_by_7 : step (opening 7 (some memory)) idle ≡ ok in_use
unfolding step demo_open
opened_by_7 = refl

in_use-Reachable : Reachable in_use
unfolding Allowed
in_use-Reachable =
    later (opening 7 (some memory)) idle in_use (loaded idle refl refl refl refl) tt opened_by_7

-- A task of process 7, on a stack that begins at 0x100000.
abbrev task : Task
task = record { task_pid = 8; tgid = 7; ip = 5; sp = 2093000 }

-- The same task, without memory for its stack.
step-Returns_example :
    ((d' : Device) × (step (waking 7 (λ at. none) task) in_use ≡ ok d'))
    ⊎ (IsUserFault (waking 7 (λ at. none) task)
        × (step (waking 7 (λ at. none) task) in_use ≡ err out_of_bounds))
unfolding Allowed
step-Returns_example = step-Returns (waking 7 (λ at. none) task) in_use in_use-Reachable tt

demo_open-after_release_example :
    (d' : Device) × (demo_open 8 (some memory) (demo_release in_use).0 ≡ (d', done 0))
    × (d'.pinfo
        ≡ allocated (record memory { pid = 8; is_valid_key = false; is_valid_callback = false }))
demo_open-after_release_example =
    demo_open-after_release in_use 8 memory in_use-Reachable (omega arith)

abbrev client : Chdev
client = record { owner = 7; isopen = true }

prepare_stack-wake_up_new_task_example :
    (do
      (keyed, memory') ← prepare_stack 7 4321 1048576 client (λ at. some 0) (secured 7 64 1234 idle)
      wake_up_new_task 7 memory' task keyed)
    ≡ ok 5
prepare_stack-wake_up_new_task_example =
    prepare_stack-wake_up_new_task 7 64 1234 client refl idle 4321 1048576 (λ at. some 0) task refl
      (omega arith) (omega arith) (omega arith) (omega arith)

wake_up_new_task_diverts_example :
    (do
      (c, keyed) ← enter_secure 7 (some memory) 64 1234 idle
      wake_up_new_task 7 (λ at. some 0) task keyed)
    ≡ ok 64
wake_up_new_task_diverts_example =
    wake_up_new_task_diverts 7 64 1234 memory idle (λ at. some 0) task refl refl
      (inr (0, refl, omega arith))

-- A class that cannot be created: nothing stays registered, and sthreads_class is the error.
abbrev no_class : Registration
no_class = record {
  register_chrdev = granted 241;
  class_create = failed 12;
  device_create = granted 2;
  register_jprobe = true;
}

class_fails :
    init_module no_class idle
    ≡ (no_resources, some 12, record idle { major = granted 241; sthreads_class = failed 12 })
unfolding init_module error_class error_regdev
class_fails = refl

init_module-Settled_example :
    Settled idle (init_module no_class idle)
    × ((init_module no_class idle).1 ≡ first_error (granted 241 ∷ failed 12 ∷ granted 2 ∷ []))
init_module-Settled_example = init_module-Settled no_class idle refl refl
