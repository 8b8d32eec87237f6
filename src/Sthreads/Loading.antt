-- ===== src/Sthreads/Loading.antt =====
-- Loading the module, and removing it.
use bootcamp.Base.{Bool, ◌≡◌, refl, Option, none, some, List, [], ◌∷◌, ℕ}
use bootcamp.Sthreads.{null, Returned, granted, failed, Device}
use bootcamp.Sthreads.Setup.{
  Resources, no_resources, Registration, init_device, init_module, error_regdev, error_class,
  error_device, cleanup_module,
}
use bootcamp.Sthreads.Lifetime.{Reachable, loaded}

-- The error number of the first call that fails.
abbrev pub first_error : List Returned → Option ℕ
first_error [] = none
first_error (failed e ∷ calls) = some e
first_error (granted n ∷ calls) = first_error calls

-- What init_module leaves, with the variables that were `d`.
unfoldable pub Settled : Device → Resources × Option ℕ × Device → Type 0
Settled d (held, some number, d') =
    (held ≡ no_resources)
    × (d' ≡ record d {
      major = d'.major;
      sthreads_class = d'.sthreads_class;
      sthreads_device = d'.sthreads_device;
    })
Settled d (held, none, d') = Reachable d' × (cleanup_module held ≡ no_resources)

init_module_by_cases :
    (chrdev device_class device_node : Returned) (jprobe : Bool) (d : Device)
    → d.pinfo ≡ null
    → d.holders ≡ 0
    → let r : Registration = record {
      register_chrdev = chrdev;
      class_create = device_class;
      device_create = device_node;
      register_jprobe = jprobe;
    } in
      Settled d (init_module r d)
      × ((init_module r d).1 ≡ first_error (chrdev ∷ device_class ∷ device_node ∷ []))
unfolding Settled init_module init_device error_device error_class error_regdev cleanup_module
init_module_by_cases (failed e) device_class device_node jprobe d null_info free =
    ((refl, refl), refl)
init_module_by_cases (granted m) (failed e) device_node jprobe d null_info free =
    ((refl, refl), refl)
init_module_by_cases (granted m) (granted c) (failed e) jprobe d null_info free =
    ((refl, refl), refl)
init_module_by_cases (granted m) (granted c) (granted n) jprobe d null_info free =
    ((loaded _ refl null_info refl free, refl), refl)

-- In a module that nobody holds, whose pinfo is null, init_module returns the negative of the error
-- number of the first of register_chrdev, class_create and device_create that fails. It has then
-- given back whatever it had registered, and has changed no variable but major, sthreads_class and
-- sthreads_device. Where none fails it returns 0, the device is as the kernel finds it first, and
-- cleanup_module gives everything back.
pub init_module-Settled :
    (r : Registration) (d : Device)
    → d.pinfo ≡ null
    → d.holders ≡ 0
    → Settled d (init_module r d)
      × ((init_module r d).1
          ≡ first_error (r.register_chrdev ∷ r.class_create ∷ r.device_create ∷ []))
init_module-Settled r d =
    init_module_by_cases r.register_chrdev r.class_create r.device_create r.register_jprobe d
