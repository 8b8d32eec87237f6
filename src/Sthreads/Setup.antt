-- ===== src/Sthreads/Setup.antt =====
-- init_module and cleanup_module of module/sthreads.c.
use bootcamp.Base.{ℕ, Bool, true, false, Option, none, some}
use bootcamp.Sthreads.{Returned, granted, failed, Device}

-- What init_module has registered.
pub record Resources : Type 0 where
  pub chrdev : Bool
  pub device_class : Bool
  pub device_node : Bool
  pub jprobe : Bool

abbrev pub no_resources : Resources
no_resources = record { chrdev = false; device_class = false; device_node = false; jprobe = false }

-- What the calls of init_module return; for register_jprobe, whether it is at least 0.
pub record Registration : Type 0 where
  pub register_chrdev : Returned
  pub class_create : Returned
  pub device_create : Returned
  pub register_jprobe : Bool

-- The end of init_module, behind device_create.
unfoldable pub init_device : Registration → Resources → Device → Resources × Option ℕ × Device
init_device r held d = (
  record held { device_node = true; jprobe = r.register_jprobe },
  none,
  record d { device_opened = 0; registered = r.register_jprobe; probing = false },
)

-- The labels error_device, error_class and error_regdev.
unfoldable pub error_regdev : Resources → ℕ → Device → Resources × Option ℕ × Device
error_regdev held e d = (held, some e, d)

unfoldable pub error_class : Resources → ℕ → Device → Resources × Option ℕ × Device
error_class held e d = error_regdev (record held { chrdev = false }) e d

unfoldable pub error_device : Resources → ℕ → Device → Resources × Option ℕ × Device
error_device held e d = error_class (record held { device_class = false }) e d

-- init_module, where the variables are `d` before: what is registered, the error number it returns
-- the negative of, and the variables. The permissions that it sets for the class are left out.
unfoldable pub init_module : Registration → Device → Resources × Option ℕ × Device
init_module r d =
    let d1 = record d { major = r.register_chrdev } in
    elim r.register_chrdev [
      | failed e ↦ error_regdev no_resources e d1
      | granted major ↦
          let registered = record no_resources { chrdev = true } in
          let d2 = record d1 { sthreads_class = r.class_create } in
          elim r.class_create [
            | failed e ↦ error_class registered e d2
            | granted class ↦
                let classed = record registered { device_class = true } in
                let d3 = record d2 { sthreads_device = r.device_create } in
                elim r.device_create [
                  | failed e ↦ error_device classed e d3
                  | granted device ↦ init_device r classed d3
                ]
          ]
    ]

-- cleanup_module
unfoldable pub cleanup_module : Resources → Resources
cleanup_module held = record held {
  device_node = false;
  device_class = false;
  chrdev = false;
  jprobe = false;
}
