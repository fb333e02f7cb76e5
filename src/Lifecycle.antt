-- ===== src/Lifecycle.antt =====
-- The module from load to unload, as often as it is loaded: `xpcie_init`, the probes and removes of
-- the device, and `xpcie_exit` of driver/xpcie.c. A load that fails takes nothing back, and what it
-- registered and mapped stays in the kernel without the code.
pub mod Unload
use xpcie.Base.{Bool, true, false, List, [], ◌∷◌, ◌++◌, ◌≡◌, ◌==◌, if◌then◌else◌}
use xpcie.Init.{Registration, Answers, Majors, no_majors, xpcie_init, xpcie_exit}
use xpcie.Init.Exit.{take_all_back}
use xpcie.Driver as Driver
use xpcie.Driver.{Driver, Mapping, loaded, remove_driver}

-- Whether the module is in the kernel, its major numbers, what is registered by it and by loads that
-- failed, its other globals with the device, and the mappings of BARs that loads left that failed.
pub record Module : Type 0 where
  pub in_kernel : Bool
  pub majors : Majors
  pub registered : List Registration
  pub device : Driver
  pub stale : List Mapping

abbrev pub booted : Module
booted = record {
  in_kernel = false;
  majors = no_majors;
  registered = [];
  device = loaded;
  stale = [];
}

-- A load, where `d` is what the PCI core made of the globals, which start anew, since
-- `pci_register_driver`. If the load fails, the module is gone, with its globals.
unfoldable pub load_module : Answers → (d : Driver) → Module → Module
load_module a d s = record {
  in_kernel = (xpcie_init a).success;
  majors = (xpcie_init a).majors;
  registered = (xpcie_init a).registered ++ s.registered;
  device = if (xpcie_init a).success then d else loaded;
  stale = if (xpcie_init a).success then s.stale else d.live ++ s.stale;
}

-- `pci_unregister_driver` removes the device if it is bound.
unfoldable pub unbind : Driver → Driver
unbind d = if d.bound then remove_driver d else d

unfoldable pub unload_module : Module → Module
unload_module s = record s {
  in_kernel = false;
  registered = take_all_back (xpcie_exit s.majors) s.registered;
  device = unbind s.device;
}

-- Only a registered driver is called.
abbrev pub Called : Answers → Driver → Type 0
Called a d = Driver.Reach d × ((a.pci_register_driver == 0) ≡ false → d ≡ loaded)

-- The states, by the loads that failed, the latest first.
pub data Reach : List (Answers × Driver) → Module → Type 0 where
  start : Reach [] booted
  load :
      {failed : List (Answers × Driver)} {s : Module} (a : Answers) (d : Driver)
      → Reach failed s
      → s.in_kernel ≡ false
      → Called a d
      → (xpcie_init a).success ≡ true
      → Reach failed (load_module a d s)
  load_fails :
      {failed : List (Answers × Driver)} {s : Module} (a : Answers) (d : Driver)
      → Reach failed s
      → s.in_kernel ≡ false
      → Called a d
      → (xpcie_init a).success ≡ false
      → Reach ((a, d) ∷ failed) (load_module a d s)
  device_step :
      {failed : List (Answers × Driver)} {s : Module} {d : Driver}
      → Reach failed s
      → s.in_kernel ≡ true
      → Driver.Step s.device d
      → Reach failed (record s { device = d })
  unload :
      {failed : List (Answers × Driver)} {s : Module}
      → Reach failed s
      → s.in_kernel ≡ true
      → Reach failed (unload_module s)
