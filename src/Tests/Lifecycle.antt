-- ===== src/Tests/Lifecycle.antt =====
-- A load without a class, which fails when the device was probed; then the module loaded with the
-- majors 240, 241 and 242, the device probed, and the module unloaded.
use xpcie.Base.{◌≡◌, refl, true, some, [], ◌∷◌}
use xpcie.Init.{Answers, xpcie_init, init_h2c, init_c2h, init_class}
use xpcie.Driver as Driver
use xpcie.Driver.{Driver, loaded}
use xpcie.Driver.Invariant.{after}
use xpcie.Lifecycle.{Module, booted, load_module}
use xpcie.Lifecycle.Unload.{left_registered}
use xpcie.Init.Exit.{before_class}
use xpcie.Tests.Driver.{two_bars}
use xpcie.Tests.Init.{major_of, no_class}

abbrev granted : Answers
granted = record {
  pci_register_driver = 0;
  register_chrdev = λ name. some (major_of name);
  class_create = true;
}

abbrev found : Driver
found = after two_bars loaded

abbrev failed_once : Module
failed_once = load_module no_class found booted

abbrev probed : Module
probed = record (load_module granted loaded failed_once) { device = found }

-- The driver and the three character devices are left.
left : left_registered ((no_class, found) ∷ []) ≡ before_class 240 241 242
unfolding xpcie_init init_h2c init_c2h init_class
left = refl
