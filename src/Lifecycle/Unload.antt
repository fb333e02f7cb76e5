-- ===== src/Lifecycle/Unload.antt =====
-- What is left of the module when it is not in the kernel.
use xpcie.Base.{ℕ, ◌≡◌, true, false, some, List, [], ◌∷◌, ◌++◌}
use xpcie.Init.{user, h2c, c2h, Registration, Answers, xpcie_init, xpcie_exit}
use xpcie.Init.Exit.{take_all_back}
use xpcie.Driver as Driver
use xpcie.Driver.{Driver, Mapping}
use xpcie.Lifecycle.{Module, Reach}

-- A load that succeeds was granted everything.
Granted : Answers → Type 0
Granted a =
    (u : ℕ) × (h : ℕ) × (c : ℕ) × (a.pci_register_driver ≡ 0)
    × (a.register_chrdev user ≡ some u)
    × (a.register_chrdev h2c ≡ some h)
    × (a.register_chrdev c2h ≡ some c)
    × (a.class_create ≡ true)

-- What loads that failed left.
abbrev pub left_registered : List (Answers × Driver) → List Registration
left_registered [] = []
left_registered ((a, d) ∷ failed) = (xpcie_init a).registered ++ left_registered failed

abbrev pub left_mapped : List (Answers × Driver) → List Mapping
left_mapped [] = []
left_mapped ((a, d) ∷ failed) = d.live ++ left_mapped failed

-- The device as the driver sees it, what `xpcie_exit` would leave, and what is left without the
-- module.
record IsTidy (failed : List (Answers × Driver)) (s : Module) : Type 0 where
  device : Driver.Reach s.device
  taken :
      s.in_kernel ≡ true → take_all_back (xpcie_exit s.majors) s.registered ≡ left_registered failed
  gone : s.in_kernel ≡ false → (s.registered ≡ left_registered failed) × (s.device.bound ≡ false)
  stale : s.stale ≡ left_mapped failed
