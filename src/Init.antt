-- ===== src/Init.antt =====
-- Loading and unloading the module: `xpcie_init` and `xpcie_exit` of driver/xpcie.c, as what they
-- register with the kernel and take back. What the kernel answers is a parameter.
pub mod Exit
use xpcie.Base.{
  ℕ, Bool, true, false, ◌&&◌, Option, none, some, List, [], ◌∷◌, ◌++◌, ◌==◌, if◌then◌else◌,
}

-- DRV_NAME_USER, DRV_NAME_H2C and DRV_NAME_C2H
pub data Name : Type 0 where
  user h2c c2h : Name

-- What is registered: the PCI driver, a character device, the class, a device of the class.
pub data Registration : Type 0 where
  driver : Registration
  chrdev : (major : ℕ) → Name → Registration
  device_class : Registration
  device : (major minor : ℕ) → Registration

-- `user_minor`, `h2c_minor` and `c2h_minor`
abbrev pub minor : Name → ℕ
minor user = 1
minor h2c = 2
minor c2h = 3

-- The answers: `pci_register_driver` is 0 for success, `register_chrdev` gives a major number or
-- fails, `class_create` succeeds or not. `device_create` is not looked at.
pub record Answers : Type 0 where
  pub pci_register_driver : ℕ
  pub register_chrdev : Name → Option ℕ
  pub class_create : Bool

-- `major_user`, `major_h2c` and `major_c2h`, 0 before they are set.
pub record Majors : Type 0 where
  pub major_user : ℕ
  pub major_h2c : ℕ
  pub major_c2h : ℕ

-- What `xpcie_init` leaves: whether it returns 0 (else it is -1), the major numbers, and what is
-- registered, in order.
pub record Loaded : Type 0 where
  pub success : Bool
  pub majors : Majors
  pub registered : List Registration

abbrev pub no_majors : Majors
no_majors = record { major_user = 0; major_h2c = 0; major_c2h = 0 }

-- From the class on.
unfoldable pub init_class : Answers → Majors → List Registration → Loaded
init_class a m registered =
    if a.class_create
    then record {
      success = true;
      majors = m;
      registered =
          registered
          ++ (device_class
              ∷ device m.major_user (minor user)
              ∷ device m.major_h2c (minor h2c)
              ∷ device m.major_c2h (minor c2h)
              ∷ []);
    }
    else record { success = false; majors = m; registered = registered }

-- From the second character device on, and from the third.
unfoldable pub init_c2h : Answers → Majors → List Registration → Loaded
init_c2h a m registered = elim (a.register_chrdev c2h) [
  | none ↦ record { success = false; majors = m; registered = registered }
  | some major ↦
      init_class a (record m { major_c2h = major }) (registered ++ (chrdev major c2h ∷ []))
]

unfoldable pub init_h2c : Answers → Majors → List Registration → Loaded
init_h2c a m registered = elim (a.register_chrdev h2c) [
  | none ↦ record { success = false; majors = m; registered = registered }
  | some major ↦ init_c2h a (record m { major_h2c = major }) (registered ++ (chrdev major h2c ∷ []))
]

-- `xpcie_init`: each failure ends it at once, and nothing is taken back.
unfoldable pub xpcie_init : Answers → Loaded
xpcie_init a =
    if a.pci_register_driver == 0
    then elim (a.register_chrdev user) [
      | none ↦ record { success = false; majors = no_majors; registered = driver ∷ [] }
      | some major ↦
          init_h2c a (record no_majors { major_user = major }) (driver ∷ chrdev major user ∷ [])
    ]
    else record { success = false; majors = no_majors; registered = [] }

-- `xpcie_exit`: what it takes back, in order.
unfoldable pub xpcie_exit : Majors → List Registration
xpcie_exit m =
    device m.major_user (minor user)
    ∷ device m.major_h2c (minor h2c)
    ∷ device m.major_c2h (minor c2h)
    ∷ device_class
    ∷ chrdev m.major_user user
    ∷ chrdev m.major_h2c h2c
    ∷ chrdev m.major_c2h c2h
    ∷ driver
    ∷ []
