-- ===== src/Tests/Init.antt =====
-- A kernel that gives the majors 240, 241 and 242 but no class.
use xpcie.Base.{ℕ, ◌≡◌, refl, false, some, [], ◌∷◌, ◌++◌}
use xpcie.Init.{Name, user, h2c, c2h, driver, chrdev, Answers, xpcie_init, xpcie_exit}
use xpcie.Init.Exit.{all_registered, take_all_back, xpcie_init_lem}

abbrev pub major_of : Name → ℕ
major_of user = 240
major_of h2c = 241
major_of c2h = 242

abbrev pub no_class : Answers
no_class = record {
  pci_register_driver = 0;
  register_chrdev = λ name. some (major_of name);
  class_create = false;
}

xpcie_init_lem_example :
    let out = xpcie_init no_class in
    (out.success ≡ false)
    × (out.registered ≡ driver ∷ chrdev 240 user ∷ chrdev 241 h2c ∷ chrdev 242 c2h ∷ [])
    × (take_all_back (xpcie_exit out.majors) (all_registered 240 241 242 ++ (driver ∷ []))
        ≡ driver ∷ [])
xpcie_init_lem_example = xpcie_init_lem no_class 240 241 242 refl refl refl refl (driver ∷ [])
