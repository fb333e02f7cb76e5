-- ===== src/Init/Exit.antt =====
-- What `xpcie_exit` leaves registered.
use xpcie.Base.{
  ℕ, ◌≡◌, ap, ◌∙◌, refl, Bool, true, false, ◌&&◌, some, List, [], ◌∷◌, ◌++◌, ◌==◌, if◌then◌else◌,
  arith,
}
use xpcie.Init.{
  Name, user, h2c, c2h, Registration, driver, chrdev, device_class, device, Answers, Majors,
  init_class, init_c2h, init_h2c, xpcie_init, xpcie_exit,
}

abbrev same_name : Name → Name → Bool
same_name user user = true
same_name h2c h2c = true
same_name c2h c2h = true
same_name n m = false

-- The minor number and the name first: they are different for different devices.
unfoldable pub same : Registration → Registration → Bool
same driver driver = true
same (chrdev a n) (chrdev b m) = same_name n m && (a == b)
same device_class device_class = true
same (device a i) (device b j) = (i == j) && (a == b)
same r s = false

-- What is registered without the first that is the same.
unfoldable pub take_back : Registration → List Registration → List Registration
take_back r [] = []
take_back r (s ∷ registered) =
    let rest = take_back r registered in if same r s then registered else s ∷ rest

unfoldable pub take_all_back : List Registration → List Registration → List Registration
take_all_back [] registered = registered
take_all_back (r ∷ rs) registered = take_all_back rs (take_back r registered)

-- The registrations of an init that succeeds.
abbrev pub all_registered : (u h c : ℕ) → List Registration
all_registered u h c =
    driver
    ∷ chrdev u user
    ∷ chrdev h h2c
    ∷ chrdev c c2h
    ∷ device_class
    ∷ device u 1
    ∷ device h 2
    ∷ device c 3
    ∷ []

eq_refl : (n : ℕ) → (n == n) ≡ true
eq_refl n = ground arith

-- Of them the exit takes each one back, and leaves what else is registered.
all_taken_back :
    (u h c : ℕ) (others : List Registration)
    → take_all_back
        (xpcie_exit (record { major_user = u; major_h2c = h; major_c2h = c }))
        (all_registered u h c ++ others)
      ≡ others
unfolding take_all_back take_back same xpcie_exit
all_taken_back u h c others = rw (eq_refl u, eq_refl h, eq_refl c) refl

abbrev majors_of : (u h c : ℕ) → Majors
majors_of u h c = record { major_user = u; major_h2c = h; major_c2h = c }

abbrev pub before_class : (u h c : ℕ) → List Registration
before_class u h c = driver ∷ chrdev u user ∷ chrdev h h2c ∷ chrdev c c2h ∷ []

module _ (a : Answers) (u h c : ℕ) (driver_ok : a.pci_register_driver ≡ 0)
    (user_ok : a.register_chrdev user ≡ some u) (h2c_ok : a.register_chrdev h2c ≡ some h)
    (c2h_ok : a.register_chrdev c2h ≡ some c) where
  xpcie_init-class : xpcie_init a ≡ init_class a (majors_of u h c) (before_class u h c)
  unfolding xpcie_init init_h2c init_c2h
  xpcie_init-class =
      let ok : (a.pci_register_driver == 0) ≡ true = ground arith in
      rw (ok, user_ok, xpcie_init, h2c_ok, init_h2c, c2h_ok, init_c2h) refl

  class_lem :
      (created : Bool)
      → a.class_create ≡ created
      → let out = init_class a (majors_of u h c) (before_class u h c) in
        (out.success ≡ created)
        × (out.majors ≡ majors_of u h c)
        × (out.registered ≡ (if created then all_registered u h c else before_class u h c))
  unfolding init_class
  class_lem true e = (rw e refl, rw e refl, rw e refl)
  class_lem false e = (rw e refl, rw e refl, rw e refl)

  -- If the kernel accepts the driver and the three character devices, `xpcie_init` succeeds if it
  -- creates the class too, and then `xpcie_exit` with the major numbers that were stored takes back
  -- everything that was registered and leaves what others registered before; else it fails and leaves
  -- the driver and the three character devices registered.
  pub xpcie_init_lem :
      (others : List Registration)
      → let out = xpcie_init a in
        (out.success ≡ a.class_create)
        × (out.registered ≡ (if a.class_create then all_registered u h c else before_class u h c))
        × (take_all_back (xpcie_exit out.majors) (all_registered u h c ++ others) ≡ others)
  xpcie_init_lem others = rw xpcie_init-class (
      let (success, majors, registered) = class_lem a.class_create refl in
      (
        success,
        registered,
        ap (λ m. take_all_back (xpcie_exit m) (all_registered u h c ++ others)) majors
            ∙ all_taken_back u h c others,
      ))
