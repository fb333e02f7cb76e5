-- ===== src/TestProgram.antt =====
-- `main` of app/test_xpcie.cpp, and the functions beside `testReg`: what each calls of the C
-- library and of log4cpp, in order. A text is the list of its characters as ASCII codes.
use xpcie.Base.{
  ℕ, ◌<◌, ◌≡◌, refl, Bool, true, false, Option, none, some, List, [], ◌∷◌, ◌++◌, ◌==◌,
  if◌then◌else◌, arith,
}
use xpcie.LogStream.{Text}

pub data Call : Type 0 where
  open_file : (path : Text) → Call
  close_file : (fd : ℕ) → Call
  posix_memalign : (alignment size : ℕ) → Call
  free : (pointer : ℕ) → Call
  log_error : Text → Call
  configure : (path : Text) → Call
  console_appender : (pattern : Text) → Call
  debug_priority : Call
  log_debug : Text → Call
  push_context : Text → Call

-- What the library answers: the descriptor of a file that can be opened, the pointer to memory,
-- which is not NULL, if there is any, and whether the log can be configured. A `posix_memalign`
-- that fails leaves the pointer as it was.
pub record Library : Type 0 where
  pub opens : (path : Text) → Option ℕ
  pub allocates : (alignment size : ℕ) → Option ℕ
  pub allocates-some :
      (alignment size pointer : ℕ) → allocates alignment size ≡ some pointer → 0 < pointer
  pub configures : (path : Text) → Bool

-- "/dev/xpcie_user", "open /dev/xpcie_user failed", "posix_memalign", "./log4cpp.accel.conf", "[%x]
-- %m%n", "log4cpp ok" and "main "
abbrev pub device_name : Text
device_name =
    0x2f ∷ 0x64 ∷ 0x65 ∷ 0x76 ∷ 0x2f ∷ 0x78 ∷ 0x70 ∷ 0x63 ∷ 0x69 ∷ 0x65 ∷ 0x5f ∷ 0x75 ∷ 0x73 ∷ 0x65
    ∷ 0x72 ∷ []

abbrev pub open_failed : Text
open_failed =
    0x6f ∷ 0x70 ∷ 0x65 ∷ 0x6e ∷ 0x20 ∷ 0x2f ∷ 0x64 ∷ 0x65 ∷ 0x76 ∷ 0x2f ∷ 0x78 ∷ 0x70 ∷ 0x63 ∷ 0x69
    ∷ 0x65 ∷ 0x5f ∷ 0x75 ∷ 0x73 ∷ 0x65 ∷ 0x72 ∷ 0x20 ∷ 0x66 ∷ 0x61 ∷ 0x69 ∷ 0x6c ∷ 0x65 ∷ 0x64 ∷ []

abbrev pub no_memory : Text
no_memory =
    0x70 ∷ 0x6f ∷ 0x73 ∷ 0x69 ∷ 0x78 ∷ 0x5f ∷ 0x6d ∷ 0x65 ∷ 0x6d ∷ 0x61 ∷ 0x6c ∷ 0x69 ∷ 0x67 ∷ 0x6e
    ∷ []

abbrev pub log_config : Text
log_config =
    0x2e ∷ 0x2f ∷ 0x6c ∷ 0x6f ∷ 0x67 ∷ 0x34 ∷ 0x63 ∷ 0x70 ∷ 0x70 ∷ 0x2e ∷ 0x61 ∷ 0x63 ∷ 0x63 ∷ 0x65
    ∷ 0x6c ∷ 0x2e ∷ 0x63 ∷ 0x6f ∷ 0x6e ∷ 0x66 ∷ []

abbrev pub console_pattern : Text
console_pattern = 0x5b ∷ 0x25 ∷ 0x78 ∷ 0x5d ∷ 0x20 ∷ 0x25 ∷ 0x6d ∷ 0x25 ∷ 0x6e ∷ []

abbrev pub log_ok : Text
log_ok = 0x6c ∷ 0x6f ∷ 0x67 ∷ 0x34 ∷ 0x63 ∷ 0x70 ∷ 0x70 ∷ 0x20 ∷ 0x6f ∷ 0x6b ∷ []

abbrev pub main_context : Text
main_context = 0x6d ∷ 0x61 ∷ 0x69 ∷ 0x6e ∷ 0x20 ∷ 0x20 ∷ 0x20 ∷ 0x20 ∷ []

-- `memptr` after the `posix_memalign`, with 0 for NULL
abbrev pub memptr_after : Option ℕ → ℕ
memptr_after none = 0
memptr_after (some pointer) = pointer

module _ (l : Library) where
  open l use {opens, allocates, configures}

  -- `initLogger`: when the configuration is refused, the log goes to the console.
  unfoldable pub init_logger : List Call
  init_logger =
      configure log_config
      ∷ (if configures log_config
          then []
          else console_appender console_pattern ∷ debug_priority ∷ log_debug log_ok ∷ [])

  -- `testXpcieUser`, which returns -1 when the device cannot be opened, and else ends without a
  -- `return`: whether it returns, and the calls.
  unfoldable pub test_xpcie_user : Bool × List Call
  test_xpcie_user = elim (opens device_name) [
    | none ↦ (true, open_file device_name ∷ log_error open_failed ∷ [])
    | some fd ↦ (false, open_file device_name ∷ close_file fd ∷ [])
  ]

  -- `test_h2c`
  unfoldable pub test_h2c : List Call
  test_h2c =
      let memptr = memptr_after (allocates 4096 128) in
      posix_memalign 4096 128
      ∷ (if memptr == 0
          then log_error no_memory ∷ []
          else (if memptr == 0 then [] else free memptr ∷ []))

  -- `main`, which returns the `int ret` that it never sets: what it returns, and the calls.
  unfoldable pub main : (ret : ℕ) → ℕ × List Call
  main ret = (ret, init_logger ++ push_context main_context ∷ test_h2c)

  -- The memory that `test_h2c` gets is what it frees.
  test_h2c-frees :
      (pointer : ℕ)
      → allocates 4096 128 ≡ some pointer
      → test_h2c ≡ posix_memalign 4096 128 ∷ free pointer ∷ []
  unfolding test_h2c
  test_h2c-frees pointer h =
      let there : (pointer == 0) ≡ false = ground (arith, l.allocates-some 4096 128 pointer h) in
      rw (h, there) refl
