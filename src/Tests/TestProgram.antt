-- ===== src/Tests/TestProgram.antt =====
-- The test program without its log configuration, with memory at 0x6000 and without.
use xpcie.Base.{ℕ, ◌<◌, ◌≡◌, ap, refl, false, arith, none, some, [], ◌∷◌}
use xpcie.TestProgram.{
  Library, posix_memalign, free, log_error, configure, console_appender, debug_priority, log_debug,
  push_context, open_file, close_file, no_memory, log_config, console_pattern, log_ok, main_context,
  device_name, main, init_logger, test_h2c, test_xpcie_user, memptr_after,
}

abbrev library : Library
library = record {
  opens = λ path. some 3;
  allocates = λ alignment size. some 0x6000;
  allocates-some = λ alignment size pointer h. omega (arith, ap memptr_after h);
  configures = λ path. false;
}

run : main library 7 ≡ (
  7,
  configure log_config
      ∷ console_appender console_pattern
      ∷ debug_priority
      ∷ log_debug log_ok
      ∷ push_context main_context
      ∷ posix_memalign 4096 128
      ∷ free 0x6000
      ∷ [],
)
unfolding main init_logger test_h2c
run = refl

nothing_allocated : (pointer : ℕ) → none ≡ some pointer → 0 < pointer
nothing_allocated pointer h = cc

abbrev without_memory : Library
without_memory = record library {
  allocates = λ alignment size. none;
  allocates-some = λ alignment size. nothing_allocated;
}

out_of_memory : test_h2c without_memory ≡ posix_memalign 4096 128 ∷ log_error no_memory ∷ []
unfolding test_h2c
out_of_memory = refl

user_file : test_xpcie_user library ≡ (false, open_file device_name ∷ close_file 3 ∷ [])
unfolding test_xpcie_user
user_file = refl
