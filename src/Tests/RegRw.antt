-- ===== src/Tests/RegRw.antt =====
-- A big-endian host that writes 0x12345678, given as a decimal number, to address 8 as a word, and as
-- a half word, with the type in upper case.
use xpcie.Base.{
  ℕ, ◌+◌, ◌-◌, ◌*◌, ◌/◌, ◌%◌, ◌^◌, ◌≤◌, ◌<◌, ◌≡◌, ◌⊎◌, refl, Bool, true, false, ◌&&◌, none, some,
  List, [], ◌∷◌, leb, if◌then◌else◌, done, oops, arith,
}
use xpcie.RegRw.{
  access_main, Host, Call, open_device, mmap, munmap, close, Ended, put, reg_rw, access_width,
}
use xpcie.Tests.World.{machine}
use xpcie.Mmap.{Remap}
use xpcie.RegRw.Bytes.{le_bytes}
use xpcie.RegRw.Device.{device_run}
use xpcie.RegRw.Bar.{device_run-roundtrip, device_run-small}
use xpcie.RegRw.Access.{access_main-roundtrip}

abbrev decimal : (before : ℕ) → List ℕ → ℕ
decimal before [] = before
decimal before (c ∷ text) = decimal (before * 10 + (c - 0x30)) text

abbrev big_host : Host
big_host = record {
  big_endian = true;
  strtoul = decimal 0;
  tolower = λ c. if leb 0x41 c && leb c 0x5a then c + 0x20 else c;
  bswap_16 = λ x. x % 2 ^ 8 * 2 ^ 8 + x / 2 ^ 8 % 2 ^ 8;
  bswap_32 = λ x.
      x % 2 ^ 8 * 2 ^ 24
      + x / 2 ^ 8 % 2 ^ 8 * 2 ^ 16
      + x / 2 ^ 16 % 2 ^ 8 * 2 ^ 8
      + x / 2 ^ 24 % 2 ^ 8;
  bswap_16_lem = λ x. refl;
  bswap_32_lem = λ x. refl;
  open_succeeds = true;
  mmap_succeeds = true;
  munmap_succeeds = true;
}

-- "reg_rw"
abbrev prog : List ℕ
prog = 0x72 ∷ 0x65 ∷ 0x67 ∷ 0x5f ∷ 0x72 ∷ 0x77 ∷ []

-- "/dev/x"
abbrev device : List ℕ
device = 0x2f ∷ 0x64 ∷ 0x65 ∷ 0x76 ∷ 0x2f ∷ 0x78 ∷ []

-- "8"
abbrev eight : List ℕ
eight = 0x38 ∷ []

-- "524285"
abbrev far : List ℕ
far = 0x35 ∷ 0x32 ∷ 0x34 ∷ 0x32 ∷ 0x38 ∷ 0x35 ∷ []

-- "H"
abbrev upper_h : List ℕ
upper_h = 0x48 ∷ []

-- "305419896"
abbrev value : List ℕ
value = 0x33 ∷ 0x30 ∷ 0x35 ∷ 0x34 ∷ 0x31 ∷ 0x39 ∷ 0x38 ∷ 0x39 ∷ 0x36 ∷ []

abbrev zeros : ℕ → ℕ
zeros a = 0

abbrev write_calls : List Call
write_calls = open_device ∷ mmap 0x8_0000 ∷ munmap 0x8_0000 ∷ close ∷ []

access_main-roundtrip_example :
    (written : Ended) × (again : Ended) × (reg_rw big_host
        (prog ∷ device ∷ eight ∷ upper_h ∷ value ∷ [])
        zeros
      ≡ done written)
    × (written.code ≡ 0)
    × (written.calls ≡ write_calls)
    × ((j : ℕ) → (j < 8) ⊎ (10 ≤ j) → written.memory j ≡ 0)
    × (reg_rw big_host (prog ∷ device ∷ eight ∷ upper_h ∷ []) written.memory ≡ done again)
    × (again.shown ≡ some 0x5678)
    × (again.memory ≡ written.memory)
    × (again.code ≡ 0)
    × (again.calls ≡ write_calls)
unfolding access_width
access_main-roundtrip_example =
    access_main-roundtrip big_host 0x8_0000 refl refl prog device eight upper_h refl value [] zeros
      (omega arith) (λ j. omega arith)

-- A word at the last bytes of the mapping of 512 KiB is accessed without a test.
outside : reg_rw big_host (prog ∷ device ∷ far ∷ [] ∷ []) zeros ≡ oops
unfolding access_main access_width
outside = refl

-- BAR 1 of 1 MiB at 0xf000_0000, and one of 64 KiB.
abbrev bar_start : ℕ → ℕ
bar_start bar = 0xf000_0000

abbrev bar_end : ℕ → ℕ
bar_end bar = 0xf00f_ffff

abbrev small_end : ℕ → ℕ
small_end bar = 0xf000_ffff

abbrev accepts : Remap → Bool
accepts call = false

device_run-roundtrip_example :
    let after = put 0xf000_0008 (le_bytes 2 0x1234_5678) zeros in
    (written : Ended) × (again : Ended) × (device_run machine big_host 0x8_0000 bar_start bar_end
        accepts 1 0x7000_0000
        (prog ∷ device ∷ eight ∷ upper_h ∷ value ∷ [])
        zeros
      ≡ done (written, after))
    × (written.code ≡ 0)
    × (device_run machine big_host 0x8_0000 bar_start bar_end accepts 1 0x7000_0000
          (prog ∷ device ∷ eight ∷ upper_h ∷ [])
          after
        ≡ done (again, after))
    × (again.shown ≡ some 0x5678)
unfolding access_width
device_run-roundtrip_example =
    device_run-roundtrip machine big_host 0x8_0000 bar_start bar_end accepts 1 0x7000_0000
      (omega arith) (omega arith, omega arith) refl prog device eight upper_h refl refl refl
      (omega arith) (omega arith) value [] zeros (λ j. omega arith)

device_run-small_example :
    device_run machine big_host 0x8_0000 bar_start small_end accepts 1 0x7000_0000
      (prog ∷ device ∷ eight ∷ upper_h ∷ value ∷ [])
      zeros
    ≡ done (
      record { code = 1; shown = none; calls = open_device ∷ mmap 0x8_0000 ∷ []; memory = zeros },
      zeros,
    )
device_run-small_example =
    device_run-small machine big_host 0x8_0000 bar_start small_end accepts 1 0x7000_0000
      (omega arith) (omega arith, omega arith) refl prog device eight upper_h (value ∷ []) zeros
      (omega arith)
