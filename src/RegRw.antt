-- ===== src/RegRw.antt =====
-- `main` of app/reg_rw.c, and `testReg` of app/test_xpcie.cpp, which has the same body: one access
-- to the registers behind a device file, through a mapping. A text is the list of its characters as
-- ASCII codes. The registers are the bytes of the mapping; what else the device does on an access
-- is not modelled.
pub mod Bytes
pub mod Access
pub mod Stored
pub mod Bar
pub mod Device
use xpcie.Base.{
  ℕ, zero, suc, ◌+◌, ◌*◌, ◌/◌, ◌%◌, ◌^◌, ◌≡◌, Bool, true, false, Option, none, some, List, [], ◌∷◌,
  length, get_or, ltb, leb, ◌==◌, if◌then◌else◌, update, Run, done, oops, ◌>>=◌, ◌>>◌,
}
use xpcie.Platform.{u32}

-- The machine and the C library: the byte order, `strtoul` with base 0, `tolower`, the two byte
-- swaps of byteswap.h, and whether `open`, `mmap` and `munmap` succeed.
pub record Host : Type 0 where
  pub big_endian : Bool
  pub strtoul : List ℕ → ℕ
  pub tolower : ℕ → ℕ
  pub bswap_16 : ℕ → ℕ
  pub bswap_32 : ℕ → ℕ
  pub bswap_16_lem : (x : ℕ) → bswap_16 x ≡ x % 2 ^ 8 * 2 ^ 8 + x / 2 ^ 8 % 2 ^ 8
  pub bswap_32_lem :
      (x : ℕ)
      → bswap_32 x
        ≡ x % 2 ^ 8 * 2 ^ 24
          + x / 2 ^ 8 % 2 ^ 8 * 2 ^ 16
          + x / 2 ^ 16 % 2 ^ 8 * 2 ^ 8
          + x / 2 ^ 24 % 2 ^ 8
  pub open_succeeds : Bool
  pub mmap_succeeds : Bool
  pub munmap_succeeds : Bool

-- `access_width`, behind the tests that make any other letter a `w`
pub data Width : Type 0 where
  byte half word : Width

abbrev pub size_of : Width → ℕ
size_of byte = 1
size_of half = 2
size_of word = 4

unfoldable pub access_width : ℕ → Width
access_width c = if c == 0x62 then byte else (if c == 0x68 then half else word)

pub data Call : Type 0 where
  open_device : Call
  mmap munmap : (size : ℕ) → Call
  close : Call

-- What a run leaves: the value that `main` returns or `exit` is given, as 32 bits, the value that it
-- prints as read, the calls, and the registers.
pub record Ended : Type 0 where
  pub code : ℕ
  pub shown : Option ℕ
  pub calls : List Call
  pub memory : ℕ → ℕ

-- Bytes stored from an address on.
abbrev pub put : ℕ → List ℕ → (ℕ → ℕ) → ℕ → ℕ
put a [] memory = memory
put a (b ∷ bytes) memory = update (put (suc a) bytes memory) a b

-- The bytes of a `uint8_t`, `uint16_t` or `uint32_t` in memory, for the byte order of the host.
unfoldable pub host_bytes : (big : Bool) → Width → ℕ → List ℕ
host_bytes big byte v = v % 2 ^ 8 ∷ []
host_bytes true half v = v / 2 ^ 8 % 2 ^ 8 ∷ v % 2 ^ 8 ∷ []
host_bytes false half v = v % 2 ^ 8 ∷ v / 2 ^ 8 % 2 ^ 8 ∷ []
host_bytes true word v =
    v / 2 ^ 24 % 2 ^ 8 ∷ v / 2 ^ 16 % 2 ^ 8 ∷ v / 2 ^ 8 % 2 ^ 8 ∷ v % 2 ^ 8 ∷ []
host_bytes false word v =
    v % 2 ^ 8 ∷ v / 2 ^ 8 % 2 ^ 8 ∷ v / 2 ^ 16 % 2 ^ 8 ∷ v / 2 ^ 24 % 2 ^ 8 ∷ []

-- `*((uint8_t *) a)`, `*((uint16_t *) a)` and `*((uint32_t *) a)`
unfoldable pub load : (big : Bool) → Width → (memory : ℕ → ℕ) → ℕ → ℕ
load big byte m a = m a
load true half m a = m a * 2 ^ 8 + m (a + 1)
load false half m a = m a + m (a + 1) * 2 ^ 8
load true word m a = m a * 2 ^ 24 + m (a + 1) * 2 ^ 16 + m (a + 2) * 2 ^ 8 + m (a + 3)
load false word m a = m a + m (a + 1) * 2 ^ 8 + m (a + 2) * 2 ^ 16 + m (a + 3) * 2 ^ 24

-- `exit(1)`
abbrev pub stop : (memory : ℕ → ℕ) → List Call → Ended
stop memory calls = record { code = 1; shown = none; calls = calls; memory = memory }

module _ (h : Host) where
  open h use {
    big_endian, strtoul, tolower, bswap_16, bswap_32, open_succeeds, mmap_succeeds, munmap_succeeds,
  }

  -- No swap for a byte; `ltohs` and `htols`, `ltohl` and `htoll`.
  unfoldable pub ltoh : Width → ℕ → ℕ
  ltoh byte x = x
  ltoh half x = if big_endian then bswap_16 x else x
  ltoh word x = if big_endian then bswap_32 x else x

  module _ (map_size : ℕ) where
    -- `munmap`, `close` and `return 0`, at the end.
    unfoldable pub unmap : (shown : Option ℕ) → (memory : ℕ → ℕ) → Ended
    unmap shown memory =
        if munmap_succeeds
        then record {
          code = 0;
          shown = shown;
          calls = open_device ∷ mmap map_size ∷ munmap map_size ∷ close ∷ [];
          memory = memory;
        }
        else record {
          code = 1;
          shown = shown;
          calls = open_device ∷ mmap map_size ∷ munmap map_size ∷ [];
          memory = memory;
        }

    -- `if (argc <= 4)`: the read. In the case of a word `main` returns the value at once.
    unfoldable pub read_access : Width → (target : ℕ) → (memory : ℕ → ℕ) → Ended
    read_access word target memory =
        let read_result = ltoh word (load big_endian word memory target) in
        record {
          code = read_result;
          shown = some read_result;
          calls = open_device ∷ mmap map_size ∷ [];
          memory = memory;
        }
    read_access w target memory = unmap (some (ltoh w (load big_endian w memory target))) memory

    -- `if (argc >= 5)`: the write.
    unfoldable pub write_access : Width → (target writeval : ℕ) → (memory : ℕ → ℕ) → Ended
    write_access w target writeval memory =
        unmap none (put target (host_bytes big_endian w (ltoh w writeval)) memory)

    -- `main`, with the arguments after `argv[0]` being a device, an address, a type and a value. An
    -- access that is not within the mapping is an `oops`; an address counts from the begin of it.
    unfoldable pub access_main : (argv : List (List ℕ)) → (memory : ℕ → ℕ) → Run Ended
    access_main argv memory =
        let argc = length argv in
        let target = strtoul (get_or argv 2 []) in
        let letter = if leb 4 argc then tolower (get_or (get_or argv 3 []) 0 0) else 0x77 in
        let w = access_width letter in
        if ltb argc 3
        then done (stop memory [])
        else (if open_succeeds
            then (if mmap_succeeds
                then (if leb (target + size_of w) map_size
                    then (if leb argc 4
                        then done (read_access w target memory)
                        else done (write_access w target (u32 (strtoul (get_or argv 4 []))) memory))
                    else oops)
                else done (stop memory (open_device ∷ mmap map_size ∷ [])))
            else done (stop memory (open_device ∷ [])))

-- `main` of app/reg_rw.c
abbrev pub reg_rw : Host → List (List ℕ) → (ℕ → ℕ) → Run Ended
reg_rw h = access_main h (512 * 1024)

-- `testReg` of app/test_xpcie.cpp
abbrev pub test_reg : Host → List (List ℕ) → (ℕ → ℕ) → Run Ended
test_reg h = access_main h (64 * 1024)
