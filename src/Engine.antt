-- ===== src/Engine.antt =====
-- Starting and stopping the H2C engine in driver/xpcie.c: the register accesses of `engine_start`,
-- `engine_stop` and `transfer_start`, in order. The values that are read are only logged.
pub mod Run
pub mod Race
use xpcie.Base.{
  ℕ, ◌-◌, ◌*◌, ◌^◌, ◌≤◌, ◌<◌, ◌≡◌, refl, List, [], ◌∷◌, ◌++◌, bit_or, bit_and, ltb, if◌then◌else◌,
  arith,
}
use xpcie.Platform.{Platform, pci_dma_h, pci_dma_l}
use xpcie.Kernel.{
  Register, status, first_desc_lo, first_desc_hi, first_desc_adjacent, Event, write32, read32,
  delay,
}
use xpcie.Desc.{clamp_adj}

-- The bits of the control register that `engine_start` sets.
abbrev pub ctrl_run_stop : ℕ
ctrl_run_stop = 1

abbrev pub ctrl_ie_read_error : ℕ
ctrl_ie_read_error = 0x1f * 2 ^ 9

abbrev pub ctrl_ie_desc_error : ℕ
ctrl_ie_desc_error = 0x1f * 2 ^ 19

abbrev pub ctrl_ie_desc_align_mismatch : ℕ
ctrl_ie_desc_align_mismatch = 2 ^ 3

abbrev pub ctrl_ie_magic_stopped : ℕ
ctrl_ie_magic_stopped = 2 ^ 4

abbrev pub ctrl_ie_desc_stopped : ℕ
ctrl_ie_desc_stopped = 2

-- The word that `engine_start` writes.
unfoldable pub start_word : ℕ
start_word =
    bit_or
      (bit_or
        (bit_or (bit_or (bit_or ctrl_run_stop ctrl_ie_read_error) ctrl_ie_desc_error)
          ctrl_ie_desc_align_mismatch)
        ctrl_ie_magic_stopped)
      ctrl_ie_desc_stopped

-- `engine_start`
unfoldable pub engine_start : List Event
engine_start = write32 Register.control start_word ∷ read32 status ∷ []

-- `engine_stop`
unfoldable pub engine_stop : List Event
engine_stop = write32 Register.control 0 ∷ read32 status ∷ []

-- `transfer_start`, for a list at bus address `desc_bus` with `desc_adjacent` descriptors.
unfoldable pub transfer_start : Platform → (desc_bus desc_adjacent : ℕ) → List Event
transfer_start p desc_bus desc_adjacent =
    let extra_adj = if ltb 0 desc_adjacent then clamp_adj desc_adjacent else 0 in
    read32 status
      ∷ write32 first_desc_adjacent (p.cpu_to_le32 extra_adj)
      ∷ write32 first_desc_lo (p.cpu_to_le32 (pci_dma_l desc_bus))
      ∷ write32 first_desc_hi (p.cpu_to_le32 (pci_dma_h desc_bus))
      ∷ engine_start
    ++ delay 2000 ∷ read32 status ∷ engine_stop
