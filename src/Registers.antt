-- ===== src/Registers.antt =====
-- The registers of the card in BAR 1, as driver/xpcie.h lays them out: packed structs of 32-bit
-- words, one struct at each multiple of TARGET_SPACING that `map_bars` points to.
pub mod Address
pub mod Layouts
use Prim.Native.String.{String}
use text.Mathlib.Text as Text
use xpcie.Base.{ℕ, ◌+◌, ◌*◌, List, [], ◌∷◌, if◌then◌else◌}
use xpcie.Kernel.{Register}
use xpcie.Bars.{RegisterBases}

-- The fields of a packed struct of `u32`, each with its number of words.
abbrev pub Layout : Type 0
Layout = List (String × ℕ)

-- `struct engine_regs`
abbrev pub engine_regs : Layout
engine_regs =
    ("identifier", 1)
    ∷ ("control", 1)
    ∷ ("control_w1s", 1)
    ∷ ("control_w1c", 1)
    ∷ ("reserved_1", 12)
    ∷ ("status", 1)
    ∷ ("status_rc", 1)
    ∷ ("completed_desc_count", 1)
    ∷ ("alignments", 1)
    ∷ ("reserved_2", 14)
    ∷ ("poll_mode_wb_lo", 1)
    ∷ ("poll_mode_wb_hi", 1)
    ∷ ("interrupt_enable_mask", 1)
    ∷ ("interrupt_enable_mask_w1s", 1)
    ∷ ("interrupt_enable_mask_w1c", 1)
    ∷ ("reserved_3", 9)
    ∷ ("perf_ctrl", 1)
    ∷ ("perf_cyc_lo", 1)
    ∷ ("perf_cyc_hi", 1)
    ∷ ("perf_dat_lo", 1)
    ∷ ("perf_dat_hi", 1)
    ∷ ("perf_pnd_lo", 1)
    ∷ ("perf_pnd_hi", 1)
    ∷ []

-- `struct engine_sgdma_regs`
abbrev pub engine_sgdma_regs : Layout
engine_sgdma_regs =
    ("identifier", 1)
    ∷ ("reserved_1", 31)
    ∷ ("first_desc_lo", 1)
    ∷ ("first_desc_hi", 1)
    ∷ ("first_desc_adjacent", 1)
    ∷ ("credits", 1)
    ∷ []

-- `sizeof`, in bytes.
unfoldable pub sizeof : Layout → ℕ
sizeof [] = 0
sizeof ((name, words) ∷ fields) = 4 * words + sizeof fields

-- `offsetof`, in bytes; the size of the struct, if it has no such field.
unfoldable pub offset_of : String → Layout → ℕ
offset_of name [] = 0
offset_of name ((field, words) ∷ fields) =
    if Text.◌==◌ field name then 0 else 4 * words + offset_of name fields

-- The address that the driver passes to `write_register` or `read_register` for a register.
unfoldable pub register_address : RegisterBases → Register → ℕ
register_address bases Register.control = bases.engine_h2c + offset_of "control" engine_regs
register_address bases Register.status = bases.engine_h2c + offset_of "status" engine_regs
register_address bases Register.first_desc_lo =
    bases.engine_sgdma + offset_of "first_desc_lo" engine_sgdma_regs
register_address bases Register.first_desc_hi =
    bases.engine_sgdma + offset_of "first_desc_hi" engine_sgdma_regs
register_address bases Register.first_desc_adjacent =
    bases.engine_sgdma + offset_of "first_desc_adjacent" engine_sgdma_regs
