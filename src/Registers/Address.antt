-- ===== src/Registers/Address.antt =====
-- The registers that the driver uses have addresses of their own in BAR 1.
use xpcie.Base.{ℕ, ◌+◌, ◌*◌, ◌%◌, ◌≤◌, ◌≡◌, refl, List, get_or, arith}
use xpcie.Kernel.{Register, control, status, first_desc_lo, first_desc_hi, first_desc_adjacent}
use xpcie.Bars.{register_bases}
use xpcie.Registers.{engine_regs, engine_sgdma_regs, sizeof, offset_of, register_address}

-- Where a register is in its BAR.
abbrev pub register_offset : Register → ℕ
register_offset control = 0x4
register_offset status = 0x40
register_offset first_desc_lo = 0x4080
register_offset first_desc_hi = 0x4084
register_offset first_desc_adjacent = 0x4088

pub register_address-offset :
    (bars : List ℕ) (r : Register)
    → register_address (register_bases bars) r ≡ get_or bars 1 0 + register_offset r
unfolding register_address register_bases offset_of
register_address-offset bars control = omega arith
register_address-offset bars r = omega arith

register_offset-inj : (r s : Register) → register_offset r ≡ register_offset s → r ≡ s
register_offset-inj control control e = refl
register_offset-inj r s e = ground arith

-- From the pointers that `map_bars` sets, each register that the driver uses has an address of its
-- own: a word in one of the two structs, at the alignment of BAR 1, and the two structs fit in the
-- TARGET_SPACING from one to the next.
register_address_lem :
    (bars : List ℕ) (r s : Register)
    → register_address (register_bases bars) r ≡ register_address (register_bases bars) s
    → (r ≡ s)
      × (get_or bars 1 0 ≤ register_address (register_bases bars) r)
      × (register_address (register_bases bars) r + 4
          ≤ get_or bars 1 0 + 4 * 0x1000 + sizeof engine_sgdma_regs)
      × (register_address (register_bases bars) r % 4 ≡ get_or bars 1 0 % 4)
      × (sizeof engine_regs ≤ 0x1000)
      × (sizeof engine_sgdma_regs ≤ 0x1000)
unfolding sizeof
register_address_lem bars r s e = (
  register_offset-inj r s
      (omega (arith, e, register_address-offset bars r, register_address-offset bars s)),
  omega (arith, register_address-offset bars r),
  omega (arith, register_address-offset bars r, offset_bounds r),
  omega (arith, register_address-offset bars r, offset_bounds r),
  omega arith,
  omega arith,
)
  where
    offset_bounds : (r : Register) → (register_offset r ≤ 0x4088) × (register_offset r % 4 ≡ 0)
    offset_bounds control = omega arith
    offset_bounds r = omega arith
