-- ===== src/Platform.antt =====
-- What the driver takes from the machine and the kernel headers: the size of a page
-- (asm/page.h) and the byte order of a 32-bit word (asm/byteorder.h), which are parameters with
-- the documented facts about them; and the C arithmetic of driver/xpcie.c on 32 and 64 bits.
use native.Mathlib.Nat.{one-le-pow, pow-le-pow_right}
use xpcie.Base.{ℕ, ◌+◌, ◌-◌, ◌/◌, ◌%◌, ◌^◌, ◌≤◌, ◌<◌, ◌≡◌, bit_and, arith}

-- Pages are at most 64 KiB, and `PAGE_MASK` clears the offset in the page. A word goes through
-- `cpu_to_le32` and back unchanged, and 0 is 0 in either order.
pub record Platform : Type 0 where
  pub page_shift : ℕ
  pub page_shift_le : page_shift ≤ 16
  pub page_size : ℕ
  pub page_size_lem : page_size ≡ 2 ^ page_shift
  pub page_mask : ℕ
  pub page_mask_lem : (x : ℕ) → x < 2 ^ 64 → bit_and x page_mask ≡ x - x % page_size
  pub offset_in_page : ℕ → ℕ
  pub offset_in_page_lem : (x : ℕ) → offset_in_page x ≡ x % page_size
  pub cpu_to_le32 : ℕ → ℕ
  pub le32_to_cpu : ℕ → ℕ
  pub le32_to_cpu-cpu_to_le32 : (x : ℕ) → x < 2 ^ 32 → le32_to_cpu (cpu_to_le32 x) ≡ x
  pub cpu_to_le32-zero : cpu_to_le32 0 ≡ 0

-- the conversions to `u32` (also `unsigned int`) and `u64` (`unsigned long`, `dma_addr_t`)
abbrev pub u32 : ℕ → ℕ
u32 n = n % 2 ^ 32

abbrev pub u64 : ℕ → ℕ
u64 n = n % 2 ^ 64

-- `a - b` in 64 bits
abbrev pub sub64 : ℕ → ℕ → ℕ
sub64 a b = (a + 2 ^ 64 - b) % 2 ^ 64

-- `PCI_DMA_H(addr)`, which shifts twice by 16, and `PCI_DMA_L(addr)`.
unfoldable pub pci_dma_h : ℕ → ℕ
pci_dma_h addr = addr / 2 ^ 16 / 2 ^ 16

unfoldable pub pci_dma_l : ℕ → ℕ
pci_dma_l addr = bit_and addr 0xffff_ffff

module _ (p : Platform) where
  open p use {page_shift, page_size, page_shift_le, page_size_lem}

  pub page_size_pos : 0 < page_size
  page_size_pos = omega (arith, page_size_lem, one-le-pow page_shift 2 (omega arith))

  pub page_size-le : page_size ≤ 2 ^ 16
  page_size-le =
      omega (
        arith,
        page_size_lem,
        pow-le-pow_right {n = 2} (omega arith) {i = page_shift} page_shift_le,
      )
