-- ===== src/Desc.antt =====
-- Descriptors of the XDMA engine: `struct xdma_desc` of driver/xpcie.h, and the functions of
-- driver/xpcie.c that fill one in. A field is the stored (little-endian) word.
pub mod Address
pub mod Fields
pub mod Control
use xpcie.Base.{
  ℕ, ◌+◌, ◌-◌, ◌*◌, ◌/◌, ◌^◌, Bool, true, false, not, Option, none, some, bit_and, bit_or, ltb,
  ◌==◌, if◌then◌else◌, Run, done, ◌>>◌, bug_on,
}
use xpcie.Platform.{Platform, u32, pci_dma_h, pci_dma_l}

-- `struct xdma_desc`
pub record Desc : Type 0 where
  pub control : ℕ
  pub bytes : ℕ
  pub src_addr_lo : ℕ
  pub src_addr_hi : ℕ
  pub dst_addr_lo : ℕ
  pub dst_addr_hi : ℕ
  pub next_lo : ℕ
  pub next_hi : ℕ

-- `sizeof(struct xdma_desc)`: eight words, packed
abbrev pub desc_size : ℕ
desc_size = 32

abbrev pub desc_magic : ℕ
desc_magic = 0xad4b_0000

abbrev pub max_extra_adj : ℕ
max_extra_adj = 15

-- `~(LS_BYTE_MASK)`, an `unsigned long`
abbrev pub not_ls_byte_mask : ℕ
not_ls_byte_mask = 0xffff_ffff_ffff_ff00

-- `XDMA_DESC_STOPPED`, `XDMA_DESC_COMPLETED` and `XDMA_DESC_EOP`
abbrev pub desc_stopped : ℕ
desc_stopped = 1

abbrev pub desc_completed : ℕ
desc_completed = 2

abbrev pub desc_eop : ℕ
desc_eop = 16

-- The count that `xdma_desc_adjacent` and `xdma_desc_alloc` put into a descriptor: one less
-- than the descriptors that follow, and at most MAX_EXTRA_ADJ.
unfoldable pub clamp_adj : ℕ → ℕ
clamp_adj adjacent =
    let extra_adj = adjacent - 1 in if ltb max_extra_adj extra_adj then max_extra_adj else extra_adj

module _ (p : Platform) where
  open p use {cpu_to_le32, le32_to_cpu}

  -- `xdma_desc_set`; `len` is the bit pattern of the `int`
  unfoldable pub xdma_desc_set : Desc → ℕ → ℕ → ℕ → Bool → Desc
  xdma_desc_set desc rc_bus_addr ep_addr len dir_to_dev =
      if dir_to_dev
      then record desc {
        bytes = cpu_to_le32 (u32 len);
        src_addr_lo = cpu_to_le32 (pci_dma_l rc_bus_addr);
        src_addr_hi = cpu_to_le32 (pci_dma_h rc_bus_addr);
        dst_addr_lo = cpu_to_le32 (pci_dma_l ep_addr);
        dst_addr_hi = cpu_to_le32 (pci_dma_h ep_addr);
      }
      else record desc {
        bytes = cpu_to_le32 (u32 len);
        src_addr_lo = cpu_to_le32 (pci_dma_l ep_addr);
        src_addr_hi = cpu_to_le32 (pci_dma_h ep_addr);
        dst_addr_lo = cpu_to_le32 (pci_dma_l rc_bus_addr);
        dst_addr_hi = cpu_to_le32 (pci_dma_h rc_bus_addr);
      }

  -- `xdma_desc_link`: `second` is the bus address of the second descriptor, `none` for a NULL
  -- one. `WARN_ON` only logs.
  unfoldable pub xdma_desc_link : Desc → Option ℕ → Desc
  xdma_desc_link first second =
      let control = bit_and (le32_to_cpu first.control) 0x0000_f0ff in
      elim second [
        | some second_bus ↦ record first {
          control = cpu_to_le32 (bit_or control desc_magic);
          next_lo = cpu_to_le32 (pci_dma_l second_bus);
          next_hi = cpu_to_le32 (pci_dma_h second_bus);
        }
        | none ↦ record first {
          control = cpu_to_le32 (bit_or control desc_magic);
          next_lo = 0;
          next_hi = 0;
        }
      ]

  -- `xdma_desc_control`
  unfoldable pub xdma_desc_control : Desc → ℕ → Run Desc
  xdma_desc_control first control_field = do
    let control = u32 (bit_and (le32_to_cpu first.control) not_ls_byte_mask)
    bug_on (not (bit_and control_field not_ls_byte_mask == 0))
    done (record first { control = cpu_to_le32 (bit_or control control_field) })

  -- `max_adj_4k` of `xdma_desc_adjacent`, in `u32` arithmetic
  unfoldable pub max_adj_4k : Desc → ℕ
  max_adj_4k desc =
      u32 ((0x1000 - bit_and (le32_to_cpu desc.next_lo) 0xfff) / desc_size + (2 ^ 32 - 1))

  -- `extra_adj` of `xdma_desc_adjacent`. It is never negative, so the last test of the source,
  -- `extra_adj < 0`, fails. `next_adjacent` is not negative at the one call.
  unfoldable pub extra_adj : Desc → ℕ → ℕ
  unfolding clamp_adj max_adj_4k
  extra_adj desc next_adjacent =
      if ltb 0 next_adjacent
      then (let extra = clamp_adj next_adjacent in
          let max_adj = max_adj_4k desc in if ltb max_adj extra then max_adj else extra)
      else 0

  -- `xdma_desc_adjacent`
  unfoldable pub xdma_desc_adjacent : Desc → ℕ → Desc
  xdma_desc_adjacent desc next_adjacent =
      let control = bit_and (le32_to_cpu desc.control) 0x0000_f0ff in
      let extra = extra_adj desc next_adjacent in
      record desc { control = cpu_to_le32 (bit_or control (bit_or desc_magic (extra * 2 ^ 8))) }
