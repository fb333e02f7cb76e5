-- ===== src/Mmap.antt =====
-- Mapping a BAR of the device into user space: `xpcie_user_mmap` and `xpcie_h2c_mmap` of
-- driver/xpcie.c, which differ in the number of the BAR alone. Where a BAR starts and ends
-- (linux/pci.h) and whether `io_remap_pfn_range` (linux/mm.h) fails are parameters; the bits that
-- the functions set in the protection and in the flags of the area are not modelled.
use native.Mathlib.Nat.{add-mul-div_right}
use xpcie.Base.{
  ℕ, ◌+◌, ◌-◌, ◌*◌, ◌/◌, ◌^◌, ◌≤◌, ◌<◌, ◌≡◌, ap, ◌∙◌, sym, refl, Bool, Option, none, some, ltb,
  if◌then◌else◌, arith,
}
use xpcie.Platform.{Platform, u64, sub64, page_size_pos}

-- The fields of `struct vm_area_struct` that are read.
pub record Vma : Type 0 where
  pub vm_start : ℕ
  pub vm_end : ℕ
  pub vm_pgoff : ℕ

pub data MmapRc : Type 0 where
  success einval eagain : MmapRc

-- The arguments `addr`, `pfn` and `size` of `io_remap_pfn_range`.
pub record Remap : Type 0 where
  pub addr : ℕ
  pub pfn : ℕ
  pub size : ℕ

module _ (p : Platform) (pci_resource_start pci_resource_end : ℕ → ℕ)
    (io_remap_pfn_range : Remap → Bool) where
  open p use {page_shift, page_size, page_size_lem}

  -- The call, and what the function returns after it.
  unfoldable pub remapped : Remap → MmapRc × Option Remap
  remapped call = (if io_remap_pfn_range call then eagain else success, some call)

  -- The body of the two functions: the result, and the call of `io_remap_pfn_range`, if it is made.
  unfoldable pub bar_mmap : (bar : ℕ) → Vma → MmapRc × Option Remap
  bar_mmap bar vma =
      let off = u64 (vma.vm_pgoff * 2 ^ page_shift) in
      let phys = u64 (pci_resource_start bar + off) in
      let vsize = sub64 vma.vm_end vma.vm_start in
      let psize = sub64 (u64 (sub64 (pci_resource_end bar) (pci_resource_start bar) + 1)) off in
      if ltb psize vsize
      then (einval, none)
      else remapped (record { addr = vma.vm_start; pfn = phys / 2 ^ page_shift; size = vsize })

  unfoldable pub xpcie_user_mmap : Vma → MmapRc × Option Remap
  xpcie_user_mmap vma = bar_mmap 0 vma

  unfoldable pub xpcie_h2c_mmap : Vma → MmapRc × Option Remap
  xpcie_h2c_mmap vma = bar_mmap 1 vma

  -- The page of the BAR at the page offset of the area, and the pages behind it, up to its size.
  abbrev pub bar_pages : (bar : ℕ) → Vma → Remap
  bar_pages bar vma = record {
    addr = vma.vm_start;
    pfn = pci_resource_start bar / page_size + vma.vm_pgoff;
    size = vma.vm_end - vma.vm_start;
  }

  module _ (bar : ℕ) (vma : Vma) (area : (vma.vm_start ≤ vma.vm_end) × (vma.vm_end < 2 ^ 64))
      (resource : (pci_resource_start bar ≤ pci_resource_end bar)
        × (pci_resource_end bar + vma.vm_pgoff * page_size + 1 < 2 ^ 64)) where
    abbrev bar_len : ℕ
    bar_len = pci_resource_end bar + 1 - pci_resource_start bar

    abbrev offset : ℕ
    offset = vma.vm_pgoff * page_size

    offset-u64 : u64 (vma.vm_pgoff * 2 ^ page_shift) ≡ offset
    offset-u64 =
        let e : vma.vm_pgoff * 2 ^ page_shift ≡ offset = rw (← page_size_lem) refl in
        omega (arith, e, resource.1)

    -- The two ways on from the test of the sizes.
    bar_mmap-test :
        (psize : ℕ) (refused : Bool)
        → sub64 (u64 (sub64 (pci_resource_end bar) (pci_resource_start bar) + 1)) offset ≡ psize
        → ltb psize (vma.vm_end - vma.vm_start) ≡ refused
        → bar_mmap bar vma ≡ (if refused then (einval, none) else remapped (bar_pages bar vma))
    unfolding bar_mmap
    bar_mmap-test psize refused left test =
        let size : sub64 vma.vm_end vma.vm_start ≡ vma.vm_end - vma.vm_start =
          omega (arith, area.0, area.1) in
        let phys : u64 (pci_resource_start bar + offset) ≡ pci_resource_start bar + offset =
          omega (arith, resource.0, resource.1) in
        let pages : (pci_resource_start bar + offset) / 2 ^ page_shift
            ≡ pci_resource_start bar / page_size + vma.vm_pgoff =
          ap (λ (t : ℕ). (pci_resource_start bar + offset) / t) (sym page_size_lem)
          ∙ add-mul-div_right (pci_resource_start bar) vma.vm_pgoff (page_size_pos p) in
        rw (offset-u64, phys, pages, size, left, test) refl

    -- An area of the address space whose page offset is within the BAR is refused with -EINVAL if it
    -- is larger than the rest of the BAR from there, with no call of `io_remap_pfn_range`; else that
    -- is called with the pages of the BAR from that offset on, all within the BAR, and only its
    -- failure is an error.
    pub bar_mmap-in_range :
        offset ≤ bar_len
        → bar_mmap bar vma ≡ (
            if ltb bar_len (offset + (vma.vm_end - vma.vm_start))
            then (einval, none)
            else remapped (bar_pages bar vma))
    bar_mmap-in_range h =
        bar_mmap-test (bar_len - offset) _ (omega (arith, resource.0, resource.1)) (ground arith)
