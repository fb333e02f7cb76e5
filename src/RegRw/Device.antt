-- ===== src/RegRw/Device.antt =====
-- A run of app/reg_rw.c, or of testReg of app/test_xpcie.cpp, on a device of driver/xpcie.c: the
-- mmap of the program is the one of the driver, and the registers are the bytes at the physical
-- addresses of the BAR.
use xpcie.Base.{
  ℕ, ◌+◌, ◌-◌, ◌*◌, Bool, true, false, ◌&&◌, Option, some, List, ltb, leb, if◌then◌else◌, Run, done,
  ◌>>=◌,
}
use xpcie.Platform.{Platform}
use xpcie.Mmap.{Vma, MmapRc, success, Remap, bar_mmap}
use xpcie.RegRw.{Host, Ended, access_main}

-- The area of `mmap(0, map_size, ..., fd, 0)` at the address that the kernel picks.
abbrev pub area_of : (virt map_size : ℕ) → Vma
area_of virt map_size = record { vm_start = virt; vm_end = virt + map_size; vm_pgoff = 0 }

-- The first address of `size` bytes of physical memory that are mapped: what the program sees there,
-- and the physical memory after what it stored.
abbrev pub seen : (first : ℕ) → (phys : ℕ → ℕ) → ℕ → ℕ
seen first phys j = phys (first + j)

abbrev pub stored_back : (first size : ℕ) → (memory phys : ℕ → ℕ) → ℕ → ℕ
stored_back first size memory phys a =
    if leb first a && ltb a (first + size) then memory (a - first) else phys a

module _ (p : Platform) (h : Host) (map_size : ℕ) where
  open p use {page_size}

  -- The run after the answer of the driver to `mmap`: how it ends, and the physical memory then.
  unfoldable pub mapped_run :
      MmapRc × Option Remap → (argv : List (List ℕ)) → (phys : ℕ → ℕ) → Run (Ended × (ℕ → ℕ))
  mapped_run (success, some r) argv phys = do
    let first = r.pfn * page_size
    ended ← access_main (record h { mmap_succeeds = true }) map_size argv (seen first phys)
    done (ended, stored_back first r.size ended.memory phys)
  mapped_run answer argv phys = do
    ended ← access_main (record h { mmap_succeeds = false }) map_size argv phys
    done (ended, phys)

  -- The device "user" maps BAR 0, and "h2c" BAR 1.
  unfoldable pub device_run :
      (pci_resource_start pci_resource_end : ℕ → ℕ) (io_remap_pfn_range : Remap → Bool)
      (bar virt : ℕ) (argv : List (List ℕ)) (phys : ℕ → ℕ)
      → Run (Ended × (ℕ → ℕ))
  device_run pci_resource_start pci_resource_end io_remap_pfn_range bar virt argv phys =
      mapped_run
        (bar_mmap p pci_resource_start pci_resource_end io_remap_pfn_range bar
          (area_of virt map_size))
        argv phys
