-- ===== src/Tests/Mmap.antt =====
-- A BAR 0 of 64 KiB at 0xf000_0000, 16 pages, mapped from its page 2 on and from page 32 on.
use xpcie.Base.{ℕ, ◌≡◌, Bool, false, some, arith}
use xpcie.Mmap.{Vma, success, Remap, bar_mmap, remapped, bar_mmap-in_range}
use xpcie.Tests.World.{machine}

abbrev bar_start : ℕ → ℕ
bar_start bar = 0xf000_0000

abbrev bar_end : ℕ → ℕ
bar_end bar = 0xf000_ffff

abbrev accepts : Remap → Bool
accepts call = false

abbrev area_at : (page : ℕ) → Vma
area_at page = record { vm_start = 0x7000_0000; vm_end = 0x7000_3000; vm_pgoff = page }

bar_mmap-in_range_example :
    bar_mmap machine bar_start bar_end accepts 0 (area_at 2)
    ≡ (success, some (record { addr = 0x7000_0000; pfn = 0xf0002; size = 0x3000 }))
unfolding remapped
bar_mmap-in_range_example =
    bar_mmap-in_range machine bar_start bar_end accepts 0 (area_at 2) (omega arith, omega arith)
      (omega arith, omega arith) (omega arith)
