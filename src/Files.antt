-- ===== src/Files.antt =====
-- The file operations of the three character devices of driver/xpcie.c, by the tables
-- `xpcie_user_fops`, `xpcie_h2c_fops` and `xpcie_c2h_fops`. What the kernel answers where a table has
-- no entry is not modelled. A call that ends in a BUG_ON or an access through NULL does not return.
use xpcie.Base.{ℕ, Bool, Option, Run, done, ◌>>=◌}
use xpcie.Platform.{Platform}
use xpcie.Kernel.{Scatter}
use xpcie.Mmap.{Vma, MmapRc, Remap, xpcie_user_mmap, xpcie_h2c_mmap}
use xpcie.Write.{Calls, Written, xpcie_h2c_write}

-- The devices `xpcie_user`, `xpcie_h2c` and `xpcie_c2h`.
pub data Node : Type 0 where
  user h2c c2h : Node

-- The calls of a program; `buf` is the user's address and `pos` the file position.
pub data FileOp : Type 0 where
  open_file release_file : FileOp
  read_file : (count : ℕ) → FileOp
  write_file : (buf count pos : ℕ) → FileOp
  mmap_file : Vma → FileOp

-- A function of a table that is there: its result, and what a write hands to the engine; or no
-- function.
pub data Answer : Type 0 where
  no_function : Answer
  returned : ℕ → Answer
  mapped : MmapRc × Option Remap → Answer
  wrote : Written → Answer

-- `xpcie_user_open`, `xpcie_user_read`, `xpcie_user_write` and `xpcie_user_close`
abbrev pub xpcie_user_open : ℕ
xpcie_user_open = 0

abbrev pub xpcie_user_read : (count : ℕ) → ℕ
xpcie_user_read count = 0

abbrev pub xpcie_user_write : (buf count pos : ℕ) → ℕ
xpcie_user_write buf count pos = 0

abbrev pub xpcie_user_close : ℕ
xpcie_user_close = 0

-- `xpcie_h2c_open`, `xpcie_h2c_read`, which copies nothing, `xpcie_h2c_close` and `xpcie_c2h_close`
abbrev pub xpcie_h2c_open : ℕ
xpcie_h2c_open = 0

abbrev pub xpcie_h2c_read : (count : ℕ) → ℕ
xpcie_h2c_read count = count

abbrev pub xpcie_h2c_close : ℕ
xpcie_h2c_close = 0

abbrev pub xpcie_c2h_close : ℕ
xpcie_c2h_close = 0

module _ (p : Platform) (pci_resource_start pci_resource_end : ℕ → ℕ)
    (io_remap_pfn_range : Remap → Bool) (k : Scatter) (c : Calls) where
  unfoldable pub xpcie_user_fops : FileOp → Run Answer
  xpcie_user_fops open_file = done (returned xpcie_user_open)
  xpcie_user_fops (read_file count) = done (returned (xpcie_user_read count))
  xpcie_user_fops (write_file buf count pos) = done (returned (xpcie_user_write buf count pos))
  xpcie_user_fops release_file = done (returned xpcie_user_close)
  xpcie_user_fops (mmap_file vma) =
      done (mapped (xpcie_user_mmap p pci_resource_start pci_resource_end io_remap_pfn_range vma))

  unfoldable pub xpcie_h2c_fops : FileOp → Run Answer
  xpcie_h2c_fops release_file = done (returned xpcie_h2c_close)
  xpcie_h2c_fops open_file = done (returned xpcie_h2c_open)
  xpcie_h2c_fops (read_file count) = done (returned (xpcie_h2c_read count))
  xpcie_h2c_fops (write_file buf count pos) = do
    w ← xpcie_h2c_write p k c buf count pos
    done (wrote w)
  xpcie_h2c_fops (mmap_file vma) =
      done (mapped (xpcie_h2c_mmap p pci_resource_start pci_resource_end io_remap_pfn_range vma))

  unfoldable pub xpcie_c2h_fops : FileOp → Run Answer
  xpcie_c2h_fops release_file = done (returned xpcie_c2h_close)
  xpcie_c2h_fops op = done no_function

  -- A call on a device.
  unfoldable pub file_call : Node → FileOp → Run Answer
  unfolding xpcie_user_fops xpcie_h2c_fops xpcie_c2h_fops
  file_call user op = xpcie_user_fops op
  file_call h2c op = xpcie_h2c_fops op
  file_call c2h op = xpcie_c2h_fops op
