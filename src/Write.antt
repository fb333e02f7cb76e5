-- ===== src/Write.antt =====
-- `xpcie_h2c_write` of driver/xpcie.c: a write to the h2c device, from the pages of the user's
-- buffer to the descriptor list that the engine runs.
pub mod Done
pub mod Fault
pub mod Held
use xpcie.Base.{
  ℕ, ◌*◌, ◌+◌, Bool, true, false, Option, none, some, List, [], ◌∷◌, ◌++◌, ◌==◌, Run, done, oops,
  ◌>>=◌, ◌>>◌, bug_on,
}
use xpcie.Platform.{Platform}
use xpcie.Kernel.{Sg, Event, map_sg, unmap_sg, alloc_consistent, Pinned, Scatter}
use xpcie.Desc.{Desc, desc_size}
use xpcie.Mapper.{
  Mapper, Memory, sg_create_mapper, sgm_get_user_pages, sgm_put_user_pages, sg_destroy_mapper,
}
use xpcie.Transfer.{Mode, xdma_desc_alloc, prepare}
use xpcie.Transfer.Dump.{transfer_dump}
use xpcie.Engine.{transfer_start}

-- What the kernel answers to the calls of one write: the allocations, the pages of the user's
-- buffer, the mapped scatterlist with its number of entries, and the coherent memory.
pub record Calls : Type 0 where
  pub memory : Memory
  pub get_user_pages_fast : ℕ → ℕ → Bool → Pinned
  pub pci_map_sg : List Sg → ℕ → List Sg × ℕ
  pub pci_alloc_consistent : ℕ → Option (ℕ × List Desc)

-- What the write leaves: its result, its calls in order, and the part of `struct xdma_transfer`
-- that the engine uses.
pub record Written : Type 0 where
  pub count : ℕ
  pub events : List Event
  pub desc_virt : List Desc
  pub desc_bus : ℕ
  pub desc_num : ℕ

-- `dir_to_dev`, `non_incr_addr`, `force_new_desc` and `userspace`
abbrev pub h2c_mode : Mode
h2c_mode = record {
  dir_to_dev = true;
  non_incr_addr = false;
  force_new_desc = false;
  userspace = true;
}

-- A NULL descriptor array has no descriptor to write to.
abbrev pub or_null : Option (ℕ × List Desc) → ℕ × List Desc
or_null none = (0, [])
or_null (some a) = a

module _ (p : Platform) (k : Scatter) (c : Calls) where
  open c use {memory, get_user_pages_fast, pci_map_sg, pci_alloc_consistent}

  -- The transfer, from the mapped pages on. The result of `sgm_get_user_pages` is not looked at.
  unfoldable pub h2c_transfer : Mapper → (count ep_addr : ℕ) → List Event → Run Written
  h2c_transfer sgm count ep_addr pins = do
    bug_on (sgm.mapped_pages == 0)
    let (sgl, sgl_nents) = pci_map_sg sgm.sgl sgm.mapped_pages
    allocated ← xdma_desc_alloc p pci_alloc_consistent sgl_nents
    let (desc_bus, mem) = or_null allocated
    (desc_virt, desc_num) ← prepare p h2c_mode sgl sgl_nents mem ep_addr
    logged ← transfer_dump p desc_virt desc_num
    (unmapped, puts) ← sgm_put_user_pages (record sgm { sgl = sgl }) true
    frees ← sg_destroy_mapper unmapped
    done (record {
      count = count;
      events =
          pins
          ++ (map_sg sgm.mapped_pages ∷ alloc_consistent (sgl_nents * desc_size) ∷ [])
          ++ transfer_start p desc_bus desc_num
          ++ (unmap_sg sgm.mapped_pages ∷ [])
          ++ puts
          ++ frees;
      desc_virt = desc_virt;
      desc_bus = desc_bus;
      desc_num = desc_num;
    })

  -- `xpcie_h2c_write`, for `count` bytes at `buf` and the file position `ep_addr`.
  unfoldable pub xpcie_h2c_write : (buf count ep_addr : ℕ) → Run Written
  xpcie_h2c_write buf count ep_addr = elim (sg_create_mapper p k memory count) [
    | none ↦ oops
    | some sgm ↦ do
      got ← sgm_get_user_pages p k get_user_pages_fast sgm buf count true
      h2c_transfer got.sgm count ep_addr got.events
  ]
