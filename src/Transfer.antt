-- ===== src/Transfer.antt =====
-- Building the descriptor list of a transfer in driver/xpcie.c: `xdma_desc_alloc`,
-- `transfer_build`, `transfer_terminate`, and the loop of `xpcie_h2c_write` that sets the adjacent
-- counts. A descriptor array is a list, and a write past its end is an `oops`.
pub mod Alloc
pub mod Blocks
pub mod Moves
pub mod Long
pub mod Finish
pub mod Walk
pub mod Bus
pub mod Dump
use xpcie.Base.{
  ℕ, zero, suc, ◌+◌, ◌-◌, ◌*◌, ◌^◌, Bool, true, false, not, ◌&&◌, ◌||◌, Option, none, some, List,
  [], ◌∷◌, bit_or, ltb, leb, ◌==◌, if◌then◌else◌, Run, done, oops, ◌>>=◌, ◌>>◌, bug_on, update_at,
}
use xpcie.Platform.{Platform, u32, u64, sub64, pci_dma_h, pci_dma_l}
use xpcie.Kernel.{Sg, Event, free_consistent}
use xpcie.Desc.{
  Desc, desc_size, desc_magic, desc_stopped, desc_completed, desc_eop, xdma_desc_set,
  xdma_desc_link, xdma_desc_control, xdma_desc_adjacent, clamp_adj,
}

-- `XDMA_DESC_MAX_BYTES`
abbrev pub desc_max_bytes : ℕ
desc_max_bytes = 2 ^ 18 - 1

-- The flags of `transfer_build`; each `int` is its truth value.
pub record Mode : Type 0 where
  pub dir_to_dev : Bool
  pub non_incr_addr : Bool
  pub force_new_desc : Bool
  pub userspace : Bool

-- The local variables of `transfer_build`.
pub record Build : Type 0 where
  pub desc_virt : List Desc
  pub j : ℕ
  pub ep_addr : ℕ
  pub cont_addr : ℕ
  pub cont_len : ℕ
  pub cont_max_len : ℕ
  pub addr : ℕ

-- The end point address of the next block.
unfoldable pub next_ep : Mode → (ep_addr cont_len : ℕ) → ℕ
next_ep m ep_addr cont_len =
    if m.userspace && m.non_incr_addr then ep_addr else u64 (ep_addr + cont_len)

module _ (p : Platform) where
  open p use {page_size, cpu_to_le32}

  -- The loop of `xdma_desc_alloc` over the `number` descriptors from `desc_virt[i]` on, and the
  -- writes to the last one behind it.
  unfoldable pub fill_chain : (number : ℕ) → List Desc → (desc_bus adj : ℕ) → Run (List Desc)
  fill_chain (suc zero) (d ∷ mem) desc_bus adj = done (
      record d {
        next_lo = cpu_to_le32 0;
        next_hi = cpu_to_le32 0;
        bytes = cpu_to_le32 0;
        control = cpu_to_le32 desc_magic;
      }
      ∷ mem)
  fill_chain (suc (suc n)) (d ∷ mem) desc_bus adj =
      let next = u64 (desc_bus + desc_size) in
      let extra = if ltb 0 adj then clamp_adj adj else 0 in
      (do
        rest ← fill_chain (suc n) mem next (adj - 1)
        done (
            record d {
              next_lo = cpu_to_le32 (pci_dma_l next);
              next_hi = cpu_to_le32 (pci_dma_h next);
              bytes = cpu_to_le32 0;
              control = cpu_to_le32 (bit_or desc_magic (extra * 2 ^ 8));
            }
            ∷ rest))
  fill_chain number mem desc_bus adj = oops

  -- `xdma_desc_alloc`. The parameter is `pci_alloc_consistent`: `none`, or the bus address and the
  -- memory, as descriptors with any contents.
  unfoldable pub xdma_desc_alloc :
      (ℕ → Option (ℕ × List Desc)) → (number : ℕ) → Run (Option (ℕ × List Desc))
  xdma_desc_alloc pci_alloc_consistent number = do
    bug_on (ltb number 1)
    elim (pci_alloc_consistent (number * desc_size)) [
      | none ↦ done none
      | some (desc_bus, mem) ↦ do
        desc_virt ← fill_chain number mem desc_bus (number - 1)
        done (some (desc_bus, desc_virt))
    ]

  -- `xdma_desc_free`, which nothing calls; `number` is the bit pattern of the `int`.
  unfoldable pub xdma_desc_free :
      (number : ℕ) → (desc_virt : Option (List Desc)) → (desc_bus : ℕ) → Run (List Event)
  xdma_desc_free number desc_virt desc_bus = do
    bug_on (elim desc_virt [ none ↦ true | some ds ↦ false ])
    bug_on (leb (2 ^ 31) number)
    done (free_consistent (number * desc_size) desc_bus ∷ [])

  -- `new_desc` in the loop of `transfer_build`, for an entry at `addr` of `len` bytes, `cont_len`
  -- bytes with those before it, and the next entry at `next`.
  unfoldable pub new_desc : Mode → (next addr len cont_len : ℕ) → Bool
  new_desc m next addr len cont_len =
      (not (next == u64 (addr + len)) || ltb (sub64 desc_max_bytes page_size) cont_len)
      || (m.force_new_desc && not m.userspace)

  -- One round of the loop: the entry `s`, and the bus address of the next one.
  unfoldable pub build_entry : Mode → Sg → (next : ℕ) → Build → Run Build
  build_entry m s next b =
      let cont_len = u32 (b.cont_len + s.dma_length) in
      if new_desc m next b.addr s.dma_length cont_len
      then (do
        desc_virt ←
            update_at b.desc_virt b.j
              (λ d. done (xdma_desc_set p d b.cont_addr b.ep_addr cont_len m.dir_to_dev))
        done (record {
          desc_virt = desc_virt;
          j = b.j + 1;
          ep_addr = next_ep m b.ep_addr cont_len;
          cont_addr = next;
          cont_len = 0;
          cont_max_len = if ltb b.cont_max_len cont_len then cont_len else b.cont_max_len;
          addr = next;
        }))
      else done (record b { cont_len = cont_len; addr = next })

  -- The rounds left and the last entry, from the head of the list on.
  unfoldable pub build_from : Mode → (nents rounds : ℕ) → List Sg → Build → Run (List Desc × ℕ)
  build_from m nents zero (s ∷ sgl) b = do
    let cont_len = u32 (b.cont_len + s.dma_length)
    bug_on (ltb nents b.j)
    desc_virt ←
        update_at b.desc_virt b.j
          (λ d. done (xdma_desc_set p d b.cont_addr b.ep_addr cont_len m.dir_to_dev))
    done (desc_virt, b.j)
  build_from m nents (suc n) (s ∷ t ∷ sgl) b = do
    b' ← build_entry m s t.dma_address b
    build_from m nents n (t ∷ sgl) b'
  build_from m nents n sgl b = oops

  -- `transfer_build`: the descriptors, and the index of the last one.
  unfoldable pub transfer_build :
      Mode → (sgl : List Sg) (sgl_nents : ℕ) → List Desc → (ep_addr : ℕ) → Run (List Desc × ℕ)
  transfer_build m [] sgl_nents desc_virt ep_addr = oops
  transfer_build m (s ∷ sgl) sgl_nents desc_virt ep_addr =
      build_from m sgl_nents (sgl_nents - 1) (s ∷ sgl) (record {
        desc_virt = desc_virt;
        j = 0;
        ep_addr = ep_addr;
        cont_addr = s.dma_address;
        cont_len = 0;
        cont_max_len = 0;
        addr = s.dma_address;
      })

  -- `transfer_terminate`
  unfoldable pub transfer_terminate : List Desc → (last : ℕ) → Run (List Desc)
  transfer_terminate desc_virt last = update_at desc_virt last (λ d.
      xdma_desc_control p (xdma_desc_link p d none)
        (bit_or (bit_or desc_stopped desc_eop) desc_completed))

  -- `for (i = 0; i < desc_num; i++) xdma_desc_adjacent(desc_virt + i, desc_num - i - 1);`
  unfoldable pub set_adjacent : (left : ℕ) → List Desc → Run (List Desc)
  set_adjacent zero desc_virt = done desc_virt
  set_adjacent (suc n) [] = oops
  set_adjacent (suc n) (d ∷ desc_virt) = do
    rest ← set_adjacent n desc_virt
    done (xdma_desc_adjacent p d n ∷ rest)

-- The three steps by which `xpcie_h2c_write` makes the list of a transfer: build, terminate, and
-- set the adjacent counts; with the number of descriptors in use.
unfoldable pub prepare :
    Platform
    → Mode
    → (sgl : List Sg) (sgl_nents : ℕ) → List Desc
    → (ep_addr : ℕ) → Run (List Desc × ℕ)
prepare p m sgl sgl_nents desc_virt ep_addr = do
  (built, last) ← transfer_build p m sgl sgl_nents desc_virt ep_addr
  terminated ← transfer_terminate p built last
  adjacent ← set_adjacent p (last + 1) terminated
  done (adjacent, last + 1)
