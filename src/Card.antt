-- ===== src/Card.antt =====
-- The driver together with the card: the memory of the card behind the end point addresses, and what
-- a program's calls on the device files make of it. The engine (driver/xpcie.h, `struct xdma_desc`)
-- carries out a list of descriptors when it is started on it.
pub mod Carry
pub mod Promise
pub mod Session
pub mod System
pub mod Fault
pub mod Held
use xpcie.Base.{
  ℕ, Bool, true, Option, none, some, List, [], ◌∷◌, ◌==◌, if◌then◌else◌, update, Run, done, oops,
  ◌>>=◌,
}
use xpcie.Platform.{Platform}
use xpcie.Kernel.{Scatter}
use xpcie.Mmap.{Remap}
use xpcie.Desc.{Desc}
use xpcie.Engine.Run.{Device, play}
use xpcie.Transfer.Walk.{at_bus, walk}
use xpcie.Write.{Calls, Written}
use xpcie.Driver.{Driver, accessible}
use xpcie.Files.{Node, FileOp, Answer, no_function, returned, mapped, wrote, file_call}

-- The registers of the engine, and the byte at each end point address.
pub record Card : Type 0 where
  pub device : Device
  pub store : ℕ → ℕ

-- The bytes of a list of descriptors, copied one by one from the bus addresses.
unfoldable pub carry : (ram : ℕ → ℕ) → List (ℕ × ℕ) → (ℕ → ℕ) → ℕ → ℕ
carry ram [] store = store
carry ram ((a, e) ∷ moves) store = carry ram moves (update store e (ram a))

-- One call of a program: the device, the operation, what the kernel answers to it, and the bytes at
-- the bus addresses and at the program's own addresses during the call.
pub record Syscall : Type 0 where
  pub node : Node
  pub op : FileOp
  pub calls : Calls
  pub ram : ℕ → ℕ
  pub user_memory : ℕ → ℕ

module _ (p : Platform) where
  -- Each list that the engine is started on, with `fuel` descriptors in `memory` at most. A list that
  -- the engine cannot read is an `oops`.
  unfoldable pub carry_runs :
      (ram : ℕ → ℕ) (fuel : ℕ) (memory : ℕ → Option Desc) → List (ℕ × ℕ) → (ℕ → ℕ) → Run (ℕ → ℕ)
  carry_runs ram fuel memory [] store = done store
  carry_runs ram fuel memory ((bus, adjacent) ∷ runs) store = elim (walk p true fuel memory bus) [
    | none ↦ oops
    | some moves ↦ carry_runs ram fuel memory runs (carry ram moves store)
  ]

-- The driver's state, with the mappings of the BARs, stays as it is during the calls.
module _ (p : Platform) (d : Driver) where
  -- What the calls of a write make of the card; an access of a register that is not mapped is an
  -- `oops`.
  unfoldable pub card_write : (ram : ℕ → ℕ) → Written → Card → Run Card
  card_write ram w card =
      if accessible d w.events
      then (do
        let device = play w.events (record card.device { runs = [] })
        store ← carry_runs p ram w.desc_num (at_bus w.desc_bus w.desc_virt) device.runs card.store
        done (record { device = device; store = store }))
      else oops

  -- The card after a call with this answer.
  unfoldable pub answered : (ram : ℕ → ℕ) → Answer → Card → Run Card
  answered ram (wrote w) card = card_write ram w card
  answered ram no_function card = done card
  answered ram (returned n) card = done card
  answered ram (mapped r) card = done card

  module _ (pci_resource_start pci_resource_end : ℕ → ℕ) (io_remap_pfn_range : Remap → Bool)
      (k : Scatter) where
    -- The answer, and the card after the call. An access of a program through a mapping is not
    -- modelled.
    unfoldable pub card_call : Syscall → Card → Run (Answer × Card)
    card_call s card = do
      answer ←
          file_call p pci_resource_start pci_resource_end io_remap_pfn_range k s.calls s.node s.op
      card' ← answered s.ram answer card
      done (answer, card')

    -- A program's calls, one after the other.
    unfoldable pub session : List Syscall → Card → Run (List Answer × Card)
    session [] card = done ([], card)
    session (s ∷ calls) card = do
      (answer, card') ← card_call s card
      (answers, end) ← session calls card'
      done (answer ∷ answers, end)
