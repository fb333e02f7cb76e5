-- ===== src/Driver.antt =====
-- The driver as a whole, between `xpcie_init` and `xpcie_exit`: the globals of driver/xpcie.c that
-- probing, removing and writing share, the mappings of the BARs that are live in the kernel, and the
-- steps by which the PCI core probes and removes the device.
pub mod Invariant
pub mod Access
use xpcie.Base.{
  ℕ, ◌+◌, ◌≡◌, Bool, true, false, ◌&&◌, ◌||◌, List, [], ◌∷◌, leb, ◌==◌, if◌then◌else◌, Run, done,
  oops, ◌>>=◌,
}
use xpcie.Platform.{Platform}
use xpcie.Kernel.{Register, Event, write32, read32, Scatter}
use xpcie.Bars.{
  Pci, PciCall, iomap, iounmap, RegisterBases, register_bases, xpcie_probe, xpcie_remove,
}
use xpcie.Registers.{register_address}
use xpcie.Write.{Calls, Written, xpcie_h2c_write}

-- A live mapping: its address and its length.
abbrev pub Mapping : Type 0
Mapping = ℕ × ℕ

-- The array `bar`, the pointers to the registers, whether the PCI core has bound the device to the
-- driver, and the live mappings.
pub record Driver : Type 0 where
  pub bars : List ℕ
  pub bases : RegisterBases
  pub bound : Bool
  pub live : List Mapping

-- The globals before the first probe.
abbrev pub loaded : Driver
loaded = record {
  bars = 0 ∷ 0 ∷ [];
  bases = record { engine_h2c = 0; engine_c2h = 0; engine_sgdma = 0; sgdma_common = 0 };
  bound = false;
  live = [];
}

-- `pci_iounmap` ends the mapping at an address.
unfoldable pub unmap_at : ℕ → List Mapping → List Mapping
unmap_at a [] = []
unmap_at a (m ∷ live) = let rest = unmap_at a live in if m.0 == a then rest else m ∷ rest

-- The mappings after a call of the PCI layer, where `pci_iomap` is what that call returns.
unfoldable pub call_mappings : (ℕ → ℕ → ℕ) → PciCall → List Mapping → List Mapping
call_mappings pci_iomap (iomap bar len) live =
    if pci_iomap bar len == 0 then live else (pci_iomap bar len, len) ∷ live
call_mappings pci_iomap (iounmap a) live = unmap_at a live
call_mappings pci_iomap call live = live

unfoldable pub mappings : (ℕ → ℕ → ℕ) → List PciCall → List Mapping → List Mapping
mappings pci_iomap [] live = live
mappings pci_iomap (call ∷ calls) live =
    mappings pci_iomap calls (call_mappings pci_iomap call live)

-- `xpcie_probe` in this state. `map_bars` sets the pointers to the registers, and it is called just
-- when the result is 0; then the device is bound.
unfoldable pub probe_driver : Pci → Driver → Run Driver
probe_driver pci d = do
  out ← xpcie_probe pci d.bars
  done (record {
    bars = out.bars;
    bases = if out.rc == 0 then register_bases out.bars else d.bases;
    bound = out.rc == 0;
    live = mappings pci.pci_iomap out.calls d.live;
  })

-- `xpcie_remove` in this state: the pointers to the registers stay.
unfoldable pub remove_driver : Driver → Driver
remove_driver d = record d {
  bars = (xpcie_remove d.bars).0;
  bound = false;
  live = mappings (λ bar len. 0) (xpcie_remove d.bars).1 d.live;
}

-- The PCI core probes a device that is not bound, with any answers, and removes one that is.
pub data Step : Driver → Driver → Type 0 where
  probe : {d d' : Driver} (pci : Pci) → d.bound ≡ false → probe_driver pci d ≡ done d' → Step d d'
  remove : {d : Driver} → d.bound ≡ true → Step d (remove_driver d)

pub data Reach : Driver → Type 0 where
  start : Reach loaded
  later : {d d' : Driver} → Reach d → Step d d' → Reach d'

-- Whether a 32-bit word at an address lies in a live mapping.
unfoldable pub covers : List Mapping → ℕ → Bool
covers [] a = false
covers (m ∷ live) a = (leb m.0 a && leb (a + 4) (m.0 + m.1)) || covers live a

-- Whether each register that the calls access lies in a live mapping.
unfoldable pub accessible : Driver → List Event → Bool
accessible d [] = true
accessible d (write32 r w ∷ events) =
    covers d.live (register_address d.bases r) && accessible d events
accessible d (read32 r ∷ events) = covers d.live (register_address d.bases r) && accessible d events
accessible d (event ∷ events) = accessible d events

-- `xpcie_h2c_write` in this state: an access of a register that is not mapped is an `oops`.
unfoldable pub driver_write :
    Platform → Scatter → Calls → Driver → (buf count ep_addr : ℕ) → Run Written
driver_write p k c d buf count ep_addr = do
  w ← xpcie_h2c_write p k c buf count ep_addr
  if accessible d w.events then done w else oops
