-- ===== src/Bars.antt =====
-- Probing and removing the device: `map_single_bar`, `map_bars`, `unmap_bars`, `request_regions`,
-- `set_dma_mask`, `xpcie_probe` and `xpcie_remove` of driver/xpcie.c, on the array `bar`. What the
-- PCI layer of the kernel (linux/pci.h) answers is a parameter.
pub mod Probe
use xpcie.Base.{
  ℕ, ◌+◌, ◌-◌, ◌*◌, ◌^◌, Bool, true, false, List, [], ◌∷◌, ◌++◌, ltb, ◌==◌, if◌then◌else◌, get_or,
  Run, done, ◌>>=◌, update_at,
}

-- The calls of the PCI layer, in order.
pub data PciCall : Type 0 where
  enable_device set_master request_regions release_regions disable_device : PciCall
  iomap : (bar len : ℕ) → PciCall
  iounmap : ℕ → PciCall
  dma_mask consistent_dma_mask : (bits : ℕ) → PciCall

-- The answers: an error number, 0 for success; and for `pci_iomap` a pointer, 0 for NULL.
pub record Pci : Type 0 where
  pub pci_enable_device : ℕ
  pub pci_request_regions : ℕ
  pub pci_resource_len : ℕ → ℕ
  pub pci_iomap : (bar len : ℕ) → ℕ
  pub pci_set_dma_mask : (bits : ℕ) → ℕ

-- What `map_single_bar` returns: 0, -1, or the length that it mapped.
pub data BarRc : Type 0 where
  absent unmapped : BarRc
  mapped : ℕ → BarRc

abbrev pub int_max : ℕ
int_max = 2 ^ 31 - 1

-- What a function leaves: its result, the array `bar`, and its calls.
pub record Left (R : Type 0) : Type 0 where
  pub rc : R
  pub bars : List ℕ
  pub calls : List PciCall

-- `engine_regs_h2c`, `engine_regs_c2h`, `engine_sgdma_regs` and `sgdma_common_regs`
pub record RegisterBases : Type 0 where
  pub engine_h2c : ℕ
  pub engine_c2h : ℕ
  pub engine_sgdma : ℕ
  pub sgdma_common : ℕ

-- Each at a multiple of TARGET_SPACING from the start of BAR 1.
unfoldable pub register_bases : List ℕ → RegisterBases
register_bases bars = record {
  engine_h2c = get_or bars 1 0 + 0 * 0x1000;
  engine_c2h = get_or bars 1 0 + 1 * 0x1000;
  engine_sgdma = get_or bars 1 0 + 4 * 0x1000;
  sgdma_common = get_or bars 1 0 + 6 * 0x1000;
}

-- `unmap_bars`: the array, and the calls.
unfoldable pub unmap_bars : List ℕ → List ℕ × List PciCall
unmap_bars [] = ([], [])
unmap_bars (b ∷ bars) =
    let rest = unmap_bars bars in
    if b == 0 then (b ∷ rest.0, rest.1) else (0 ∷ rest.0, iounmap b ∷ rest.1)

-- `xpcie_remove`
unfoldable pub xpcie_remove : List ℕ → List ℕ × List PciCall
xpcie_remove bars =
    let (unmapped_bars, calls) = unmap_bars bars in
    (unmapped_bars, calls ++ (release_regions ∷ disable_device ∷ []))

module _ (pci : Pci) where
  open pci use {
    pci_enable_device, pci_request_regions, pci_resource_len, pci_iomap, pci_set_dma_mask,
  }

  unfoldable pub map_single_bar : (idx : ℕ) → List ℕ → Run (Left BarRc)
  map_single_bar idx bars =
      let bar_len = pci_resource_len idx in
      let map_len = if ltb int_max bar_len then int_max else bar_len in
      let base = pci_iomap idx map_len in
      if bar_len == 0 then done (record { rc = absent; bars = bars; calls = [] }) else (do
        bars' ← update_at bars idx (λ _. done base)
        done (record {
          rc = if base == 0 then unmapped else mapped map_len;
          bars = bars';
          calls = iomap idx map_len ∷ [];
        }))

  -- `map_bars`: BAR 0, then BAR 1. Their results are not looked at.
  unfoldable pub map_bars : List ℕ → Run (Left RegisterBases)
  map_bars bars = do
    user ← map_single_bar 0 bars
    dma ← map_single_bar 1 user.bars
    done (record { rc = register_bases dma.bars; bars = dma.bars; calls = user.calls ++ dma.calls })

  -- `set_dma_mask`: whether it succeeds, and the calls.
  unfoldable pub set_dma_mask : Bool × List PciCall
  set_dma_mask =
      if pci_set_dma_mask 64 == 0
      then (true, dma_mask 64 ∷ consistent_dma_mask 32 ∷ [])
      else if pci_set_dma_mask 32 == 0
      then (true, dma_mask 64 ∷ dma_mask 32 ∷ consistent_dma_mask 32 ∷ [])
      else (false, dma_mask 64 ∷ dma_mask 32 ∷ [])

  -- `xpcie_probe`: its result is an error number, 0 for success. The results of `map_bars` and of
  -- `set_dma_mask` are not looked at.
  unfoldable pub xpcie_probe : List ℕ → Run (Left ℕ)
  xpcie_probe bars =
      if pci_enable_device == 0
      then (if pci_request_regions == 0
          then (do
            m ← map_bars bars
            done (record {
              rc = 0;
              bars = m.bars;
              calls =
                  (enable_device ∷ set_master ∷ request_regions ∷ []) ++ m.calls ++ set_dma_mask.1;
            }))
          else done (record {
            rc = pci_request_regions;
            bars = bars;
            calls = enable_device ∷ set_master ∷ request_regions ∷ [];
          }))
      else done (record { rc = pci_enable_device; bars = bars; calls = enable_device ∷ [] })
