-- ===== src/Tests/Bars.antt =====
-- A device with a BAR 0 of 64 KiB, mapped at 0xffff_0000, and a BAR 1 of 4 GiB that cannot be mapped.
use xpcie.Base.{ℕ, ◌^◌, ◌≡◌, [], ◌∷◌, ◌++◌, map, done, if◌then◌else◌, ◌==◌}
use xpcie.Bars.{iounmap, release_regions, disable_device, Pci, Left, xpcie_remove, xpcie_probe}
use xpcie.Bars.Probe.{base, mapped_bars, xpcie_probe_lem}

abbrev one_bar : Pci
one_bar = record {
  pci_enable_device = 0;
  pci_request_regions = 0;
  pci_resource_len = λ bar. if bar == 0 then 0x1_0000 else 2 ^ 32;
  pci_iomap = λ bar len. if bar == 0 then 0xffff_0000 else 0;
  pci_set_dma_mask = λ bits. 5;
}

xpcie_probe_lem_example :
    (out : Left ℕ) × (xpcie_probe one_bar (0 ∷ 0 ∷ []) ≡ done out)
    × (out.rc ≡ 0)
    × (out.bars ≡ 0xffff_0000 ∷ 0 ∷ [])
    × (xpcie_remove out.bars ≡ (
      0 ∷ 0 ∷ [],
      map iounmap (mapped_bars out.bars) ++ (release_regions ∷ disable_device ∷ []),
    ))
unfolding base
xpcie_probe_lem_example = xpcie_probe_lem one_bar
