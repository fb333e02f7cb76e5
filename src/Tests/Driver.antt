-- ===== src/Tests/Driver.antt =====
-- A device with BAR 0 of 64 KiB and BAR 1 of 512 KiB, probed, removed and probed again.
use xpcie.Base.{◌≡◌, refl, true, false, done, oops, if◌then◌else◌, ◌==◌, arith}
use xpcie.Bars.{Pci}
use xpcie.Bars.Probe.{base}
use xpcie.Write.{Written, xpcie_h2c_write}
use xpcie.Write.Done.{Sent, xpcie_h2c_write-Sent}
use xpcie.Driver.{
  Driver, loaded, probe_driver, remove_driver, Reach, start, later, probe, remove, driver_write,
}
use xpcie.Driver.Invariant.{IsConsistent, Reach-IsConsistent, after, probe_driver-after}
use xpcie.Driver.Access.{driver_write-unbound, driver_write-bound}
use xpcie.Tests.World.{
  machine, scatter, bus_of, calls, pages_from, pci_map_sg-MapsBytes, pci_alloc_consistent-Allocates,
}

abbrev pub two_bars : Pci
two_bars = record {
  pci_enable_device = 0;
  pci_request_regions = 0;
  pci_resource_len = λ bar. if bar == 0 then 0x1_0000 else 0x8_0000;
  pci_iomap = λ bar len. if bar == 0 then 0xffff_0000 else 0xfff0_0000;
  pci_set_dma_mask = λ bits. 0;
}

abbrev pub removed : Driver
removed = remove_driver (after two_bars loaded)

pub removed-Reach : Reach removed
removed-Reach =
    later (later start (probe two_bars refl (probe_driver-after two_bars loaded refl)))
      (remove refl)

pub removed-unbound : removed.bound ≡ false
unfolding remove_driver
removed-unbound = refl

written :
    (w : Written) × (xpcie_h2c_write machine scatter calls 4090 10000 0x8000 ≡ done w)
    × Sent machine bus_of 0x8000 10000 4090 (pages_from 0 4) w
written =
    xpcie_h2c_write-Sent machine scatter calls bus_of pci_map_sg-MapsBytes
      pci_alloc_consistent-Allocates 0x8000 (omega arith) 4090 10000 (pages_from 0 4) (omega arith)
      (omega arith) (omega arith) (refl, refl, refl) refl refl

driver_write-unbound_example : driver_write machine scatter calls removed 4090 10000 0x8000 ≡ oops
driver_write-unbound_example =
    driver_write-unbound machine scatter calls bus_of 4090 10000 0x8000 4090 (pages_from 0 4)
      written.0 written.1 written.2 removed-Reach removed-unbound

base-two_bars : base two_bars 1 ≡ 0xfff0_0000
unfolding base
base-two_bars = refl

driver_write-bound_example :
    (d' : Driver) × (probe_driver two_bars removed ≡ done d')
    × Reach d'
    × (d'.bound ≡ true)
    × (driver_write machine scatter calls d' 4090 10000 0x8000 ≡ done written.0)
driver_write-bound_example =
    driver_write-bound machine scatter calls bus_of 4090 10000 0x8000 4090 (pages_from 0 4)
      written.0 written.1 written.2 two_bars removed-Reach removed-unbound refl refl
      (omega (arith, base-two_bars)) (omega arith)

Reach-IsConsistent_example : IsConsistent removed
Reach-IsConsistent_example = Reach-IsConsistent removed-Reach
