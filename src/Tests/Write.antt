-- ===== src/Tests/Write.antt =====
-- A write of 10000 bytes from offset 4090 of a page: it spans four pages, and moves to the card from
-- address 0x8000 on.
use xpcie.Base.{◌≡◌, refl, done, arith}
use xpcie.Write.{Written, xpcie_h2c_write}
use xpcie.Write.Done.{Sent, xpcie_h2c_write-Sent}
use xpcie.Tests.World.{
  machine, scatter, bus_of, calls, pages_from, pci_map_sg-MapsBytes, pci_alloc_consistent-Allocates,
}

xpcie_h2c_write-Sent_example :
    (w : Written) × (xpcie_h2c_write machine scatter calls 4090 10000 0x8000 ≡ done w)
    × Sent machine bus_of 0x8000 10000 4090 (pages_from 0 4) w
xpcie_h2c_write-Sent_example =
    xpcie_h2c_write-Sent machine scatter calls bus_of pci_map_sg-MapsBytes
      pci_alloc_consistent-Allocates 0x8000 (omega arith) 4090 10000 (pages_from 0 4) (omega arith)
      (omega arith) (omega arith) (refl, refl, refl) refl refl
