-- ===== src/Card/System.antt =====
-- A program's calls on the device files after the driver has probed the card.
use xpcie.Base.{ℕ, ◌%◌, ◌≤◌, ◌<◌, ◌≡◌, Bool, true, false, List, map, min, ◌==◌, done}
use xpcie.Platform.{Platform}
use xpcie.Kernel.{Scatter}
use xpcie.Mmap.{Remap}
use xpcie.Bars.{Pci, int_max}
use xpcie.Bars.Probe.{base}
use xpcie.Driver.{Driver, Reach, probe_driver}
use xpcie.Driver.Access.{probe-covers}
use xpcie.Files.{Answer}
use xpcie.Card.{Card, Syscall, session}
use xpcie.Card.Promise.{AllAllowed, count_of, expected_counts, expected_store}
use xpcie.Card.Session.{session-expected_store}

-- From every state without a bound device that probes and removes reach, a probe that succeeds and
-- maps BAR 1, with at least the bytes up to the last register, leads to a reachable state in which
-- the device is bound and each list of calls on the device files does what it promises, if the
-- processor is little-endian, the engine of the card is stopped, and the kernel grants the requests
-- of each write on "h2c": no call ends in a BUG_ON, in a bad access or in an access of a register
-- that is not mapped; each returns the count that is promised; at the end the engine is stopped,
-- and the memory of the card is what storing the program's bytes at the file positions, one write
-- after the other, makes of it.
pub probe_driver-session :
    (p : Platform) (bus_of : ℕ × ℕ → ℕ) (pci_resource_start pci_resource_end : ℕ → ℕ)
    (io_remap_pfn_range : Remap → Bool) (k : Scatter) (pci : Pci) {d : Driver}
    (calls : List Syscall) (card : Card)
    → ((x : ℕ) → p.cpu_to_le32 x ≡ x)
    → Reach d
    → d.bound ≡ false
    → (pci.pci_enable_device == 0) ≡ true
    → (pci.pci_request_regions == 0) ≡ true
    → 0 < base pci 1
    → 0x408c ≤ min (pci.pci_resource_len 1) int_max
    → AllAllowed p bus_of calls
    → card.device.control_word % 2 ≡ 0
    → (d' : Driver) × (answers : List Answer) × (card' : Card) × (probe_driver pci d ≡ done d')
      × Reach d'
      × (d'.bound ≡ true)
      × (session p d' pci_resource_start pci_resource_end io_remap_pfn_range k calls card
          ≡ done (answers, card'))
      × (map count_of answers ≡ expected_counts calls)
      × (card'.device.control_word % 2 ≡ 0)
      × (card'.store ≡ expected_store calls card.store)
probe_driver-session p bus_of pci_resource_start pci_resource_end io_remap_pfn_range k pci calls
      card little reach unbound enabled granted there long allowed stopped =
    let (d', probed, reached, bound, covered) =
      probe-covers pci reach unbound enabled granted there long in
    let (answers, card', does, counts, halted, holds, _, _) =
      session-expected_store p little bus_of d' covered pci_resource_start pci_resource_end
        io_remap_pfn_range k calls card allowed stopped in
    (d', answers, card', probed, reached, bound, does, counts, halted, holds)
