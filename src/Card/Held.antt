-- ===== src/Card/Held.antt =====
-- What a program's calls on the device files leave held in the kernel.
use xpcie.Base.{
  ℕ, ◌+◌, ◌*◌, ◌%◌, ◌≤◌, ◌<◌, ◌≡◌, ap, ap₂, ◌∙◌, refl, Bool, true, false, List, [], ◌∷◌, ◌++◌, min,
  ◌==◌, done, arith,
}
use xpcie.Platform.{Platform}
use xpcie.Kernel.{Scatter, Event}
use xpcie.Kernel.Held.{Held, hold_all, hold_on}
use xpcie.Mmap.{Remap}
use xpcie.Desc.{desc_size}
use xpcie.Bars.{Pci, int_max}
use xpcie.Bars.Probe.{base}
use xpcie.Driver.{Driver, Reach, probe_driver}
use xpcie.Driver.Access.{probe-covers}
use xpcie.Write.Held.{write_events-Held}
use xpcie.Files.{Answer, no_function, returned, mapped, wrote}
use xpcie.Card.{Card, Syscall, session}
use xpcie.Card.Promise.{AllAllowed, AllSent, IsSent, writes_of, writes_done, writes_in}
use xpcie.Card.Session.{session-expected_store}

-- The calls of the kernel that the driver makes for some calls.
abbrev pub asked_by : Answer → List Event
asked_by (wrote w) = w.events
asked_by answer = []

abbrev pub asked : List Answer → List Event
asked [] = []
asked (answer ∷ answers) = asked_by answer ++ asked answers

-- Nothing more is held, but for `more` bytes of coherent memory.
abbrev pub with_coherent : ℕ → Held → Held
with_coherent more h = record h { coherent = h.coherent + more; running = false }

still : (h : Held) → h.running ≡ false → h ≡ with_coherent 0 h
still h stopped =
    let same : h.coherent ≡ h.coherent + 0 = omega arith in
    ap₂ (λ n b. record h { coherent = n; running = b }) same stopped

asked_by-Held :
    (p : Platform) (answer : Answer) (h : Held)
    → IsSent p answer
    → h.running ≡ false
    → (more : ℕ) × (hold_all (asked_by answer) h ≡ done (with_coherent more h))
      × (desc_size * writes_of answer ≤ more)
unfolding hold_all
asked_by-Held p (wrote w) h (news, nents, bus, num, some_entry, events) stopped = (
  nents * desc_size,
  ap (λ es. hold_all es h) events ∙ write_events-Held p news nents bus num h stopped,
  omega (arith, some_entry),
)
asked_by-Held p no_function h sent stopped = (0, ap done (still h stopped), omega arith)
asked_by-Held p (returned n) h sent stopped = (0, ap done (still h stopped), omega arith)
asked_by-Held p (mapped r) h sent stopped = (0, ap done (still h stopped), omega arith)

asked-Held :
    (p : Platform) (answers : List Answer) (h : Held)
    → AllSent p answers
    → h.running ≡ false
    → (more : ℕ) × (hold_all (asked answers) h ≡ done (with_coherent more h))
      × (desc_size * writes_done answers ≤ more)
unfolding hold_all
asked-Held p [] h sent stopped = (0, ap done (still h stopped), omega arith)
asked-Held p (answer ∷ answers) h sent stopped =
    let (first, does, large) = asked_by-Held p answer h sent.0 stopped in
    let (rest, others, larger) = asked-Held p answers (with_coherent first h) sent.1 refl in
    (
      first + rest,
      hold_on (asked_by answer) (asked answers) h (with_coherent first h) does others
          ∙ ap (λ n. done (record h { coherent = n; running = false })) (omega arith),
      omega (arith, large, larger),
    )

-- From every state without a bound device that probes and removes reach, after a probe that
-- succeeds and maps BAR 1, with at least the bytes up to the last register, if the processor is
-- little-endian and the engine of the card is stopped: for each list of calls on the device files,
-- each write on "h2c" with the kernel granting its requests, what the driver asks of the kernel is
-- in turn. It flushes and releases only pages that are pinned, and neither releases a page nor ends
-- a mapping while the engine runs. At the end the engine is stopped, each page is pinned as often
-- and as many entries are mapped as before; but the coherent memory for one descriptor of each
-- write at least is still allocated.
pub probe_driver-Held :
    (p : Platform) (bus_of : ℕ × ℕ → ℕ) (pci_resource_start pci_resource_end : ℕ → ℕ)
    (io_remap_pfn_range : Remap → Bool) (k : Scatter) (pci : Pci) {d : Driver}
    (calls : List Syscall) (card : Card) (held : Held)
    → ((x : ℕ) → p.cpu_to_le32 x ≡ x)
    → Reach d
    → d.bound ≡ false
    → (pci.pci_enable_device == 0) ≡ true
    → (pci.pci_request_regions == 0) ≡ true
    → 0 < base pci 1
    → 0x408c ≤ min (pci.pci_resource_len 1) int_max
    → AllAllowed p bus_of calls
    → card.device.control_word % 2 ≡ 0
    → held.running ≡ false
    → (d' : Driver) × (answers : List Answer) × (card' : Card) × (more : ℕ) × (probe_driver pci d
        ≡ done d')
      × (session p d' pci_resource_start pci_resource_end io_remap_pfn_range k calls card
          ≡ done (answers, card'))
      × (hold_all (asked answers) held ≡ done (with_coherent more held))
      × (desc_size * writes_in calls ≤ more)
probe_driver-Held p bus_of pci_resource_start pci_resource_end io_remap_pfn_range k pci calls card
      held little reach unbound enabled granted there long allowed stopped idle =
    let (d', probed, _, _, covered) = probe-covers pci reach unbound enabled granted there long in
    let (answers, card', does, _, _, _, writes, sent) =
      session-expected_store p little bus_of d' covered pci_resource_start pci_resource_end
        io_remap_pfn_range k calls card allowed stopped in
    let (more, holds, large) = asked-Held p answers held sent idle in
    (d', answers, card', more, probed, does, holds, omega (arith, large, writes))
