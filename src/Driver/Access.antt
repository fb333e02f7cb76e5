-- ===== src/Driver/Access.antt =====
-- A write reaches the registers while the device is bound and its BAR 1 is mapped, and faults when
-- the device is not bound.
use mathlib.Core.Path.{subst}
use xpcie.Base.{
  ℕ, ◌+◌, ◌≤◌, ◌<◌, ◌≡◌, ap, ◌∙◌, sym, refl, Bool, true, false, ◌&&◌, List, [], ◌∷◌, ◌++◌, map,
  get_or, min, leb, ◌==◌, if◌then◌else◌, done, oops, arith,
}
use xpcie.Platform.{Platform}
use xpcie.Kernel.{
  Register, control, status, first_desc_lo, first_desc_hi, first_desc_adjacent, Event, write32,
  read32, get_page, put_page, flush_page, Scatter,
}
use xpcie.Engine.{transfer_start, engine_start, engine_stop}
use xpcie.Bars.{Pci, int_max, register_bases}
use xpcie.Bars.Probe.{base, both_bars}
use xpcie.Registers.{register_address}
use xpcie.Registers.Address.{register_offset, register_address-offset}
use xpcie.Write.{Calls, Written, xpcie_h2c_write}
use xpcie.Write.Done.{write_events, Sent}
use xpcie.Driver.{
  Driver, Mapping, covers, accessible, driver_write, probe_driver, Reach, probe, later,
}
use xpcie.Driver.Invariant.{
  Reach-IsConsistent, unbound-live, after, after-bound, probe_driver-after, mapping_at,
}

and_assoc : (a b c : Bool) → ((a && b) && c) ≡ (a && (b && c))
and_assoc true b c = refl
and_assoc false b c = refl

accessible-append :
    (d : Driver) (xs ys : List Event)
    → accessible d (xs ++ ys) ≡ (accessible d xs && accessible d ys)
unfolding accessible
accessible-append d [] ys = refl
accessible-append d (write32 r w ∷ xs) ys =
    ap (λ t. covers d.live (register_address d.bases r) && t) (accessible-append d xs ys)
    ∙ sym
        (and_assoc (covers d.live (register_address d.bases r)) (accessible d xs) (accessible d ys))
accessible-append d (read32 r ∷ xs) ys =
    ap (λ t. covers d.live (register_address d.bases r) && t) (accessible-append d xs ys)
    ∙ sym
        (and_assoc (covers d.live (register_address d.bases r)) (accessible d xs) (accessible d ys))
accessible-append d (x ∷ xs) ys = accessible-append d xs ys

-- The calls of a write but for those on registers.
accessible-pages :
    (d : Driver) (pages : List ℕ)
    → (accessible d (map get_page pages) ≡ true)
      × (accessible d (map flush_page pages) ≡ true)
      × (accessible d (map put_page pages) ≡ true)
unfolding accessible
accessible-pages d [] = (refl, refl, refl)
accessible-pages d (page ∷ pages) = accessible-pages d pages

and_true : (b : Bool) → (b && true) ≡ b
and_true true = refl
and_true false = refl

accessible-write_events :
    (p : Platform) (d : Driver) (news : List ℕ) (nents bus num : ℕ)
    → accessible d (write_events p news nents bus num) ≡ accessible d (transfer_start p bus num)
unfolding write_events accessible
accessible-write_events p d news nents bus num =
    let (gets, flushes, puts) = accessible-pages d news in
    simp (accessible-append, gets, flushes, puts, and_true)

-- With all registers mapped, or with none, a transfer reaches them, or does not.
transfer_start-mapped :
    (p : Platform) (d : Driver) (bus num : ℕ)
    → ((r : Register) → covers d.live (register_address d.bases r) ≡ true)
    → accessible d (transfer_start p bus num) ≡ true
unfolding transfer_start engine_start engine_stop accessible
transfer_start-mapped p d bus num all =
    rw (all control, all status, all first_desc_lo, all first_desc_hi, all first_desc_adjacent) refl

transfer_start-unmapped :
    (p : Platform) (d : Driver) (bus num : ℕ)
    → d.live ≡ []
    → accessible d (transfer_start p bus num) ≡ false
unfolding transfer_start accessible covers
transfer_start-unmapped p d bus num none = rw none refl

covers-registers :
    (bars : List ℕ) (b1 l1 : ℕ) (rest : List Mapping) (r : Register)
    → get_or bars 1 0 ≡ b1
    → 0x408c ≤ l1
    → covers ((b1, l1) ∷ rest) (register_address (register_bases bars) r) ≡ true
unfolding covers
covers-registers bars b1 l1 rest r e h =
    let at = register_address-offset bars r in
    let within : register_offset r ≤ 0x4088 = ground arith in
    let low : leb b1 (register_address (register_bases bars) r) ≡ true = ground (arith, at, e) in
    let high : leb (register_address (register_bases bars) r + 4) (b1 + l1) ≡ true =
      ground (arith, at, e, within) in
    rw (low, high) refl

-- After a probe that maps BAR 1.
covers-bound :
    (pci : Pci) (r : Register)
    → 0 < base pci 1
    → 0x408c ≤ min (pci.pci_resource_len 1) int_max
    → covers
        (mapping_at (base pci 1) (min (pci.pci_resource_len 1) int_max)
          ++ mapping_at (base pci 0) (min (pci.pci_resource_len 0) int_max))
        (register_address (register_bases (both_bars pci)) r)
      ≡ true
covers-bound pci r there long =
    let some : (base pci 1 == 0) ≡ false = ground arith in
    rw some (covers-registers (both_bars pci) (base pci 1) _ _ r refl long)

-- From every reachable state without a bound device, a probe that succeeds and maps BAR 1, with at
-- least the bytes up to the last register, leads to a reachable state in which each register is
-- mapped.
pub probe-covers :
    {d : Driver} (pci : Pci)
    → Reach d
    → d.bound ≡ false
    → (pci.pci_enable_device == 0) ≡ true
    → (pci.pci_request_regions == 0) ≡ true
    → 0 < base pci 1
    → 0x408c ≤ min (pci.pci_resource_len 1) int_max
    → (d' : Driver) × (probe_driver pci d ≡ done d')
      × Reach d'
      × (d'.bound ≡ true)
      × ((r : Register) → covers d'.live (register_address d'.bases r) ≡ true)
probe-covers {d} pci r unbound enabled granted there long =
    let (array, live) = unbound-live d (Reach-IsConsistent r) unbound in
    let probed = probe_driver-after pci d array in
    let bound = after-bound pci d live enabled granted in
    (
      after pci d,
      probed,
      later r (probe pci unbound probed),
      ap (λ (t : Driver). t.bound) bound,
      λ r'.
          subst (λ (t : Driver). covers t.live (register_address t.bases r') ≡ true) (sym bound)
            (covers-bound pci r' there long),
    )

-- With all registers mapped, a write that is sent reaches them.
pub accessible-Sent :
    (p : Platform) (bus_of : ℕ × ℕ → ℕ) (ep count off : ℕ) (news : List ℕ) (w : Written)
    (d : Driver)
    → Sent p bus_of ep count off news w
    → ((r : Register) → covers d.live (register_address d.bases r) ≡ true)
    → accessible d w.events ≡ true
accessible-Sent p bus_of ep count off news w d sent covered =
    ap (accessible d) sent.calls.1
    ∙ accessible-write_events p d news sent.calls.0 w.desc_bus w.desc_num
    ∙ transfer_start-mapped p d w.desc_bus w.desc_num covered

module _ (p : Platform) (k : Scatter) (c : Calls) (bus_of : ℕ × ℕ → ℕ) (buf count ep off : ℕ)
    (news : List ℕ) (w : Written) (written : xpcie_h2c_write p k c buf count ep ≡ done w)
    (sent : Sent p bus_of ep count off news w) where
  driver_write-accessible :
      (d : Driver) (reached : Bool)
      → accessible d (transfer_start p w.desc_bus w.desc_num) ≡ reached
      → driver_write p k c d buf count ep ≡ (if reached then done w else oops)
  unfolding driver_write
  driver_write-accessible d reached e =
      let events : accessible d w.events ≡ reached =
        ap (accessible d) sent.calls.1
        ∙ accessible-write_events p d news sent.calls.0 w.desc_bus w.desc_num
        ∙ e in
      rw (written, events) refl

  -- In every reachable state without a bound device, a write that `xpcie_h2c_write` would carry out
  -- ends in an access of a register that is not mapped: after a remove the pointers to the registers
  -- are the old ones.
  pub driver_write-unbound :
      {d : Driver} → Reach d → d.bound ≡ false → driver_write p k c d buf count ep ≡ oops
  driver_write-unbound {d} r unbound = driver_write-accessible d false (
      transfer_start-unmapped p d w.desc_bus w.desc_num
        (unbound-live d (Reach-IsConsistent r) unbound).1)

  -- From every reachable state without a bound device, a probe that succeeds and maps BAR 1, with at
  -- least the bytes up to the last register, leads to a reachable state in which each register that
  -- the write accesses is mapped: the write ends as `xpcie_h2c_write` says.
  pub driver_write-bound :
      {d : Driver} (pci : Pci)
      → Reach d
      → d.bound ≡ false
      → (pci.pci_enable_device == 0) ≡ true
      → (pci.pci_request_regions == 0) ≡ true
      → 0 < base pci 1
      → 0x408c ≤ min (pci.pci_resource_len 1) int_max
      → (d' : Driver) × (probe_driver pci d ≡ done d')
        × Reach d'
        × (d'.bound ≡ true)
        × (driver_write p k c d' buf count ep ≡ done w)
  driver_write-bound pci r unbound enabled granted there long =
      let (d', probed, reached, bound, covered) =
        probe-covers pci r unbound enabled granted there long in
      (
        d',
        probed,
        reached,
        bound,
        driver_write-accessible d' true (transfer_start-mapped p d' w.desc_bus w.desc_num covered),
      )
