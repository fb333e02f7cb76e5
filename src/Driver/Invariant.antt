-- ===== src/Driver/Invariant.antt =====
-- In every reachable state the live mappings are those that the array `bar` points to.
use mathlib.Core.Path.{subst}
use xpcie.Base.{
  append-nil, ℕ, zero, suc, ◌≡◌, ap, ap₂, ◌∙◌, sym, refl, true, false, Bool-cases, ◌⊎◌, inl, inr,
  List, [], ◌∷◌, ◌++◌, min, ◌==◌, if◌then◌else◌, done, arith,
}
use xpcie.Bars.{Pci, PciCall, int_max, register_bases, xpcie_remove, set_dma_mask, unmap_bars}
use xpcie.Bars.Probe.{base, probed, both_bars, both_calls, single, xpcie_probe-probed}
use xpcie.Driver.{
  Driver, Mapping, unmap_at, call_mappings, mappings, probe_driver, remove_driver, Step, probe,
  remove, Reach, start, later,
}

-- The mapping at an element of `bar`, with its length.
abbrev pub mapping_at : (b len : ℕ) → List Mapping
mapping_at b len = if b == 0 then [] else (b, len) ∷ []

-- Two BARs with lengths `l0` and `l1`, where an element is not NULL.
pub record IsConsistent (d : Driver) : Type 0 where
  pub b0 : ℕ
  pub b1 : ℕ
  pub l0 : ℕ
  pub l1 : ℕ
  pub array : d.bars ≡ b0 ∷ b1 ∷ []
  pub mapped : d.live ≡ mapping_at b1 l1 ++ mapping_at b0 l0
  pub unbound : d.bound ≡ false → (b0 ≡ 0) × (b1 ≡ 0)
  pub registers : d.bound ≡ true → d.bases ≡ register_bases d.bars

mappings-append :
    (f : ℕ → ℕ → ℕ) (xs ys : List PciCall) (live : List Mapping)
    → mappings f (xs ++ ys) live ≡ mappings f ys (mappings f xs live)
unfolding mappings
mappings-append f [] ys live = refl
mappings-append f (x ∷ xs) ys live = mappings-append f xs ys (call_mappings f x live)

module _ (pci : Pci) where
  open pci use {
    pci_resource_len, pci_iomap, pci_enable_device, pci_request_regions, pci_set_dma_mask,
  }

  abbrev map_len : ℕ → ℕ
  map_len idx = min (pci_resource_len idx) int_max

  mappings-single :
      (idx : ℕ) (bars : List ℕ) (live : List Mapping)
      → mappings pci_iomap (single pci idx bars).calls live
        ≡ mapping_at (base pci idx) (map_len idx) ++ live
  unfolding base mappings call_mappings
  mappings-single idx bars live = elim (Bool-cases (pci_resource_len idx == 0)) [
    | inl missing ↦ rw missing refl
    | inr there ↦ rw there (elim (Bool-cases (pci_iomap idx (map_len idx) == 0)) [
      | inl null ↦ rw null refl
      | inr some ↦ rw some refl
    ])
  ]

  mappings-dma : (live : List Mapping) → mappings pci_iomap (set_dma_mask pci).1 live ≡ live
  unfolding mappings set_dma_mask call_mappings
  mappings-dma live = elim (Bool-cases (pci_set_dma_mask 64 == 0)) [
    | inl wide ↦ rw wide refl
    | inr narrow ↦ rw narrow (elim (Bool-cases (pci_set_dma_mask 32 == 0)) [
      | inl some ↦ rw some refl
      | inr none ↦ rw none refl
    ])
  ]

  mappings-both :
      mappings pci_iomap (both_calls pci ++ (set_dma_mask pci).1) []
      ≡ mapping_at (base pci 1) (map_len 1) ++ mapping_at (base pci 0) (map_len 0)
  mappings-both =
      mappings-append pci_iomap (both_calls pci) (set_dma_mask pci).1 []
      ∙ mappings-dma _
      ∙ mappings-append pci_iomap (single pci 0 (base pci 0 ∷ 0 ∷ [])).calls
          (single pci 1 (both_bars pci)).calls []
      ∙ mappings-single 1 (both_bars pci) _
      ∙ ap (λ t. mapping_at (base pci 1) (map_len 1) ++ t)
          (mappings-single 0 (base pci 0 ∷ 0 ∷ []) [] ∙ append-nil _)

  -- The state after a probe of a device that has no BAR mapped.
  abbrev pub after : Driver → Driver
  after d = record {
    bars = (probed pci).bars;
    bases = if (probed pci).rc == 0 then register_bases (probed pci).bars else d.bases;
    bound = (probed pci).rc == 0;
    live = mappings pci_iomap (probed pci).calls d.live;
  }

  pub probe_driver-after : (d : Driver) → d.bars ≡ 0 ∷ 0 ∷ [] → probe_driver pci d ≡ done (after d)
  unfolding probe_driver
  probe_driver-after d e = rw (e, xpcie_probe-probed pci) refl

  -- A probe that succeeds, and the two that fail.
  pub after-bound :
      (d : Driver)
      → d.live ≡ []
      → (pci_enable_device == 0) ≡ true
      → (pci_request_regions == 0) ≡ true
      → after d ≡ record {
        bars = both_bars pci;
        bases = register_bases (both_bars pci);
        bound = true;
        live = mapping_at (base pci 1) (map_len 1) ++ mapping_at (base pci 0) (map_len 0);
      }
  unfolding mappings call_mappings
  after-bound d none enable regions = rw (enable, regions, none, mappings-both) refl

  after-fails :
      (d : Driver)
      → d.bars ≡ 0 ∷ 0 ∷ []
      → d.live ≡ []
      → ((pci_enable_device == 0) ≡ false)
        ⊎ (((pci_enable_device == 0) ≡ true) × ((pci_request_regions == 0) ≡ false))
      → after d ≡ record { bars = 0 ∷ 0 ∷ []; bases = d.bases; bound = false; live = [] }
  unfolding mappings call_mappings
  after-fails d array none (inl fails) = rw (fails, fails, none) refl
  after-fails d array none (inr (enabled, fails)) = rw (enabled, fails, fails, none) refl

  after-IsConsistent : (d : Driver) → d.bars ≡ 0 ∷ 0 ∷ [] → d.live ≡ [] → IsConsistent (after d)
  unfolding mappings call_mappings
  after-IsConsistent d array live = elim (Bool-cases (pci_enable_device == 0)) [
    | inr fails ↦ subst IsConsistent (sym (after-fails d array live (inl fails))) (record {
      b0 = 0;
      b1 = 0;
      l0 = 0;
      l1 = 0;
      array = refl;
      mapped = refl;
      unbound = λ h. (refl, refl);
      registers = λ h. cc;
    })
    | inl enabled ↦ elim (Bool-cases (pci_request_regions == 0)) [
      | inr fails ↦
          subst IsConsistent (sym (after-fails d array live (inr (enabled, fails)))) (record {
            b0 = 0;
            b1 = 0;
            l0 = 0;
            l1 = 0;
            array = refl;
            mapped = refl;
            unbound = λ h. (refl, refl);
            registers = λ h. cc;
          })
      | inl granted ↦ subst IsConsistent (sym (after-bound d live enabled granted)) (record {
        b0 = base pci 0;
        b1 = base pci 1;
        l0 = map_len 0;
        l1 = map_len 1;
        array = refl;
        mapped = refl;
        unbound = λ h. cc;
        registers = λ h. refl;
      })
    ]
  ]

-- Without the device, nothing is mapped.
pub unbound-live :
    (d : Driver) → IsConsistent d → d.bound ≡ false → (d.bars ≡ 0 ∷ 0 ∷ []) × (d.live ≡ [])
unbound-live d c unbound =
    let (z0, z1) = c.unbound unbound in
    (
      c.array ∙ ap₂ (λ x y. x ∷ y ∷ []) z0 z1,
      c.mapped ∙ ap₂ (λ x y. mapping_at y c.l1 ++ mapping_at x c.l0) z0 z1,
    )

-- After a remove no BAR is mapped.
remove_driver-live :
    (b0 b1 l0 l1 : ℕ)
    → ((xpcie_remove (b0 ∷ b1 ∷ [])).0 ≡ 0 ∷ 0 ∷ [])
      × (mappings
            (λ bar len. 0)
            (xpcie_remove (b0 ∷ b1 ∷ [])).1
            (mapping_at b1 l1 ++ mapping_at b0 l0)
          ≡ [])
unfolding xpcie_remove unmap_bars mappings call_mappings unmap_at
remove_driver-live zero zero l0 l1 = (refl, refl)
remove_driver-live zero (suc b1) l0 l1 = (ground arith, ground arith)
remove_driver-live (suc b0) zero l0 l1 = (ground arith, ground arith)
remove_driver-live (suc b0) (suc b1) l0 l1 = (ground arith, ground arith)

probe-IsConsistent :
    (pci : Pci) (d d' : Driver)
    → d.bound ≡ false
    → probe_driver pci d ≡ done d'
    → IsConsistent d
    → IsConsistent d'
probe-IsConsistent pci d d' unbound e c =
    let (array, live) = unbound-live d c unbound in
    let same : after pci d ≡ d' = cc (probe_driver-after pci d array, e) in
    subst IsConsistent same (after-IsConsistent pci d array live)

remove-IsConsistent : (d : Driver) → IsConsistent d → IsConsistent (remove_driver d)
unfolding remove_driver
remove-IsConsistent d c =
    let (array, live) = remove_driver-live c.b0 c.b1 c.l0 c.l1 in
    record {
      b0 = 0;
      b1 = 0;
      l0 = 0;
      l1 = 0;
      array = ap (λ t. (xpcie_remove t).0) c.array ∙ array;
      mapped = ap₂ (λ t u. mappings (λ bar len. 0) (xpcie_remove t).1 u) c.array c.mapped ∙ live;
      unbound = λ h. (refl, refl);
      registers = λ h. cc;
    }

Step-IsConsistent : {d d' : Driver} → Step d d' → IsConsistent d → IsConsistent d'
Step-IsConsistent {d} {d'} (probe pci unbound e) c = probe-IsConsistent pci d d' unbound e c
Step-IsConsistent {d} (remove bound) c = remove-IsConsistent d c

-- In every state that probes and removes of the device reach, the live mappings are those of the
-- elements of the array `bar` that are not NULL; none is there while the device is not bound, and
-- while it is, the pointers to the registers go by that array.
pub Reach-IsConsistent : {d : Driver} → Reach d → IsConsistent d
Reach-IsConsistent start = record {
  b0 = 0;
  b1 = 0;
  l0 = 0;
  l1 = 0;
  array = refl;
  mapped = refl;
  unbound = λ h. (refl, refl);
  registers = λ h. cc;
}
Reach-IsConsistent (later r step) = Step-IsConsistent step (Reach-IsConsistent r)
