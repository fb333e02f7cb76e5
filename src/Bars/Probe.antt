-- ===== src/Bars/Probe.antt =====
-- Which BARs a probe leaves mapped, and that a remove unmaps them.
use xpcie.Base.{
  ℕ, zero, suc, ◌≡◌, refl, false, Bool-cases, inl, inr, List, [], ◌∷◌, ◌++◌, map, min, ltb, ◌==◌,
  ◌&&◌, if◌then◌else◌, done, arith,
}
use xpcie.Bars.{
  PciCall, enable_device, set_master, request_regions, release_regions, disable_device, iomap,
  iounmap, Pci, BarRc, absent, unmapped, mapped, int_max, Left, unmap_bars, xpcie_remove,
  map_single_bar, map_bars, set_dma_mask, xpcie_probe, register_bases,
}

-- The pointers that are not NULL.
unfoldable pub mapped_bars : List ℕ → List ℕ
mapped_bars [] = []
mapped_bars (b ∷ bars) = let rest = mapped_bars bars in if b == 0 then rest else b ∷ rest

-- `unmap_bars` unmaps them, each once and in order, and leaves NULL.
pub unmap_bars_lem :
    (bars : List ℕ) → unmap_bars bars ≡ (map (λ b. 0) bars, map iounmap (mapped_bars bars))
unfolding unmap_bars mapped_bars
unmap_bars_lem [] = refl
unmap_bars_lem (zero ∷ bars) = rw (unmap_bars_lem bars) refl
unmap_bars_lem (suc b ∷ bars) =
    let there : (suc b == 0) ≡ false = ground arith in rw (unmap_bars_lem bars, there) refl

module _ (pci : Pci) where
  open pci use {pci_enable_device, pci_request_regions, pci_resource_len, pci_iomap}

  -- The pointer to a BAR: NULL if it is not there, else what `pci_iomap` gives for its length, or
  -- for INT_MAX if it is longer.
  unfoldable pub base : (idx : ℕ) → ℕ
  base idx =
      if pci_resource_len idx == 0 then 0 else pci_iomap idx (min (pci_resource_len idx) int_max)

  map_len_lem : (n : ℕ) → (if ltb int_max n then int_max else n) ≡ min n int_max
  map_len_lem n = ground arith

  -- What `map_single_bar` leaves, with the array as given.
  abbrev pub single : (idx : ℕ) → List ℕ → Left BarRc
  single idx bars =
      if pci_resource_len idx == 0
      then record { rc = absent; bars = bars; calls = [] }
      else record {
        rc = if base idx == 0 then unmapped else mapped (min (pci_resource_len idx) int_max);
        bars = bars;
        calls = iomap idx (min (pci_resource_len idx) int_max) ∷ [];
      }

  -- Each of the two BARs, when its element of the array is NULL.
  map_single_bar-user :
      (b : ℕ) → map_single_bar pci 0 (0 ∷ b ∷ []) ≡ done (single 0 (base 0 ∷ b ∷ []))
  unfolding map_single_bar base
  map_single_bar-user b = elim (Bool-cases (pci_resource_len 0 == 0)) [
    | inl missing ↦ rw missing refl
    | inr there ↦ rw (there, map_len_lem (pci_resource_len 0)) refl
  ]

  map_single_bar-dma :
      (b : ℕ) → map_single_bar pci 1 (b ∷ 0 ∷ []) ≡ done (single 1 (b ∷ base 1 ∷ []))
  unfolding map_single_bar base
  map_single_bar-dma b = elim (Bool-cases (pci_resource_len 1 == 0)) [
    | inl missing ↦ rw missing refl
    | inr there ↦ rw (there, map_len_lem (pci_resource_len 1)) refl
  ]

  single-bars : (idx : ℕ) (bars : List ℕ) → (single idx bars).bars ≡ bars
  single-bars idx bars = elim (Bool-cases (pci_resource_len idx == 0)) [
    | inl missing ↦ rw missing refl
    | inr there ↦ rw there refl
  ]

  abbrev pub both_bars : List ℕ
  both_bars = base 0 ∷ base 1 ∷ []

  abbrev pub both_calls : List PciCall
  both_calls = (single 0 (base 0 ∷ 0 ∷ [])).calls ++ (single 1 both_bars).calls

  map_bars_lem :
      map_bars pci (0 ∷ 0 ∷ [])
      ≡ done (record { rc = register_bases both_bars; bars = both_bars; calls = both_calls })
  unfolding map_bars
  map_bars_lem =
      rw
        (
          map_single_bar-user 0,
          single-bars 0 (base 0 ∷ 0 ∷ []),
          map_single_bar-dma (base 0),
          single-bars 1 both_bars,
        )
        refl

  -- What `xpcie_probe` leaves while no BAR is mapped.
  abbrev pub probed : Left ℕ
  probed =
      if pci_enable_device == 0
      then (if pci_request_regions == 0
          then record {
            rc = 0;
            bars = both_bars;
            calls =
                (enable_device ∷ set_master ∷ request_regions ∷ [])
                ++ both_calls
                ++ (set_dma_mask pci).1;
          }
          else record {
            rc = pci_request_regions;
            bars = 0 ∷ 0 ∷ [];
            calls = enable_device ∷ set_master ∷ request_regions ∷ [];
          })
      else record { rc = pci_enable_device; bars = 0 ∷ 0 ∷ []; calls = enable_device ∷ [] }

  pub xpcie_probe-probed : xpcie_probe pci (0 ∷ 0 ∷ []) ≡ done probed
  unfolding xpcie_probe
  xpcie_probe-probed = elim (Bool-cases (pci_enable_device == 0)) [
    | inr fails ↦ rw fails refl
    | inl enabled ↦ elim (Bool-cases (pci_request_regions == 0)) [
      | inr fails ↦ rw (enabled, fails) refl
      | inl granted ↦ rw (enabled, granted, map_bars_lem) refl
    ]
  ]

  -- `xpcie_probe`, while no BAR is mapped, returns the error of `pci_enable_device` or of
  -- `pci_request_regions`, and leaves no BAR mapped then; else it succeeds, whatever becomes of the
  -- BARs and of the DMA masks, and leaves the pointers of the two BARs (`base`). In each case a
  -- remove then unmaps each of the BARs that are mapped once, leaves NULL, and releases the regions
  -- and disables the device.
  pub xpcie_probe_lem :
      (out : Left ℕ) × (xpcie_probe pci (0 ∷ 0 ∷ []) ≡ done out)
      × (out.rc ≡ (if pci_enable_device == 0 then pci_request_regions else pci_enable_device))
      × (out.bars ≡ (
          if (pci_enable_device == 0) && (pci_request_regions == 0)
          then base 0 ∷ base 1 ∷ []
          else 0 ∷ 0 ∷ []))
      × (xpcie_remove out.bars ≡ (
        0 ∷ 0 ∷ [],
        map iounmap (mapped_bars out.bars) ++ (release_regions ∷ disable_device ∷ []),
      ))
  unfolding xpcie_probe xpcie_remove
  xpcie_probe_lem = elim (Bool-cases (pci_enable_device == 0)) [
    | inr fails ↦ (
      record { rc = pci_enable_device; bars = 0 ∷ 0 ∷ []; calls = enable_device ∷ [] },
      rw fails refl,
      rw fails refl,
      rw fails refl,
      rw (unmap_bars_lem (0 ∷ 0 ∷ [])) refl,
    )
    | inl enabled ↦ elim (Bool-cases (pci_request_regions == 0)) [
      | inr fails ↦ (
        record {
          rc = pci_request_regions;
          bars = 0 ∷ 0 ∷ [];
          calls = enable_device ∷ set_master ∷ request_regions ∷ [];
        },
        rw (enabled, fails) refl,
        rw enabled refl,
        rw (enabled, fails) refl,
        rw (unmap_bars_lem (0 ∷ 0 ∷ [])) refl,
      )
      | inl granted ↦ (
        record {
          rc = 0;
          bars = both_bars;
          calls =
              (enable_device ∷ set_master ∷ request_regions ∷ [])
              ++ both_calls
              ++ (set_dma_mask pci).1;
        },
        rw (enabled, granted, map_bars_lem) refl,
        rw enabled (ground arith),
        rw (enabled, granted) refl,
        rw (unmap_bars_lem both_bars) refl,
      )
    ]
  ]
