-- ===== src/Engine/Run.antt =====
-- What the register accesses of `transfer_start` make the engine do.
use xpcie.Base.{
  ℕ, ◌+◌, ◌-◌, ◌*◌, ◌%◌, ◌^◌, ◌<◌, ◌≡◌, ◌∙◌, ap, ap₂, sym, refl, List, [], ◌∷◌, ◌++◌, ltb, min,
  ◌==◌, if◌then◌else◌, ◌&&◌, arith,
}
use xpcie.Platform.{Platform, pci_dma_h, pci_dma_l}
use xpcie.Kernel.{Register, Event, write32}
use xpcie.Desc.{clamp_adj}
use xpcie.Desc.Address.{pci_dma_h_lem, pci_dma_l_lem}
use xpcie.Engine.{start_word, engine_start, engine_stop, transfer_start}

-- The registers of the engine that a write sets, and the lists that it was started on, each as the
-- bus address of its first descriptor and the count of adjacent ones.
pub record Device : Type 0 where
  pub control_word : ℕ
  pub desc_lo : ℕ
  pub desc_hi : ℕ
  pub desc_adjacent : ℕ
  pub runs : List (ℕ × ℕ)

-- One call. The engine starts when the bit XDMA_CTRL_RUN_STOP of its control register goes from 0
-- to 1.
unfoldable pub device_step : Event → Device → Device
device_step (write32 Register.control w) d =
    let starts = (d.control_word % 2 == 0) && (w % 2 == 1) in
    record d {
      control_word = w;
      runs =
          if starts
          then d.runs ++ ((d.desc_hi * 2 ^ 32 + d.desc_lo, d.desc_adjacent) ∷ [])
          else d.runs;
    }
device_step (write32 Register.status w) d = d
device_step (write32 Register.first_desc_lo w) d = record d { desc_lo = w }
device_step (write32 Register.first_desc_hi w) d = record d { desc_hi = w }
device_step (write32 Register.first_desc_adjacent w) d = record d { desc_adjacent = w }
device_step event d = d

unfoldable pub play : List Event → Device → Device
play [] d = d
play (e ∷ events) d = play events (device_step e d)

pub play-append : (xs ys : List Event) (d : Device) → play (xs ++ ys) d ≡ play ys (play xs d)
unfolding play
play-append [] ys d = refl
play-append (x ∷ xs) ys d = play-append xs ys (device_step x d)

pub start_word-odd : start_word % 2 ≡ 1
unfolding start_word
start_word-odd = refl

pub adjacent_count : (n : ℕ) → (if ltb 0 n then clamp_adj n else 0) ≡ min (n - 1) 15
unfolding clamp_adj
adjacent_count n = ground arith

-- On any processor, `transfer_start` on an engine that is stopped starts it once and leaves it
-- stopped. It runs on the high and the low word of the 64-bit bus address `desc_bus`, with the
-- count of the descriptors after the first one, at most 15, but each as `cpu_to_le32` changes it.
pub transfer_start_lem :
    (p : Platform) (d : Device) (desc_bus n : ℕ)
    → desc_bus < 2 ^ 64
    → d.control_word % 2 ≡ 0
    → let out = play (transfer_start p desc_bus n) d in
      (hi : ℕ) × (lo : ℕ) × (lo < 2 ^ 32)
      × (desc_bus ≡ hi * 2 ^ 32 + lo)
      × (out.runs
          ≡ d.runs
            ++ ((p.cpu_to_le32 hi * 2 ^ 32 + p.cpu_to_le32 lo, p.cpu_to_le32 (min (n - 1) 15))
                ∷ []))
      × (out.control_word ≡ 0)
unfolding transfer_start play device_step engine_start engine_stop
transfer_start_lem p d desc_bus n fits stopped = (
  pci_dma_h desc_bus,
  pci_dma_l desc_bus,
  omega (arith, pci_dma_l_lem desc_bus),
  omega (arith, pci_dma_h_lem desc_bus, pci_dma_l_lem desc_bus),
  rw (stopped, start_word-odd, adjacent_count n) refl,
  refl,
)

-- On a little-endian processor the engine runs on the list at the bus address `desc_bus`.
pub transfer_start-little :
    (p : Platform) (d : Device) (desc_bus n : ℕ)
    → ((x : ℕ) → p.cpu_to_le32 x ≡ x)
    → desc_bus < 2 ^ 64
    → d.control_word % 2 ≡ 0
    → let out = play (transfer_start p desc_bus n) d in
      (out.runs ≡ d.runs ++ ((desc_bus, min (n - 1) 15) ∷ [])) × (out.control_word ≡ 0)
transfer_start-little p d desc_bus n little fits stopped =
    let (hi, lo, low, address, runs, halted) = transfer_start_lem p d desc_bus n fits stopped in
    (
      runs
          ∙ ap
              (λ h.
                d.runs ++ ((h * 2 ^ 32 + p.cpu_to_le32 lo, p.cpu_to_le32 (min (n - 1) 15)) ∷ []))
              (little hi)
          ∙ ap (λ l. d.runs ++ ((hi * 2 ^ 32 + l, p.cpu_to_le32 (min (n - 1) 15)) ∷ [])) (little lo)
          ∙ ap₂ (λ a c. d.runs ++ ((a, c) ∷ [])) (sym address) (little (min (n - 1) 15)),
      halted,
    )
