-- ===== src/Engine/Race.antt =====
-- Two calls of `transfer_start` at the same time: xpcie_h2c_write of driver/xpcie.c takes no lock, so
-- the accesses of two writes to the registers can come in any order that keeps each one's own.
use xpcie.Base.{
  ℕ, ◌+◌, ◌-◌, ◌*◌, ◌/◌, ◌%◌, ◌^◌, ◌<◌, ◌≡◌, ◌∙◌, ap, List, [], ◌∷◌, ◌++◌, append_assoc, min, ltb,
  if◌then◌else◌, arith,
}
use xpcie.Platform.{Platform, pci_dma_h, pci_dma_l}
use xpcie.Kernel.{Event}
use xpcie.Desc.{clamp_adj}
use xpcie.Desc.Address.{pci_dma_h_lem, pci_dma_l_lem}
use xpcie.Engine.{engine_start, engine_stop, transfer_start}
use xpcie.Engine.Run.{
  Device, play, device_step, start_word-odd, adjacent_count, transfer_start-little, play-append,
}

-- `Interleave xs ys zs`: `zs` is made of `xs` and `ys`, each in its order.
pub data Interleave : List Event → List Event → List Event → Type 0 where
  ended : Interleave [] [] []
  left : {x : Event} {xs ys zs : List Event} → Interleave xs ys zs → Interleave (x ∷ xs) ys (x ∷ zs)
  right :
      {y : Event} {xs ys zs : List Event} → Interleave xs ys zs → Interleave xs (y ∷ ys) (y ∷ zs)

all_right : (ys : List Event) → Interleave [] ys ys
all_right [] = ended
all_right (y ∷ ys) = right (all_right ys)

one_by_one : (xs ys : List Event) → Interleave xs ys (xs ++ ys)
one_by_one [] ys = all_right ys
one_by_one (x ∷ xs) ys = left (one_by_one xs ys)

module _ (p : Platform) (little : (x : ℕ) → p.cpu_to_le32 x ≡ x) where
  -- The runs of two calls, one after the other.
  transfer_start-twice :
      (d : Device) (a b n m : ℕ)
      → a < 2 ^ 64
      → b < 2 ^ 64
      → d.control_word % 2 ≡ 0
      → (play (transfer_start p a n ++ transfer_start p b m) d).runs
        ≡ d.runs ++ ((a, min (n - 1) 15) ∷ (b, min (m - 1) 15) ∷ [])
  transfer_start-twice d a b n m ha hb stopped =
      let first = transfer_start-little p d a n little ha stopped in
      let between = play (transfer_start p a n) d in
      let halted : between.control_word % 2 ≡ 0 = omega (arith, first.1) in
      let second = transfer_start-little p between b m little hb halted in
      ap (λ (e : Device). e.runs) (play-append (transfer_start p a n) (transfer_start p b m) d)
      ∙ second.0
      ∙ ap (λ t. t ++ ((b, min (m - 1) 15) ∷ [])) first.0
      ∙ append_assoc d.runs ((a, min (n - 1) 15) ∷ []) ((b, min (m - 1) 15) ∷ [])

  -- On a little-endian processor, for a stopped engine and two lists at 64-bit bus addresses `a`
  -- and `b`: when one call of `transfer_start` follows the other the engine runs once on each list;
  -- but there is an order of the accesses of the two calls, which nothing in the driver excludes,
  -- in which it runs twice on the address made of the upper word of `a` and the lower word of `b`,
  -- both times with the adjacent count of the second list.
  pub transfer_start-race :
      (d : Device) (a b n m : ℕ)
      → a < 2 ^ 64
      → b < 2 ^ 64
      → d.control_word % 2 ≡ 0
      → ((play (transfer_start p a n ++ transfer_start p b m) d).runs
          ≡ d.runs ++ ((a, min (n - 1) 15) ∷ (b, min (m - 1) 15) ∷ []))
        × ((events : List Event) × Interleave (transfer_start p a n) (transfer_start p b m) events
            × (let mixed = a / 2 ^ 32 * 2 ^ 32 + b % 2 ^ 32 in
                (play events d).runs
                ≡ d.runs ++ ((mixed, min (m - 1) 15) ∷ (mixed, min (m - 1) 15) ∷ [])))
  unfolding transfer_start play device_step engine_start engine_stop
  transfer_start-race d a b n m ha hb stopped =
      let count = little (if ltb 0 m then clamp_adj m else 0) ∙ adjacent_count m in
      let mixed : pci_dma_h a * 2 ^ 32 + pci_dma_l b ≡ a / 2 ^ 32 * 2 ^ 32 + b % 2 ^ 32 =
        omega (arith, pci_dma_h_lem a, pci_dma_l_lem b) in
      let run : ℕ × ℕ = (a / 2 ^ 32 * 2 ^ 32 + b % 2 ^ 32, min (m - 1) 15) in
      (
        transfer_start-twice d a b n m ha hb stopped,
        (
          _,
          left (left (left (right (right (right (right (one_by_one _ _))))))),
          rw (stopped, start_word-odd, little (pci_dma_h a), little (pci_dma_l b), count, mixed)
              (append_assoc d.runs (run ∷ []) (run ∷ [])),
        ),
      )
