-- ===== src/Tests/Engine.antt =====
-- A stopped engine that ran one list before, started on three descriptors at 0x1_0000_2000.
use xpcie.Base.{ℕ, ◌+◌, ◌*◌, ◌/◌, ◌%◌, ◌^◌, ◌<◌, ◌≡◌, refl, List, [], ◌∷◌, ◌++◌, arith}
use xpcie.Platform.{Platform}
use xpcie.Kernel.{Event}
use xpcie.Engine.{transfer_start}
use xpcie.Engine.Run.{Device, play, transfer_start_lem}
use xpcie.Engine.Race.{Interleave, transfer_start-race}
use xpcie.Tests.World.{machine}

abbrev stopped : Device
stopped = record {
  control_word = 0;
  desc_lo = 7;
  desc_hi = 7;
  desc_adjacent = 7;
  runs = (0x9000, 0) ∷ [];
}

-- The bytes of a word in the other order.
abbrev swapped : ℕ → ℕ
swapped x =
    x % 2 ^ 8 * 2 ^ 24
    + x / 2 ^ 8 % 2 ^ 8 * 2 ^ 16
    + x / 2 ^ 16 % 2 ^ 8 * 2 ^ 8
    + x / 2 ^ 24 % 2 ^ 8

swapped_twice : (x : ℕ) → x < 2 ^ 32 → swapped (swapped x) ≡ x
swapped_twice x small = omega arith

-- A big-endian machine.
abbrev big_machine : Platform
big_machine = record machine {
  cpu_to_le32 = swapped;
  le32_to_cpu = swapped;
  le32_to_cpu-cpu_to_le32 = swapped_twice;
  cpu_to_le32-zero = refl;
}

-- Its engine runs at 0x0100_0000_0020_0000 in place of 0x1_0000_2000.
transfer_start_lem_example :
    let out = play (transfer_start big_machine 0x1_0000_2000 3) stopped in
    (hi : ℕ) × (lo : ℕ) × (lo < 2 ^ 32)
    × (0x1_0000_2000 ≡ hi * 2 ^ 32 + lo)
    × (out.runs ≡ (0x9000, 0) ∷ (swapped hi * 2 ^ 32 + swapped lo, 0x200_0000) ∷ [])
    × (out.control_word ≡ 0)
transfer_start_lem_example =
    transfer_start_lem big_machine stopped 0x1_0000_2000 3 (omega arith) refl

-- Two lists, at addresses that differ in both words.
transfer_start-race_example :
    ((play
        (transfer_start machine 0x1_0000_2000 3 ++ transfer_start machine 0x2_0000_4000 1)
        stopped).runs
      ≡ (0x9000, 0) ∷ (0x1_0000_2000, 2) ∷ (0x2_0000_4000, 0) ∷ [])
    × ((events : List Event) × Interleave
          (transfer_start machine 0x1_0000_2000 3)
          (transfer_start machine 0x2_0000_4000 1)
          events
        × ((play events stopped).runs ≡ (0x9000, 0) ∷ (0x1_0000_4000, 0) ∷ (0x1_0000_4000, 0) ∷ []))
transfer_start-race_example =
    transfer_start-race machine (λ x. refl) stopped 0x1_0000_2000 0x2_0000_4000 3 1 (omega arith)
      (omega arith) refl
