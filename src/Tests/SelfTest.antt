-- ===== src/Tests/SelfTest.antt =====
-- A descriptor at bus address 0x1_0000_2000, with data at 0x2_0000_0000 or without memory for it.
use xpcie.Base.{ℕ, ◌<◌, ◌≡◌, refl, true, some, [], ◌∷◌, get_elem?, arith}
use xpcie.Desc.{Desc}
use xpcie.Engine.Run.{Device, play}
use xpcie.Transfer.Moves.{moves}
use xpcie.Transfer.Walk.{walk, at_bus}
use xpcie.SelfTest.{test_h2c}
use xpcie.SelfTest.Transfer.{test_h2c_lem}
use xpcie.Tests.World.{machine}

abbrev idle_engine : Device
idle_engine = record { control_word = 0; desc_lo = 0; desc_hi = 0; desc_adjacent = 0; runs = [] }

test_h2c_lem_example :
    let out = test_h2c machine (some 0x1_0000_2000) (some 0x2_0000_0000) in
    let end = play out.events idle_engine in
    (end.runs ≡ (0x1_0000_2000, 0) ∷ [])
    × (end.control_word ≡ 0)
    × ((desc : Desc) × (out.desc ≡ some desc)
        × (walk machine true 1 (at_bus 0x1_0000_2000 (desc ∷ [])) 0x1_0000_2000
            ≡ some (moves 0x2_0000_0000 0 128)))
    × ((j : ℕ) → j < 128 → get_elem? out.data_virt j ≡ some j)
test_h2c_lem_example =
    test_h2c_lem machine (λ x. refl) idle_engine 0x1_0000_2000 0x2_0000_0000 refl (omega arith)
      (omega arith)
