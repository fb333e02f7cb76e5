-- ===== src/Base.antt =====
-- The names that the modules share: the libraries', passed on, and those of the children: C's
-- comparisons (Test), lists as arrays (Array), bit fields (Bits), the outcomes of a call (Outcome)
-- and families such as threads (Family).
mod Test
mod Array
mod Bits
mod Outcome
mod Family
pub use Test.*
pub use Array.*
pub use Bits.*
pub use Outcome.*
pub use Family.*
pub use Prim.Native.Nat.{ℕ, zero, suc, ◌+◌, ◌-◌, ◌*◌, ◌/◌, ◌%◌, ◌^◌, ◌≤◌, ◌<◌, min, max}
pub use Prim.Native.Nat.{bit_and, bit_or}
pub use mathlib.Core.Path.{◌≡◌, refl, sym, ap, ap₂, ◌∙◌}
pub use mathlib.Core.Logic.{◌≢◌, ◌↔◌, ◌⊎◌, inl, inr}
pub use mathlib.Core.Bool.{Bool, true, false, not, ◌&&◌, ◌||◌}
pub use mathlib.Core.Option.{Option, none, some}
pub use mathlib.Core.List.{List, [], ◌∷◌, ◌++◌, map, append-nil, append_assoc}
pub use native.Mathlib.Omega.{arith}
