-- ===== src/Base/Family.antt =====
-- Families with a number as index, such as threads: one element replaced, and sums.
use Prim.Native.Nat.{ℕ, zero, suc, ◌+◌, ◌≤◌, ◌<◌}
use mathlib.Core.Path.{◌≡◌, refl, ap, subst}
use mathlib.Core.Logic.{◌≢◌, inl, inr}
use mathlib.Core.Bool.{false}
use native.Mathlib.Omega.{arith}
use xpcie.Base.Test.{◌==◌, if◌then◌else◌, Bool-cases}

-- One element of a family replaced.
abbrev pub update {ℓ} : {A : Type ℓ} → (ℕ → A) → ℕ → A → ℕ → A
update f i a j = if i == j then a else f j

-- What holds of the new element, and of the others, holds of each.
pub update-all {ℓ κ} :
    {A : Type ℓ} (f : ℕ → A) (i : ℕ) (a : A) (P : ℕ → A → Type κ)
    → P i a
    → ((j : ℕ) → (i == j) ≡ false → P j (f j))
    → (j : ℕ) → P j (update f i a j)
update-all f i a P new old j = elim (Bool-cases (i == j)) [
  | inl same ↦ let e : i ≡ j = ground arith in rw same (subst (λ k. P k a) e new)
  | inr other ↦ rw other (old j other)
]

module _ {ℓ} {A : Type ℓ} (weight : A → ℕ) where
  -- The weight of the first `n` elements.
  abbrev pub total : (n : ℕ) → (ℕ → A) → ℕ
  total zero f = 0
  total (suc n) f = total n f + weight (f n)

  total-update_past : (n i : ℕ) (f : ℕ → A) (a : A) → n ≤ i → total n (update f i a) ≡ total n f
  total-update_past zero i f a le = refl
  total-update_past (suc n) i f a le =
      let other : (i == n) ≡ false = ground arith in
      rw (other, total-update_past n i f a (omega arith)) refl

  pub total-update :
      (n i : ℕ) (f : ℕ → A) (a : A)
      → i < n
      → total n (update f i a) + weight (f i) ≡ total n f + weight a
  total-update zero i f a lt = absurd (omega arith)
  total-update (suc n) i f a lt = elim (Bool-cases (i == n)) [
    | inl same ↦
        let e : i ≡ n = ground arith in
        rw same (omega (arith, total-update_past n i f a (omega arith), ap (λ k. weight (f k)) e))
    | inr other ↦ rw other (omega (arith, total-update n i f a (ground arith)))
  ]

  -- No element weighs more than all.
  pub total-le : (n : ℕ) (f : ℕ → A) (j : ℕ) → j < n → weight (f j) ≤ total n f
  total-le zero f j lt = absurd (omega arith)
  total-le (suc n) f j lt = elim (Bool-cases (j == n)) [
    | inl same ↦ let e : j ≡ n = ground arith in omega (arith, ap (λ k. weight (f k)) e)
    | inr other ↦ omega (arith, total-le n f j (ground arith))
  ]

  -- Nor do two.
  pub total-two :
      (n : ℕ) (f : ℕ → A) (i j : ℕ)
      → i < n
      → j < n
      → i ≢ j
      → weight (f i) + weight (f j) ≤ total n f
  total-two zero f i j hi hj other = absurd (omega arith)
  total-two (suc n) f i j hi hj other = elim (Bool-cases (i == n)) [
    | inl same ↦
        let e : i ≡ n = ground arith in
        omega (arith, ap (λ k. weight (f k)) e, total-le n f j (ground arith))
    | inr below ↦ elim (Bool-cases (j == n)) [
      | inl same ↦
          let e : j ≡ n = ground arith in
          omega (arith, ap (λ k. weight (f k)) e, total-le n f i (ground arith))
      | inr both ↦ omega (arith, total-two n f i j (ground arith) (ground arith) other)
    ]
  ]
