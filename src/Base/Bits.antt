-- ===== src/Base/Bits.antt =====
-- `bit_and` and `bit_or` at variables: a word of two fields is treated field by field.
use Prim.Native.Nat.{ℕ, zero, suc, ◌+◌, ◌-◌, ◌*◌, ◌/◌, ◌%◌, ◌^◌, ◌≤◌, ◌<◌, min, max}
use Prim.Native.Nat.{digits, bitwise, bit_and, bit_or, bit_and-bitwise, bit_or-bitwise}
use mathlib.Core.Path.{◌≡◌, refl, sym, ap, ap₂, ◌∙◌}
use native.Mathlib.Nat.{pow-suc, one-le-pow, mod-lt, div-add-mod'}
use native.Mathlib.Omega.{arith}

-- What a digit operation gives does not depend on the count of digits, if that is enough.
module _ (rest : ℕ → ℕ) (op : ℕ → ℕ → ℕ) where
  digits_enough : (a k l b : ℕ) → a ≤ k → a ≤ l → digits rest op k a b ≡ digits rest op l a b
  digits_enough a zero zero b hk hl = refl
  digits_enough zero zero (suc l) b hk hl = refl
  digits_enough (suc a) zero (suc l) b hk hl = absurd (omega arith)
  digits_enough zero (suc k) zero b hk hl = refl
  digits_enough (suc a) (suc k) zero b hk hl = absurd (omega arith)
  digits_enough zero (suc k) (suc l) b hk hl = refl
  digits_enough (suc a) (suc k) (suc l) b hk hl =
      ap (λ t. t * 2 + op (suc a % 2) (b % 2))
        (digits_enough (suc a / 2) k l (b / 2) (omega arith) (omega arith))

  -- The lowest digit and the others, for an operation that agrees with `rest` at 0.
  bitwise_low :
      (a b : ℕ)
      → (a ≡ 0 → rest b ≡ rest (b / 2) * 2 + op 0 (b % 2))
      → bitwise rest op a b ≡ bitwise rest op (a / 2) (b / 2) * 2 + op (a % 2) (b % 2)
  bitwise_low zero b agree = agree refl
  bitwise_low (suc a) b agree =
      ap (λ t. t * 2 + op (suc a % 2) (b % 2))
        (digits_enough (suc a / 2) a (suc a / 2) (b / 2) (omega arith) (omega arith))

bit_and_low : (a b : ℕ) → bit_and a b ≡ bit_and (a / 2) (b / 2) * 2 + min (a % 2) (b % 2)
bit_and_low a b = simp bit_and-bitwise (bitwise_low (λ _. 0) min a b (λ _. omega arith))

bit_or_low : (a b : ℕ) → bit_or a b ≡ bit_or (a / 2) (b / 2) * 2 + max (a % 2) (b % 2)
bit_or_low a b = simp bit_or-bitwise (bitwise_low (λ y. y) max a b (λ _. omega arith))

pub zero-bit_and : (b : ℕ) → bit_and 0 b ≡ 0
zero-bit_and b = bit_and-bitwise 0 b

pub zero-bit_or : (b : ℕ) → bit_or 0 b ≡ b
zero-bit_or b = bit_or-bitwise 0 b

-- A number is at most `k` digits long.
bit_and-zero_upto : (k a : ℕ) → a ≤ k → bit_and a 0 ≡ 0
bit_and-zero_upto k zero h = refl
bit_and-zero_upto zero (suc a) h = absurd (omega arith)
bit_and-zero_upto (suc k) (suc a) h =
    omega (arith, bit_and_low (suc a) 0, bit_and-zero_upto k (suc a / 2) (omega arith))

bit_or-zero_upto : (k a : ℕ) → a ≤ k → bit_or a 0 ≡ a
bit_or-zero_upto k zero h = refl
bit_or-zero_upto zero (suc a) h = absurd (omega arith)
bit_or-zero_upto (suc k) (suc a) h =
    omega (arith, bit_or_low (suc a) 0, bit_or-zero_upto k (suc a / 2) (omega arith))

pub bit_and-zero : (a : ℕ) → bit_and a 0 ≡ 0
bit_and-zero a = bit_and-zero_upto a a (omega arith)

pub bit_or-zero : (a : ℕ) → bit_or a 0 ≡ a
bit_or-zero a = bit_or-zero_upto a a (omega arith)

double : (h k : ℕ) → h * 2 ^ suc k ≡ 2 * (h * 2 ^ k)
double h k = omega (arith, ap (λ (t : ℕ). h * t) (pow-suc 2 k))

-- Two words, each of a high field and a low field of `k` bits.
module _ (h g : ℕ) where
  pub bit_and_fields :
      (k l m : ℕ)
      → l < 2 ^ k
      → m < 2 ^ k
      → bit_and (h * 2 ^ k + l) (g * 2 ^ k + m) ≡ bit_and h g * 2 ^ k + bit_and l m
  bit_and_fields zero l m p q =
      let el : l ≡ 0 = omega arith in
      let em : m ≡ 0 = omega arith in
      let eh : h * 2 ^ 0 + 0 ≡ h = omega arith in
      let eg : g * 2 ^ 0 + 0 ≡ g = omega arith in
      rw (el, em, eh, eg) (omega (arith, zero-bit_and 0))
  bit_and_fields (suc k) l m p q =
      let eh : (h * 2 ^ suc k + l) / 2 ≡ h * 2 ^ k + l / 2 = omega (arith, double h k) in
      let eg : (g * 2 ^ suc k + m) / 2 ≡ g * 2 ^ k + m / 2 = omega (arith, double g k) in
      let step = bit_and_low (h * 2 ^ suc k + l) (g * 2 ^ suc k + m) in
      let ih =
        bit_and_fields k (l / 2) (m / 2) (omega (arith, pow-suc 2 k))
          (omega (arith, pow-suc 2 k)) in
      omega (
        arith,
        step
            ∙ ap₂ (λ s t. bit_and s t * 2 + min ((h * 2 ^ suc k + l) % 2) ((g * 2 ^ suc k + m) % 2))
                eh eg,
        ih,
        bit_and_low l m,
        double h k,
        double g k,
        double (bit_and h g) k,
      )

  pub bit_or_fields :
      (k l m : ℕ)
      → l < 2 ^ k
      → m < 2 ^ k
      → bit_or (h * 2 ^ k + l) (g * 2 ^ k + m) ≡ bit_or h g * 2 ^ k + bit_or l m
  bit_or_fields zero l m p q =
      let el : l ≡ 0 = omega arith in
      let em : m ≡ 0 = omega arith in
      let eh : h * 2 ^ 0 + 0 ≡ h = omega arith in
      let eg : g * 2 ^ 0 + 0 ≡ g = omega arith in rw (el, em, eh, eg) (omega (arith, zero-bit_or 0))
  bit_or_fields (suc k) l m p q =
      let eh : (h * 2 ^ suc k + l) / 2 ≡ h * 2 ^ k + l / 2 = omega (arith, double h k) in
      let eg : (g * 2 ^ suc k + m) / 2 ≡ g * 2 ^ k + m / 2 = omega (arith, double g k) in
      let step = bit_or_low (h * 2 ^ suc k + l) (g * 2 ^ suc k + m) in
      let ih =
        bit_or_fields k (l / 2) (m / 2) (omega (arith, pow-suc 2 k)) (omega (arith, pow-suc 2 k)) in
      omega (
        arith,
        step
            ∙ ap₂ (λ s t. bit_or s t * 2 + max ((h * 2 ^ suc k + l) % 2) ((g * 2 ^ suc k + m) % 2))
                eh eg,
        ih,
        bit_or_low l m,
        double h k,
        double g k,
        double (bit_or h g) k,
      )

-- A mask of ones keeps a field that fits it.
bit_and_ones : (k l : ℕ) → l < 2 ^ k → bit_and l (2 ^ k - 1) ≡ l
bit_and_ones zero l h = let e : l ≡ 0 = omega arith in rw (e, zero-bit_and)
bit_and_ones (suc k) l h =
    let eh : l ≡ l / 2 * 2 ^ 1 + l % 2 = omega arith in
    let pos = one-le-pow k 2 (omega arith) in
    let eg : 2 ^ suc k - 1 ≡ (2 ^ k - 1) * 2 ^ 1 + 1 = omega (arith, pow-suc 2 k) in
    omega (
      arith,
      ap₂ bit_and eh eg,
      bit_and_fields (l / 2) (2 ^ k - 1) 1 (l % 2) 1 (omega arith) (omega arith),
      bit_and_ones k (l / 2) (omega (arith, pow-suc 2 k)),
      bit_and_low (l % 2) 1,
      zero-bit_and 0,
      ap (λ (t : ℕ). bit_and t 0) (div2 (l % 2) (omega arith)),
    )
  where
    div2 : (n : ℕ) → n < 2 → n / 2 ≡ 0
    div2 n p = omega arith

-- `x & (2 ^ k - 1)` is the low field.
pub bit_and_mask : (k x : ℕ) → bit_and x (2 ^ k - 1) ≡ x % 2 ^ k
bit_and_mask k x =
    let pos = one-le-pow k 2 (omega arith) in
    let ex : x ≡ x / 2 ^ k * 2 ^ k + x % 2 ^ k = sym (div-add-mod' x (2 ^ k)) in
    let em : 2 ^ k - 1 ≡ 0 * 2 ^ k + (2 ^ k - 1) = omega arith in
    omega (
      arith,
      ap₂ bit_and ex em,
      bit_and_fields (x / 2 ^ k) 0 k (x % 2 ^ k) (2 ^ k - 1) (mod-lt x pos) (omega arith),
      bit_and_ones k (x % 2 ^ k) (mod-lt x pos),
      ap (λ (t : ℕ). t * 2 ^ k) (bit_and-zero (x / 2 ^ k)),
    )
