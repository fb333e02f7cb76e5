-- ===== src/RegRw/Stored.antt =====
-- Stores to a device through a mapping, at the physical addresses behind it.
use mathlib.Core.Path.{fun_ext}
use xpcie.Base.{
  ℕ, zero, suc, ◌+◌, ◌-◌, ◌*◌, ◌/◌, ◌^◌, ◌≤◌, ◌<◌, ◌≡◌, ap, ◌∙◌, refl, false, ◌&&◌, Bool-cases, inl,
  inr, List, [], ◌∷◌, length, ◌==◌, ltb, leb, update, arith,
}
use xpcie.RegRw.{put}
use xpcie.RegRw.Bytes.{le_value, le_bytes}
use xpcie.RegRw.Device.{seen, stored_back}

-- Stores within the mapping are stores at the physical addresses.
pub stored_back-seen :
    (first size a : ℕ) (phys : ℕ → ℕ) → stored_back first size (seen first phys) phys a ≡ phys a
stored_back-seen first size a phys = elim (Bool-cases (leb first a && ltb a (first + size))) [
  | inl inside ↦ let back : first + (a - first) ≡ a = ground arith in rw (inside, back) refl
  | inr outside ↦ rw outside refl
]

stored_back-update :
    (first size t b a : ℕ) (memory phys : ℕ → ℕ)
    → t < size
    → stored_back first size (update memory t b) phys a
      ≡ update (stored_back first size memory phys) (first + t) b a
stored_back-update first size t b a memory phys h =
    elim (Bool-cases (leb first a && ltb a (first + size))) [
      | inl inside ↦
          let same : (t == (a - first)) ≡ (first + t == a) = ground arith in rw (inside, same) refl
      | inr outside ↦
          let other : (first + t == a) ≡ false = ground arith in rw (outside, other) refl
    ]

pub stored_back-put :
    (first size t : ℕ) (bytes : List ℕ) (phys : ℕ → ℕ)
    → t + length bytes ≤ size
    → stored_back first size (put t bytes (seen first phys)) phys ≡ put (first + t) bytes phys
stored_back-put first size t [] phys h = fun_ext (λ a. stored_back-seen first size a phys)
stored_back-put first size t (b ∷ bytes) phys h =
    let next : first + suc t ≡ suc (first + t) = omega arith in
    fun_ext (λ a.
      stored_back-update first size t b a (put (suc t) bytes (seen first phys)) phys
        (omega (arith, h)))
    ∙ ap (λ f. update f (first + t) b)
        (stored_back-put first size (suc t) bytes phys (omega (arith, h))
          ∙ ap (λ s. put s bytes phys) next)

-- A number in the mapping is the number at the physical address.
pub le_value-seen :
    (n first a : ℕ) (phys : ℕ → ℕ) → le_value n (seen first phys) a ≡ le_value n phys (first + a)
unfolding le_value
le_value-seen zero first a phys = refl
le_value-seen (suc n) first a phys =
    let next : first + suc a ≡ suc (first + a) = omega arith in
    ap (λ k. phys (first + a) + 2 ^ 8 * k)
      (le_value-seen n first (suc a) phys ∙ ap (le_value n phys) next)

pub length-le_bytes : (n v : ℕ) → length (le_bytes n v) ≡ n
unfolding le_bytes
length-le_bytes zero v = refl
length-le_bytes (suc n) v = ap suc (length-le_bytes n (v / 2 ^ 8))
