-- ===== src/Desc/Fields.antt =====
-- The fields of the control word of a descriptor (driver/xpcie.h, `struct xdma_desc`): magic (bits
-- 16 to 31), reserved (12 to 15), extra adjacent descriptors (8 to 11) and control (0 to 7), and
-- the masks that driver/xpcie.c takes them apart with.
use xpcie.Base.{
  ℕ, ◌+◌, ◌-◌, ◌*◌, ◌/◌, ◌%◌, ◌^◌, ◌<◌, ◌≡◌, ap, ap₂, bit_and, bit_or, bit_and_mask, bit_and-zero,
  zero-bit_or, bit_or-zero, bit_and_fields, bit_or_fields, arith,
}
use xpcie.Desc.{desc_magic, not_ls_byte_mask}

abbrev pub magic_field : ℕ → ℕ
magic_field w = w / 2 ^ 16

abbrev pub reserved_field : ℕ → ℕ
reserved_field w = w / 2 ^ 12 % 2 ^ 4

abbrev pub adjacent_field : ℕ → ℕ
adjacent_field w = w / 2 ^ 8 % 2 ^ 4

abbrev pub control_field : ℕ → ℕ
control_field w = w % 2 ^ 8

-- The mask 0x0000f0ff keeps the reserved and the control bits.
pub bit_and_f0ff : (x : ℕ) → bit_and x 0x0000_f0ff ≡ reserved_field x * 2 ^ 12 + control_field x
bit_and_f0ff x =
    let e : x ≡ x / 2 ^ 8 * 2 ^ 8 + x % 2 ^ 8 = omega arith in
    let y = x / 2 ^ 8 in
    let ey : y ≡ y / 2 ^ 4 * 2 ^ 4 + y % 2 ^ 4 = omega arith in
    omega (
      arith,
      ap (λ t. bit_and t 0xf0ff) e,
      bit_and_fields y 0xf0 8 (x % 2 ^ 8) 0xff (omega arith) (omega arith),
      ap (λ t. bit_and t 0xf0) ey,
      bit_and_fields (y / 2 ^ 4) 0xf 4 (y % 2 ^ 4) 0 (omega arith) (omega arith),
      bit_and_mask 8 (x % 2 ^ 8),
      bit_and_mask 4 (y / 2 ^ 4),
      bit_and-zero (y % 2 ^ 4),
    )

-- `~(LS_BYTE_MASK)` clears the control bits.
pub bit_and_not_ls_byte : (x : ℕ) → x < 2 ^ 32 → bit_and x not_ls_byte_mask ≡ x / 2 ^ 8 * 2 ^ 8
bit_and_not_ls_byte x h =
    let e : x ≡ x / 2 ^ 8 * 2 ^ 8 + x % 2 ^ 8 = omega arith in
    omega (
      arith,
      ap (λ t. bit_and t not_ls_byte_mask) e,
      bit_and_fields (x / 2 ^ 8) (2 ^ 56 - 1) 8 (x % 2 ^ 8) 0 (omega arith) (omega arith),
      bit_and_mask 56 (x / 2 ^ 8),
      bit_and-zero (x % 2 ^ 8),
    )

-- A high field merged into a low one, and the other way round.
module _ (k g l : ℕ) (fits : l < 2 ^ k) (pos : 0 < 2 ^ k) where
  pub bit_or_high : bit_or l (g * 2 ^ k) ≡ g * 2 ^ k + l
  bit_or_high = omega (
    arith,
    ap₂ bit_or (zero_high l) (add-zero (g * 2 ^ k)),
    bit_or_fields 0 g k l 0 fits pos,
    ap (λ t. t * 2 ^ k) (zero-bit_or g),
    bit_or-zero l,
  )
    where
      zero_high : (n : ℕ) → n ≡ 0 * 2 ^ k + n
      zero_high n = omega arith

      add-zero : (n : ℕ) → n ≡ n + 0
      add-zero n = omega arith

  pub bit_or_low : bit_or (g * 2 ^ k) l ≡ g * 2 ^ k + l
  bit_or_low = omega (
    arith,
    ap₂ bit_or (add-zero (g * 2 ^ k)) (zero_high l),
    bit_or_fields g 0 k 0 l pos fits,
    ap (λ t. t * 2 ^ k) (bit_or-zero g),
    zero-bit_or l,
  )
    where
      zero_high : (n : ℕ) → n ≡ 0 * 2 ^ k + n
      zero_high n = omega arith

      add-zero : (n : ℕ) → n ≡ n + 0
      add-zero n = omega arith

-- The three parts of the word that `xdma_desc_adjacent` puts together.
pub control_word :
    (a e b : ℕ)
    → a < 2 ^ 4
    → e < 2 ^ 4
    → b < 2 ^ 8
    → bit_or (a * 2 ^ 12 + b) (bit_or desc_magic (e * 2 ^ 8))
      ≡ 0xad4b * 2 ^ 16 + a * 2 ^ 12 + e * 2 ^ 8 + b
control_word a e b ha he hb =
    let high : bit_or desc_magic (e * 2 ^ 8) ≡ (0xad4b * 2 ^ 8 + e) * 2 ^ 8 + 0 =
      omega (arith, bit_or_low 16 0xad4b (e * 2 ^ 8) (omega arith) (omega arith)) in
    let low : a * 2 ^ 12 + b ≡ a * 2 ^ 4 * 2 ^ 8 + b = omega arith in
    let left : a * 2 ^ 4 ≡ a * 2 ^ 4 + 0 = omega arith in
    let right : 0xad4b * 2 ^ 8 + e ≡ 0xad4b * 2 ^ 4 * 2 ^ 4 + e = omega arith in
    omega (
      arith,
      ap₂ bit_or low high,
      bit_or_fields (a * 2 ^ 4) (0xad4b * 2 ^ 8 + e) 8 b 0 hb (omega arith),
      ap₂ bit_or left right,
      bit_or_fields a (0xad4b * 2 ^ 4) 4 0 e (omega arith) he,
      zero-bit_or e,
      bit_or_high 4 0xad4b a ha (omega arith),
      bit_or-zero b,
    )
