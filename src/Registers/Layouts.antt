-- ===== src/Registers/Layouts.antt =====
-- The other packed structs of 32-bit words in driver/xpcie.h, which the driver does not access by
-- their fields, and where the fields of a struct are.
use Prim.Native.String.{String}
use text.Mathlib.Text as Text
use text.Mathlib.TextEquality.{eq_iff}
use xpcie.Base.{
  ℕ, ◌+◌, ◌*◌, ◌≤◌, ◌≡◌, refl, sym, ◌∙◌, Bool, true, false, Bool-cases, inl, inr, ◌⊎◌, [], ◌∷◌,
  if◌then◌else◌, arith,
}
use xpcie.Desc.{desc_size}
use xpcie.Registers.{Layout, sizeof, offset_of}

-- `struct msix_vec_table_entry`
abbrev pub msix_vec_table_entry : Layout
msix_vec_table_entry =
    ("msi_vec_addr_lo", 1)
    ∷ ("msi_vec_addr_hi", 1)
    ∷ ("msi_vec_data_lo", 1)
    ∷ ("msi_vec_data_hi", 1)
    ∷ []

-- `struct performance_regs`
abbrev pub performance_regs : Layout
performance_regs =
    ("identifier", 1)
    ∷ ("control", 1)
    ∷ ("status", 1)
    ∷ ("period_low", 1)
    ∷ ("period_high", 1)
    ∷ ("performance_low", 1)
    ∷ ("performance_high", 1)
    ∷ ("wait_low", 1)
    ∷ ("wait_high", 1)
    ∷ []

-- `struct interrupt_regs`
abbrev pub interrupt_regs : Layout
interrupt_regs =
    ("identifier", 1)
    ∷ ("user_int_enable", 1)
    ∷ ("user_int_enable_w1s", 1)
    ∷ ("user_int_enable_w1c", 1)
    ∷ ("channel_int_enable", 1)
    ∷ ("channel_int_enable_w1s", 1)
    ∷ ("channel_int_enable_w1c", 1)
    ∷ ("reserved_1", 9)
    ∷ ("user_int_request", 1)
    ∷ ("channel_int_request", 1)
    ∷ ("user_int_pending", 1)
    ∷ ("channel_int_pending", 1)
    ∷ ("reserved_2", 12)
    ∷ ("user_msi_vector", 8)
    ∷ ("channel_msi_vector", 8)
    ∷ []

-- `struct sgdma_common_regs`
abbrev pub sgdma_common_regs : Layout
sgdma_common_regs =
    ("identifier", 1)
    ∷ ("padding1", 3)
    ∷ ("control", 1)
    ∷ ("padding2", 4)
    ∷ ("credit_feature_enable", 1)
    ∷ []

-- `struct xdma_desc`
abbrev pub xdma_desc : Layout
xdma_desc =
    ("control", 1)
    ∷ ("bytes", 1)
    ∷ ("src_addr_lo", 1)
    ∷ ("src_addr_hi", 1)
    ∷ ("dst_addr_lo", 1)
    ∷ ("dst_addr_hi", 1)
    ∷ ("next_lo", 1)
    ∷ ("next_hi", 1)
    ∷ []

-- `struct xdma_result`
abbrev pub xdma_result : Layout
xdma_result = ("status", 1) ∷ ("length", 1) ∷ ("reserved_1", 6) ∷ []

-- `struct xdma_poll_wb`
abbrev pub xdma_poll_wb : Layout
xdma_poll_wb = ("completed_desc_count", 1) ∷ ("reserved_1", 7) ∷ []

-- `struct msix_vec_table`, as its number of words
abbrev pub msix_vec_table : Layout
msix_vec_table = ("entry_list", 32 * 4) ∷ []

-- Whether a struct has a field, and its number of words.
unfoldable pub has_field : String → Layout → Bool
has_field name [] = false
has_field name ((field, words) ∷ fields) =
    if Text.◌==◌ field name then true else has_field name fields

unfoldable pub words_of : String → Layout → ℕ
words_of name [] = 0
words_of name ((field, words) ∷ fields) =
    if Text.◌==◌ field name then words else words_of name fields

-- A field is within its struct.
offset_of-le :
    (name : String) (l : Layout)
    → has_field name l ≡ true
    → offset_of name l + 4 * words_of name l ≤ sizeof l
unfolding has_field words_of offset_of sizeof
offset_of-le name [] h = cc
offset_of-le name ((field, words) ∷ fields) h = elim (Bool-cases (Text.◌==◌ field name)) [
  | inl here ↦ rw here (omega arith)
  | inr other ↦
      let behind : has_field name fields ≡ true = sym (rw other refl) ∙ h in
      rw other (omega (arith, offset_of-le name fields behind))
]

-- Two fields of a struct have no word in common.
offset_of-apart :
    (a b : String) (l : Layout)
    → Text.◌==◌ a b ≡ false
    → has_field a l ≡ true
    → has_field b l ≡ true
    → (offset_of a l + 4 * words_of a l ≤ offset_of b l)
      ⊎ (offset_of b l + 4 * words_of b l ≤ offset_of a l)
unfolding has_field words_of offset_of
offset_of-apart a b [] other ha hb = cc
offset_of-apart a b ((field, words) ∷ fields) other ha hb = elim (Bool-cases (Text.◌==◌ field a)) [
  | inl at_a ↦ elim (Bool-cases (Text.◌==◌ field b)) [
    | inl at_b ↦
        let same = sym ((eq_iff field a).0 at_a) ∙ (eq_iff field b).0 at_b in
        let equal = (eq_iff a b).1 same in cc
    | inr not_b ↦ rw (at_a, not_b) (inl (omega arith))
  ]
  | inr not_a ↦ elim (Bool-cases (Text.◌==◌ field b)) [
    | inl at_b ↦ rw (not_a, at_b) (inr (omega arith))
    | inr not_b ↦
        let has_a : has_field a fields ≡ true = sym (rw not_a refl) ∙ ha in
        let has_b : has_field b fields ≡ true = sym (rw not_b refl) ∙ hb in
        rw (not_a, not_b)
          (elim (offset_of-apart a b fields other has_a has_b) [
            | inl low ↦ inl (omega (arith, low))
            | inr high ↦ inr (omega (arith, high))
          ])
  ]
]

-- A descriptor has the size that the driver allocates for it, as have a result and a writeback, and
-- the structs that are at multiples of TARGET_SPACING are shorter.
sizeof-fits :
    (sizeof xdma_desc ≡ desc_size)
    × (sizeof xdma_result ≡ 32)
    × (sizeof xdma_poll_wb ≡ 32)
    × (sizeof msix_vec_table ≡ 32 * sizeof msix_vec_table_entry)
    × (sizeof interrupt_regs ≤ 0x1000)
    × (sizeof performance_regs ≤ 0x1000)
    × (sizeof sgdma_common_regs ≤ 0x1000)
unfolding sizeof
sizeof-fits = (refl, refl, refl, refl, omega arith, omega arith, omega arith)
