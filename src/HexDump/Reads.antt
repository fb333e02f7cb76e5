-- ===== src/HexDump/Reads.antt =====
-- The bytes that `hex_dump` reads: also the comparisons with the lines before and behind stay within
-- the buffer.
use mathlib.Core.Option
use xpcie.Base.{
  ℕ, zero, suc, ◌+◌, ◌-◌, ◌*◌, ◌≤◌, ◌<◌, ◌≡◌, ap, refl, Bool, true, false, ◌&&◌, not, Bool-cases,
  inl, inr, ◌++◌, ltb, leb, ltb→lt, arith,
}
use xpcie.HexDump.{
  wide, memcmp, hex_cells, ascii_cells, skipped, marked, line_at, dump_from, dump_lines, hex_dump,
  lines_text, end_text,
}

-- A second operand that is used only if the first is true.
and-agree : (a b c : Bool) → (a ≡ true → b ≡ c) → (a && b) ≡ (a && c)
and-agree true b c h = h refl
and-agree false b c h = refl

module _ (f g : ℕ → ℕ) (full : Bool) (size : ℕ) (agree : (i : ℕ) → i < size → f i ≡ g i) where
  memcmp-agree : (a b n : ℕ) → a + n ≤ size → b + n ≤ size → memcmp f a b n ≡ memcmp g a b n
  unfolding memcmp
  memcmp-agree a b zero ha hb = refl
  memcmp-agree a b (suc n) ha hb =
      rw
        (
          agree a (omega arith),
          agree b (omega arith),
          memcmp-agree (suc a) (suc b) n (omega arith) (omega arith),
        )
        refl

  hex_cells-agree :
      (left n i j : ℕ) → i + n ≤ size → hex_cells f left n i j ≡ hex_cells g left n i j
  unfolding hex_cells
  hex_cells-agree zero n i j h = refl
  hex_cells-agree (suc left) n i j h = elim (Bool-cases (ltb j n)) [
    | inl lt ↦ rw (lt, agree (i + j) (ground arith), hex_cells-agree left n i (suc j) h) refl
    | inr ge ↦ rw (ge, hex_cells-agree left n i (suc j) h) refl
  ]

  ascii_cells-agree :
      (left n i j : ℕ) → i + n ≤ size → ascii_cells f left n i j ≡ ascii_cells g left n i j
  unfolding ascii_cells
  ascii_cells-agree zero n i j h = refl
  ascii_cells-agree (suc left) n i j h = elim (Bool-cases (ltb j n)) [
    | inl lt ↦ rw (lt, agree (i + j) (ground arith), ascii_cells-agree left n i (suc j) h) refl
    | inr ge ↦ rw (ge, ascii_cells-agree left n i (suc j) h) refl
  ]

  skipped-agree : (i : ℕ) → skipped f full size i ≡ skipped g full size i
  unfolding skipped
  skipped-agree i =
      ap (λ b. not full && b)
        (and-agree (leb wide (size - i) && leb wide i) _ _
          (λ h. memcmp-agree i (i - wide) wide (ground arith) (ground arith)))

  marked-agree : (i : ℕ) → marked f full size i ≡ marked g full size i
  unfolding marked
  marked-agree i =
      ap (λ b. not full && b)
        (and-agree (leb (2 * wide) (size - i)) _ _
          (λ h. memcmp-agree i (i + wide) wide (ground arith) (ground arith)))

  line_at-agree : (i : ℕ) → i < size → line_at f full size i ≡ line_at g full size i
  unfolding line_at
  line_at-agree i lt =
      rw
        (
          marked-agree i,
          hex_cells-agree wide (size - i) i 0 (omega arith),
          ascii_cells-agree wide (size - i) i 0 (omega arith),
        )
        refl

  dump_from-agree : (n i : ℕ) → dump_from f full size n i ≡ dump_from g full size n i
  unfolding dump_from
  dump_from-agree zero i = refl
  dump_from-agree (suc n) i = elim (Bool-cases (ltb i size)) [
    | inl lt ↦
        rw (lt, skipped-agree i, line_at-agree i (ltb→lt i size lt), dump_from-agree n (i + wide))
          refl
    | inr ge ↦ rw ge refl
  ]

  -- What `hex_dump` prints depends on the `size` bytes of the buffer alone, in the mode of the source
  -- and in the one that shows all lines.
  pub hex_dump-agree : hex_dump f full size ≡ hex_dump g full size
  unfolding hex_dump dump_lines
  hex_dump-agree =
      ap (λ o. Option.map (λ lines. lines_text lines ++ end_text size) o) (dump_from-agree size 0)
