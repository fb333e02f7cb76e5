-- ===== src/HexDump/Text.antt =====
-- The text of `hex_dump`, read back.
use xpcie.Base.{
  ℕ, zero, suc, ◌+◌, ◌-◌, ◌^◌, ◌≤◌, ◌<◌, ◌≡◌, ap, refl, Bool, Bool-cases, inl, inr, Option, none,
  some, List, [], ◌∷◌, ◌++◌, length, ltb, ltb→lt, arith,
}
use mathlib.Core.Option
use mathlib.Core.Path.{subst}
use xpcie.HexDump.Bytes as Bytes
use xpcie.HexDump.Expand.{dump_lines-expand}
use xpcie.HexDump.Bytes.{expand}
use xpcie.HexDump.Read.{
  AllBytes, AllPrintable, IsPrintable, AllLines, read_lines, read_lines-lines_text,
}
use xpcie.HexDump.{
  skipped, dump_from, dump_lines, hex_dump, lines_text, end_text, wide, safe, Line, line_at,
  hex_cells, ascii_cells,
}

-- The lines of a buffer of bytes.
module _ (buf : ℕ → ℕ) (bytes : (i : ℕ) → buf i < 256) where
  hex_cells-AllBytes : (left n i j : ℕ) → AllBytes (hex_cells buf left n i j)
  unfolding hex_cells
  hex_cells-AllBytes zero n i j = tt
  hex_cells-AllBytes (suc left) n i j = elim (Bool-cases (ltb j n)) [
    | inl h ↦ rw h (bytes (i + j), hex_cells-AllBytes left n i (suc j))
    | inr h ↦ rw h (hex_cells-AllBytes left n i (suc j))
  ]

  length-hex_cells : (left n i j : ℕ) → length (hex_cells buf left n i j) ≡ left
  unfolding hex_cells
  length-hex_cells zero n i j = refl
  length-hex_cells (suc left) n i j = ap suc (length-hex_cells left n i (suc j))

  safe-bounds : (c : ℕ) → (0x20 ≤ safe c) × (safe c ≤ 0x7e)
  unfolding safe
  safe-bounds c = (ground arith, ground arith)

  ascii_cells-AllPrintable : (left n i j : ℕ) → AllPrintable (ascii_cells buf left n i j)
  unfolding ascii_cells
  ascii_cells-AllPrintable zero n i j = tt
  ascii_cells-AllPrintable (suc left) n i j = elim (Bool-cases (ltb j n)) [
    | inl h ↦ rw h (safe-bounds (buf (i + j)), ascii_cells-AllPrintable left n i (suc j))
    | inr h ↦ rw h (ascii_cells-AllPrintable left n i (suc j))
  ]

  module _ (full : Bool) (size : ℕ) (fits : size < 2 ^ 63) where
    line_at-IsPrintable : (i : ℕ) → i < size → IsPrintable (line_at buf full size i)
    unfolding line_at
    line_at-IsPrintable i h = (
      omega arith,
      length-hex_cells wide (size - i) i 0,
      hex_cells-AllBytes wide (size - i) i 0,
      ascii_cells-AllPrintable wide (size - i) i 0,
    )

    abbrev Each : Option (List Line) → Type 0
    Each none = Unit
    Each (some lines) = AllLines lines

    Each-map :
        (l : Line) (o : Option (List Line))
        → IsPrintable l
        → Each o
        → Each (Option.map (λ lines. l ∷ lines) o)
    Each-map l none h hs = tt
    Each-map l (some lines) h hs = (h, hs)

    dump_from-Each : (n i : ℕ) → Each (dump_from buf full size n i)
    unfolding dump_from
    dump_from-Each zero i = elim (Bool-cases (ltb i size)) [ inl h ↦ rw h tt | inr h ↦ rw h tt ]
    dump_from-Each (suc n) i = elim (Bool-cases (ltb i size)) [
      | inr past ↦ rw past tt
      | inl inside ↦ elim (Bool-cases (skipped buf full size i)) [
        | inl skip ↦ rw (inside, skip) (dump_from-Each n (i + wide))
        | inr show ↦
            rw (inside, show)
              (Each-map (line_at buf full size i) (dump_from buf full size n (i + wide))
                (line_at-IsPrintable i (ltb→lt i size inside)) (dump_from-Each n (i + wide)))
      ]
    ]

    -- For a buffer of less than 2^63 bytes, in the mode of the source and in the one that shows
    -- all lines, `hex_dump` ends and prints lines of text and the end line after them. A reader of
    -- the text who reads the hexadecimal digits, and repeats the line before where one is missing,
    -- gets back exactly the bytes of the buffer; the characters on the right never end a line.
    pub hex_dump-read :
        (lines : List Line) × (text : List ℕ) × (hex_dump buf full size ≡ some text)
        × (read_lines (length lines) text ≡ (lines, end_text size))
        × (expand size size 0 [] lines ≡ Bytes.bytes buf 0 size)
    unfolding hex_dump dump_lines
    hex_dump-read =
        let (lines, e, all) = dump_lines-expand buf full size in
        (
          lines,
          lines_text lines ++ end_text size,
          rw e refl,
          read_lines-lines_text lines (end_text size) (subst Each e (dump_from-Each size 0)),
          all,
        )
