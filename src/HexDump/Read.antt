-- ===== src/HexDump/Read.antt =====
-- A reader of the text that `hex_dump` prints for a line.
use xpcie.Base.{
  ℕ, zero, suc, ◌+◌, ◌-◌, ◌*◌, ◌/◌, ◌%◌, ◌^◌, ◌≤◌, ◌<◌, ◌≡◌, ◌∙◌, ap, refl, sym, Bool, true, false,
  Bool-cases, inl, inr, Option, none, some, List, [], ◌∷◌, ◌++◌, append_assoc, length, replicate,
  ltb, leb, ◌==◌, if◌then◌else◌, arith,
}
use native.Mathlib.Nat.{pow-suc}
use xpcie.HexDump.{lines_text, wide, digit, digits, hex, cell_text, cells_text, line_text, Line}

-- The value of a hexadecimal digit, with A to F.
abbrev pub digit_value : ℕ → ℕ
digit_value c = if leb c 0x39 then c - 0x30 else c - 0x37

abbrev read_cell : (a b : ℕ) → Option ℕ
read_cell a b = if a == 0x2d then none else some (digit_value a * 16 + digit_value b)

-- `count` places of three characters, behind those that were read.
unfoldable pub read_cells : (count : ℕ) → List ℕ → List (Option ℕ) × List ℕ
read_cells zero text = ([], text)
read_cells (suc n) (space ∷ a ∷ b ∷ text) =
    let rest = read_cells n text in (read_cell a b ∷ rest.0, rest.1)
read_cells (suc n) text = ([], text)

-- The characters on the right, behind two spaces and up to the end of the line.
unfoldable pub read_shown : List ℕ → List ℕ × List ℕ
read_shown [] = ([], [])
read_shown (c ∷ text) =
    let more = read_shown text in if c == 0x0a then ([], text) else (c ∷ more.0, more.1)

abbrev behind_spaces : List ℕ → List ℕ
behind_spaces (c ∷ d ∷ text) = text
behind_spaces text = text

unfoldable pub read_behind : (index : ℕ) (star : Bool) → List ℕ → Line × List ℕ
read_behind index star text =
    let (cells, more) = read_cells wide text in
    let (shown, rest) = read_shown (behind_spaces more) in
    (record { index = index; star = star; cells = cells; shown = shown }, rest)

-- The line and the text behind it: the index up to `:` or `*`, the places for the bytes, and the
-- characters.
unfoldable pub read_line : (before : ℕ) → List ℕ → Line × List ℕ
read_line before [] = (record { index = before; star = false; cells = []; shown = [] }, [])
read_line before (c ∷ text) =
    let more = read_line (before * 16 + digit_value c) text in
    if c == 0x3a
    then read_behind before false text
    else (if c == 0x2a then read_behind before true text else more)

unfoldable pub read_lines : (count : ℕ) → List ℕ → List Line × List ℕ
read_lines zero text = ([], text)
read_lines (suc n) text =
    let (l, more) = read_line 0 text in let (lines, rest) = read_lines n more in (l ∷ lines, rest)

digit-value : (d : ℕ) → d < 16 → digit_value (digit d) ≡ d
digit-value d h = ground arith

read_line-digit :
    (before d : ℕ) (text : List ℕ)
    → d < 16
    → read_line before (digit d ∷ text) ≡ read_line (before * 16 + d) text
unfolding read_line
read_line-digit before d text h =
    let colon : (digit d == 0x3a) ≡ false = ground arith in
    let star : (digit d == 0x2a) ≡ false = ground arith in rw (colon, star, digit-value d h) refl

read_line-one : (d : ℕ) (text : List ℕ) → d < 16 → read_line 0 (digit d ∷ text) ≡ read_line d text
read_line-one d text h =
    let e : 0 * 16 + d ≡ d = omega arith in
    read_line-digit 0 d text h ∙ ap (λ k. read_line k text) e

read_line-zeros :
    (k : ℕ) (text : List ℕ) → read_line 0 (replicate k 0x30 ++ text) ≡ read_line 0 text
read_line-zeros zero text = refl
read_line-zeros (suc k) text =
    read_line-digit 0 0 (replicate k 0x30 ++ text) (omega arith) ∙ read_line-zeros k text

-- The last digit, behind those before it.
read_line-last :
    (front : List ℕ) (n : ℕ) (text : List ℕ)
    → ((text : List ℕ) → read_line 0 (front ++ text) ≡ read_line (n / 16) text)
    → read_line 0 ((front ++ digit (n % 16) ∷ []) ++ text) ≡ read_line n text
read_line-last front n text before =
    let e : n / 16 * 16 + n % 16 ≡ n = omega arith in
    ap (read_line 0) (append_assoc front (digit (n % 16) ∷ []) text)
    ∙ before (digit (n % 16) ∷ text)
    ∙ read_line-digit (n / 16) (n % 16) text (omega arith)
    ∙ ap (λ k. read_line k text) e

read_line-digits :
    (fuel n : ℕ) (text : List ℕ)
    → n < 16 ^ suc fuel
    → read_line 0 (digits 16 (suc fuel) n ++ text) ≡ read_line n text
unfolding digits
read_line-digits zero n text h =
    let one : ltb n 16 ≡ true = ground arith in
    let e : n % 16 ≡ n = omega arith in rw (one, e) (read_line-one n text (omega arith))
read_line-digits (suc fuel) n text h = elim (Bool-cases (ltb n 16)) [
  | inl one ↦ let e : n % 16 ≡ n = ground arith in rw (one, e) (read_line-one n text (ground arith))
  | inr more ↦
      let fits = λ (text : List ℕ).
        read_line-digits fuel (n / 16) text (omega (arith, pow-suc 16 (suc fuel))) in
      rw more (read_line-last (digits 16 (suc fuel) (n / 16)) n text fits)
]

read_line-hex :
    (n : ℕ) (text : List ℕ) → n < 2 ^ 64 → read_line 0 (hex 8 n ++ text) ≡ read_line n text
unfolding hex
read_line-hex n text h =
    let ds = digits 16 64 n in
    ap (read_line 0) (append_assoc (replicate (8 - length ds) 0x30) ds text)
    ∙ read_line-zeros (8 - length ds) (ds ++ text)
    ∙ read_line-digits 63 n text (omega arith)

-- Two digits are enough for a byte.
hex-byte : (b : ℕ) → b < 256 → hex 2 b ≡ digit (b / 16) ∷ digit (b % 16) ∷ []
unfolding hex digits
hex-byte b h = elim (Bool-cases (ltb b 16)) [
  | inl one ↦ let e : b / 16 ≡ 0 = ground arith in rw (one, e) refl
  | inr two ↦
      let e : ltb (b / 16) 16 ≡ true = ground arith in
      let m : b / 16 % 16 ≡ b / 16 = ground arith in rw (two, e, m) refl
]

-- The bytes of a line are bytes, and its characters do not end the line.
abbrev pub AllBytes : List (Option ℕ) → Type 0
AllBytes [] = Unit
AllBytes (none ∷ cells) = AllBytes cells
AllBytes (some b ∷ cells) = (b < 256) × AllBytes cells

abbrev pub AllPrintable : List ℕ → Type 0
AllPrintable [] = Unit
AllPrintable (c ∷ text) = ((0x20 ≤ c) × (c ≤ 0x7e)) × AllPrintable text

read_cells-cells_text :
    (cells : List (Option ℕ)) (text : List ℕ)
    → AllBytes cells
    → read_cells (length cells) (cells_text cells ++ text) ≡ (cells, text)
unfolding read_cells cells_text cell_text
read_cells-cells_text [] text h = refl
read_cells-cells_text (none ∷ cells) text h = rw (read_cells-cells_text cells text h) refl
read_cells-cells_text (some b ∷ cells) text h =
    let dash : (digit (b / 16) == 0x2d) ≡ false = ground arith in
    let value : digit_value (digit (b / 16)) * 16 + digit_value (digit (b % 16)) ≡ b =
      omega (arith, digit-value (b / 16) (omega arith), digit-value (b % 16) (omega arith)) in
    rw (hex-byte b h.0, read_cells-cells_text cells text h.1, dash, value) refl

read_shown-append :
    (shown text : List ℕ) → AllPrintable shown → read_shown (shown ++ (0x0a ∷ text)) ≡ (shown, text)
unfolding read_shown
read_shown-append [] text h = refl
read_shown-append (c ∷ shown) text h =
    let other : (c == 0x0a) ≡ false = ground arith in
    rw (other, read_shown-append shown text h.1) refl

-- A line that fits its text.
abbrev pub IsPrintable : Line → Type 0
IsPrintable l =
    (l.index < 2 ^ 64) × (length l.cells ≡ wide) × AllBytes l.cells × AllPrintable l.shown

read_behind-text :
    (i : ℕ) (b : Bool) (cells : List (Option ℕ)) (shown text : List ℕ)
    → length cells ≡ wide
    → AllBytes cells
    → AllPrintable shown
    → read_behind i b (cells_text cells ++ (0x20 ∷ 0x20 ∷ (shown ++ (0x0a ∷ text))))
      ≡ (record { index = i; star = b; cells = cells; shown = shown }, text)
unfolding read_behind
read_behind-text i b cells shown text len all printable =
    let split =
      ap (λ k. read_cells k (cells_text cells ++ (0x20 ∷ 0x20 ∷ (shown ++ (0x0a ∷ text)))))
        (sym len)
      ∙ read_cells-cells_text cells (0x20 ∷ 0x20 ∷ (shown ++ (0x0a ∷ text))) all in
    rw (split, read_shown-append shown text printable) refl

read_line-mark :
    (i : ℕ) (b : Bool) (text : List ℕ)
    → read_line i ((if b then 0x2a else 0x3a) ∷ text) ≡ read_behind i b text
unfolding read_line
read_line-mark i true text = refl
read_line-mark i false text = refl

line_text-append :
    (l : Line) (text : List ℕ)
    → line_text l ++ text
      ≡ hex 8 l.index
        ++ ((if l.star then 0x2a else 0x3a)
            ∷ (cells_text l.cells ++ (0x20 ∷ 0x20 ∷ (l.shown ++ (0x0a ∷ text)))))
unfolding line_text
line_text-append l text =
    append_assoc (hex 8 l.index) _ text
    ∙ ap (λ t. hex 8 l.index ++ ((if l.star then 0x2a else 0x3a) ∷ t))
        (append_assoc (cells_text l.cells) _ text
          ∙ ap (λ t. cells_text l.cells ++ (0x20 ∷ 0x20 ∷ t))
              (append_assoc l.shown (0x0a ∷ []) text))

read_line-line_text :
    (l : Line) (text : List ℕ) → IsPrintable l → read_line 0 (line_text l ++ text) ≡ (l, text)
read_line-line_text l text h =
    ap (read_line 0) (line_text-append l text)
    ∙ read_line-hex l.index _ h.0
    ∙ read_line-mark l.index l.star _
    ∙ read_behind-text l.index l.star l.cells l.shown text h.1 h.2 h.3

abbrev pub AllLines : List Line → Type 0
AllLines [] = Unit
AllLines (l ∷ lines) = IsPrintable l × AllLines lines

pub read_lines-lines_text :
    (lines : List Line) (text : List ℕ)
    → AllLines lines
    → read_lines (length lines) (lines_text lines ++ text) ≡ (lines, text)
unfolding read_lines lines_text
read_lines-lines_text [] text h = refl
read_lines-lines_text (l ∷ lines) text h =
    let first =
      ap (read_line 0) (append_assoc (line_text l) (lines_text lines) text)
      ∙ read_line-line_text l (lines_text lines ++ text) h.0 in
    rw (first, read_lines-lines_text lines text h.1) refl
