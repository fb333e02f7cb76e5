-- ===== src/HexDump.antt =====
-- `hex_dump` of app/LogUtils.cpp: the lines that it shows, and their text. The buffer is the byte at
-- each index. A character is its ASCII code. A negative size, for which the loop does not run, is not
-- modelled.
pub mod Bytes
pub mod Expand
pub mod Read
pub mod Reads
pub mod Rounds
pub mod Text
use xpcie.Base.{
  ℕ, zero, suc, ◌+◌, ◌-◌, ◌*◌, ◌/◌, ◌%◌, Bool, true, false, not, ◌&&◌, Option, none, some, List, [],
  ◌∷◌, ◌++◌, map, length, replicate, ltb, leb, ◌==◌, if◌then◌else◌,
}
use mathlib.Core.Option

-- `WIDE`
abbrev pub wide : ℕ
wide = 16

-- What a line shows: its index, whether it is marked with `*`, the sixteen places for bytes, where
-- `none` is `--`, and the characters on the right.
pub record Line : Type 0 where
  pub index : ℕ
  pub star : Bool
  pub cells : List (Option ℕ)
  pub shown : List ℕ

-- `SAFE(c)`
unfoldable pub safe : ℕ → ℕ
safe c = if leb 0x20 c && leb c 0x7e then c else 0x2e

module _ (buf : ℕ → ℕ) where
  -- `memcmp(a, b, n) == 0`, for two indexes of the buffer
  unfoldable pub memcmp : (a b n : ℕ) → Bool
  memcmp a b zero = true
  memcmp a b (suc n) = (buf a == buf b) && memcmp (suc a) (suc b) n

  -- The two loops over `j`, from `j` on: `if (j < n)` picks the byte.
  unfoldable pub hex_cells : (left n i j : ℕ) → List (Option ℕ)
  hex_cells zero n i j = []
  hex_cells (suc left) n i j =
      (if ltb j n then some (buf (i + j)) else none) ∷ hex_cells left n i (suc j)

  unfoldable pub ascii_cells : (left n i j : ℕ) → List ℕ
  ascii_cells zero n i j = []
  ascii_cells (suc left) n i j =
      let rest = ascii_cells left n i (suc j) in if ltb j n then safe (buf (i + j)) ∷ rest else rest

  module _ (full : Bool) (size : ℕ) where
    -- `continue`: the line is the same as the one before.
    unfoldable pub skipped : (i : ℕ) → Bool
    skipped i = not full && ((leb wide (size - i) && leb wide i) && memcmp i (i - wide) wide)

    -- The line is the same as the next one.
    unfoldable pub marked : (i : ℕ) → Bool
    marked i = not full && (leb (2 * wide) (size - i) && memcmp i (i + wide) wide)

    unfoldable pub line_at : (i : ℕ) → Line
    line_at i = record {
      index = i;
      star = marked i;
      cells = hex_cells wide (size - i) i 0;
      shown = ascii_cells wide (size - i) i 0;
    }

    -- The loop over `i`; `none` if the fuel runs out.
    unfoldable pub dump_from : (fuel i : ℕ) → Option (List Line)
    dump_from zero i = if ltb i size then none else some []
    dump_from (suc n) i =
        let rest = dump_from n (i + wide) in
        if ltb i size
        then (if skipped i then rest else Option.map (λ lines. line_at i ∷ lines) rest)
        else some []

    -- The lines of `hex_dump`. `FULL` is 0 in the source, so `full` is false there.
    unfoldable pub dump_lines : Option (List Line)
    dump_lines = dump_from size 0

-- `%X` and `%ld` of a number that is not negative: its digits, the last at the end. 64 digits are
-- enough for 64 bits.
abbrev pub digit : ℕ → ℕ
digit d = if ltb d 10 then 0x30 + d else 0x37 + d

unfoldable pub digits : (base fuel n : ℕ) → List ℕ
digits base zero n = []
digits base (suc fuel) n =
    let front = digits base fuel (n / base) in
    (if ltb n base then [] else front) ++ digit (n % base) ∷ []

-- `%.8X` and `%.2X`: at least so many digits.
unfoldable pub hex : (precision n : ℕ) → List ℕ
hex precision n = let ds = digits 16 64 n in replicate (precision - length ds) 0x30 ++ ds

unfoldable pub cell_text : Option ℕ → List ℕ
cell_text none = 0x20 ∷ 0x2d ∷ 0x2d ∷ []
cell_text (some b) = 0x20 ∷ hex 2 b

unfoldable pub cells_text : List (Option ℕ) → List ℕ
cells_text [] = []
cells_text (c ∷ cells) = cell_text c ++ cells_text cells

-- One line, as the calls of `printf` for it write it.
unfoldable pub line_text : Line → List ℕ
line_text l =
    let mark = if l.star then 0x2a else 0x3a in
    hex 8 l.index ++ (mark ∷ (cells_text l.cells ++ (0x20 ∷ 0x20 ∷ (l.shown ++ (0x0a ∷ [])))))

unfoldable pub lines_text : List Line → List ℕ
lines_text [] = []
lines_text (l ∷ lines) = line_text l ++ lines_text lines

-- `%.8lX: end (%ld bytes) mtime %ld\n`, where `Mtime` is a static variable that stays 0
unfoldable pub end_text : (size : ℕ) → List ℕ
end_text size =
    hex 8 size
    ++ 0x3a ∷ 0x20 ∷ 0x65 ∷ 0x6e ∷ 0x64 ∷ 0x20 ∷ 0x28 ∷ []
    ++ digits 10 64 size
    ++ 0x20 ∷ 0x62 ∷ 0x79 ∷ 0x74 ∷ 0x65 ∷ 0x73 ∷ 0x29 ∷ 0x20 ∷ []
    ++ 0x6d ∷ 0x74 ∷ 0x69 ∷ 0x6d ∷ 0x65 ∷ 0x20 ∷ 0x30 ∷ 0x0a ∷ []

-- `hex_dump`, for `size` bytes: what it prints.
unfoldable pub hex_dump : (buf : ℕ → ℕ) (full : Bool) (size : ℕ) → Option (List ℕ)
hex_dump buf full size =
    Option.map (λ lines. lines_text lines ++ end_text size) (dump_lines buf full size)
