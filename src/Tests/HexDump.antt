-- ===== src/Tests/HexDump.antt =====
-- A buffer of 100 bytes: four lines of zeros, of which two are left out, and bytes that count up.
use xpcie.Base.{
  ℕ, ◌%◌, ◌<◌, ◌≤◌, ◌≡◌, refl, false, none, some, List, [], ◌∷◌, ltb, length, if◌then◌else◌, arith,
}
use mathlib.Core.Option
use xpcie.HexDump.{
  Line, hex_dump, dump_lines, dump_from, skipped, marked, line_at, memcmp, end_text,
}
use xpcie.HexDump.Bytes.{bytes, expand}
use xpcie.HexDump.Read.{read_lines}
use xpcie.HexDump.Reads.{hex_dump-agree}
use xpcie.HexDump.Rounds.{dump_from-rounds}
use xpcie.HexDump.Text.{hex_dump-read}

abbrev sample : ℕ → ℕ
sample i = if ltb i 64 then 0 else i % 256

sample-lt : (i : ℕ) → sample i < 256
sample-lt i = ground arith

abbrev indexes : List Line → List ℕ
indexes [] = []
indexes (l ∷ lines) = l.index ∷ indexes lines

sample_lines : Option.map indexes (dump_lines sample false 100) ≡ some (0 ∷ 64 ∷ 80 ∷ 96 ∷ [])
unfolding dump_lines dump_from skipped marked line_at memcmp
sample_lines = refl

hex_dump-read_example :
    (lines : List Line) × (text : List ℕ) × (hex_dump sample false 100 ≡ some text)
    × (read_lines (length lines) text ≡ (lines, end_text 100))
    × (expand 100 100 0 [] lines ≡ bytes sample 0 100)
hex_dump-read_example = hex_dump-read sample sample-lt false 100 (omega arith)

-- A buffer with other bytes behind the hundred.
abbrev longer : ℕ → ℕ
longer i = if ltb i 100 then sample i else 7

longer-sample : (i : ℕ) → i < 100 → sample i ≡ longer i
longer-sample i h = ground arith

hex_dump-agree_example : hex_dump sample false 100 ≡ hex_dump longer false 100
hex_dump-agree_example = hex_dump-agree sample longer false 100 longer-sample

dump_from-rounds_example :
    (lines : List Line) × (dump_from sample false 100 6 0 ≡ none)
    × (dump_from sample false 100 7 0 ≡ some lines)
    × (dump_from sample false 100 9 0 ≡ some lines)
    × (dump_lines sample false 100 ≡ some lines)
    × (length lines ≤ 7)
dump_from-rounds_example =
    dump_from-rounds sample false 100 6 9 (omega arith) (omega arith) (omega arith)
