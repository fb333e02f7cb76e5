-- ===== src/HexDump/Bytes.antt =====
-- What a reader of the lines of `hex_dump` takes them for: bytes of a buffer.
use xpcie.Base.{
  ℕ, zero, suc, ◌+◌, ◌≡◌, ◌∙◌, ap, refl, Bool, true, false, ◌&&◌, Option, none, some, List, [], ◌∷◌,
  ◌++◌, ltb, ◌==◌, if◌then◌else◌, arith,
}
use xpcie.HexDump.{wide, Line}

-- The bytes of a line.
abbrev pub present : List (Option ℕ) → List ℕ
present [] = []
present (none ∷ cells) = present cells
present (some b ∷ cells) = b ∷ present cells

-- The bytes of the buffer from an index on.
unfoldable pub bytes : (ℕ → ℕ) → (i n : ℕ) → List ℕ
bytes buf i zero = []
bytes buf i (suc n) = buf i ∷ bytes buf (suc i) n

-- What a reader makes of the lines from index `i` on, for `left` lines of the buffer: where a line is
-- missing the one before is repeated.
unfoldable pub expand : (size left i : ℕ) (before : List ℕ) → List Line → List ℕ
expand size zero i before lines = []
expand size (suc left) i before [] =
    let repeated = before ++ expand size left (i + wide) before [] in
    if ltb i size then repeated else []
expand size (suc left) i before (l ∷ lines) =
    let new = present l.cells ++ expand size left (i + wide) (present l.cells) lines in
    let repeated = before ++ expand size left (i + wide) before (l ∷ lines) in
    if ltb i size then (if l.index == i then new else repeated) else []

pub bytes-append :
    (buf : ℕ → ℕ) (i m n : ℕ) → bytes buf i (m + n) ≡ bytes buf i m ++ bytes buf (i + m) n
unfolding bytes
bytes-append buf i zero n =
    let e : 0 + n ≡ n = omega arith in
    let s : i ≡ i + 0 = omega arith in ap (bytes buf i) e ∙ ap (λ k. bytes buf k n) s
bytes-append buf i (suc m) n =
    let e : suc m + n ≡ suc (m + n) = omega arith in
    let s : suc i + m ≡ i + suc m = omega arith in
    ap (bytes buf i) e
    ∙ ap (λ t. buf i ∷ t)
        (bytes-append buf (suc i) m n ∙ ap (λ k. bytes buf (suc i) m ++ bytes buf k n) s)

pub and_true : (a b : Bool) → (a && b) ≡ true → (a ≡ true) × (b ≡ true)
and_true true b h = (refl, h)
and_true false b h = cc
