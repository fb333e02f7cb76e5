-- ===== src/HexDump/Expand.antt =====
-- The lines of `hex_dump` against the buffer.
use xpcie.Base.{
  ℕ, zero, suc, ◌+◌, ◌-◌, ◌*◌, ◌≤◌, ◌<◌, ◌≡◌, ◌∙◌, ap, ap₂, refl, sym, Bool, true, false, ◌&&◌, not,
  Bool-cases, inl, inr, some, List, [], ◌∷◌, ◌++◌, ltb, leb, min, append-nil, ltb→lt, ◌==◌, arith,
}
use xpcie.HexDump.{wide, Line, memcmp, hex_cells, skipped, line_at, dump_from, dump_lines}
use xpcie.HexDump.Bytes.{present, bytes, expand, bytes-append, and_true}

module _ (buf : ℕ → ℕ) where
  memcmp-bytes : (a b n : ℕ) → memcmp buf a b n ≡ true → bytes buf a n ≡ bytes buf b n
  unfolding memcmp bytes
  memcmp-bytes a b zero h = refl
  memcmp-bytes a b (suc n) h = elim (Bool-cases (buf a == buf b)) [
    | inl same ↦
        let e : buf a ≡ buf b = ground arith in
        ap₂ ◌∷◌ e (memcmp-bytes (suc a) (suc b) n (ground arith))
    | inr other ↦ absurd (ground arith)
  ]

  hex_cells-present :
      (left n i j : ℕ) → present (hex_cells buf left n i j) ≡ bytes buf (i + j) (min left (n - j))
  unfolding hex_cells bytes
  hex_cells-present zero n i j = let e : min 0 (n - j) ≡ 0 = omega arith in rw e refl
  hex_cells-present (suc left) n i j = elim (Bool-cases (ltb j n)) [
    | inl lt ↦
        let e : min (suc left) (n - j) ≡ suc (min left (n - suc j)) = ground arith in
        let s : i + suc j ≡ suc (i + j) = omega arith in
        rw (lt, e)
          (ap (λ t. buf (i + j) ∷ t)
            (hex_cells-present left n i (suc j) ∙ ap (λ k. bytes buf k (min left (n - suc j))) s))
    | inr ge ↦
        let e : min (suc left) (n - j) ≡ 0 = ground arith in
        let e' : min left (n - suc j) ≡ 0 = ground arith in
        rw (ge, e) (hex_cells-present left n i (suc j) ∙ ap (bytes buf (i + suc j)) e')
  ]

  module _ (full : Bool) (size : ℕ) where
    -- No line is before an index.
    abbrev From : ℕ → List Line → Type 0
    From i [] = Unit
    From i (l ∷ lines) = i ≤ l.index

    From-later : (i j : ℕ) (lines : List Line) → i ≤ j → From j lines → From i lines
    From-later i j [] le h = tt
    From-later i j (l ∷ lines) le h = omega arith

    -- A line that is not before a later index is not the one that is read.
    expand-repeat :
        (left i : ℕ) (before : List ℕ) (lines : List Line)
        → i < size
        → From (i + wide) lines
        → expand size (suc left) i before lines ≡ before ++ expand size left (i + wide) before lines
    unfolding expand
    expand-repeat left i before [] lt h =
        let test : ltb i size ≡ true = ground arith in rw test refl
    expand-repeat left i before (l ∷ lines) lt h =
        let test : ltb i size ≡ true = ground arith in
        let other : (l.index == i) ≡ false = ground arith in rw (test, other) refl

    expand-end : (left i : ℕ) (before : List ℕ) → size ≤ i → expand size left i before [] ≡ []
    unfolding expand
    expand-end zero i before h = refl
    expand-end (suc left) i before h = let test : ltb i size ≡ false = ground arith in rw test refl

    skipped-same :
        (i : ℕ)
        → skipped buf full size i ≡ true
        → (i + wide ≤ size) × (wide ≤ i) × (bytes buf i wide ≡ bytes buf (i - wide) wide)
    unfolding skipped
    skipped-same i h =
        let (shown, same) = and_true (not full) _ h in
        let (fits, equal) = and_true (leb wide (size - i) && leb wide i) _ same in
        let (enough, second) = and_true (leb wide (size - i)) _ fits in
        (ground arith, ground arith, memcmp-bytes i (i - wide) wide equal)

    -- What has been read of the line before.
    abbrev Before : ℕ → List ℕ → Type 0
    Before i before = wide ≤ i → i < size → before ≡ bytes buf (i - wide) wide

    bytes-line :
        (i : ℕ)
        → i < size
        → bytes buf i (size - i)
          ≡ bytes buf i (min wide (size - i)) ++ bytes buf (i + wide) (size - (i + wide))
    unfolding bytes
    bytes-line i lt = elim (Bool-cases (leb (i + wide) size)) [
      | inl fits ↦
          let all : size - i ≡ min wide (size - i) + (size - (i + wide)) = ground arith in
          let one : i + min wide (size - i) ≡ i + wide = ground arith in
          ap (bytes buf i) all
          ∙ bytes-append buf i (min wide (size - i)) (size - (i + wide))
          ∙ ap (λ k. bytes buf i (min wide (size - i)) ++ bytes buf k (size - (i + wide))) one
      | inr last ↦
          let all : size - i ≡ min wide (size - i) = ground arith in
          let rest : size - (i + wide) ≡ 0 = ground arith in
          ap (bytes buf i) all
          ∙ sym (append-nil (bytes buf i (min wide (size - i))))
          ∙ ap (λ k. bytes buf i (min wide (size - i)) ++ bytes buf (i + wide) k) (sym rest)
    ]

    line_at-present :
        (i : ℕ) → present (line_at buf full size i).cells ≡ bytes buf i (min wide (size - i))
    unfolding line_at
    line_at-present i =
        let e : i + 0 ≡ i = omega arith in
        let n : min wide (size - i - 0) ≡ min wide (size - i) = omega arith in
        hex_cells-present wide (size - i) i 0 ∙ ap₂ (bytes buf) e n

    -- A skipped line, read from the line before.
    expand-skipped :
        (n i : ℕ) (before : List ℕ) (lines : List Line)
        → i < size
        → skipped buf full size i ≡ true
        → Before i before
        → From (i + wide) lines
        → expand size n (i + wide) before lines ≡ bytes buf (i + wide) (size - (i + wide))
        → expand size (suc n) i before lines ≡ bytes buf i (size - i)
    expand-skipped n i before lines lt skip b from rest =
        let (fits, second, same) = skipped-same i skip in
        let e : min wide (size - i) ≡ wide = omega arith in
        expand-repeat n i before lines lt from
        ∙ ap₂ ◌++◌ (b second lt ∙ sym same ∙ ap (bytes buf i) (sym e)) rest
        ∙ sym (bytes-line i lt)

    -- A line that is shown.
    expand-shown :
        (n i : ℕ) (before : List ℕ) (lines : List Line)
        → i < size
        → expand size n (i + wide) (bytes buf i (min wide (size - i))) lines
          ≡ bytes buf (i + wide) (size - (i + wide))
        → expand size (suc n) i before (line_at buf full size i ∷ lines) ≡ bytes buf i (size - i)
    unfolding expand line_at
    expand-shown n i before lines lt rest =
        let test : ltb i size ≡ true = ground arith in
        let here : (i == i) ≡ true = ground arith in
        rw (test, here)
          (ap₂ (λ t u. t ++ expand size n (i + wide) u lines) (line_at-present i)
              (line_at-present i)
            ∙ ap (λ t. bytes buf i (min wide (size - i)) ++ t) rest
            ∙ sym (bytes-line i lt))

    own_index : (i : ℕ) → i ≤ (line_at buf full size i).index
    unfolding line_at
    own_index i = omega arith

    dump_from-expand :
        (n i : ℕ) (before : List ℕ)
        → size ≤ i + n * wide
        → Before i before
        → (lines : List Line) × (dump_from buf full size n i ≡ some lines)
          × From i lines
          × (expand size n i before lines ≡ bytes buf i (size - i))
    unfolding dump_from bytes
    dump_from-expand zero i before h b =
        let past : ltb i size ≡ false = ground arith in
        let none_left : size - i ≡ 0 = omega arith in
        (
          [],
          rw past refl,
          tt,
          expand-end zero i before (omega arith) ∙ ap (bytes buf i) (sym none_left),
        )
    dump_from-expand (suc n) i before h b = elim (Bool-cases (ltb i size)) [
      | inr past ↦
          let none_left : size - i ≡ 0 = ground arith in
          (
            [],
            rw past refl,
            tt,
            expand-end (suc n) i before (ground arith) ∙ ap (bytes buf i) (sym none_left),
          )
      | inl inside ↦ elim (Bool-cases (skipped buf full size i)) [
        | inl skip ↦
            let (fits, second, same) = skipped-same i skip in
            let back : i + wide - wide ≡ i = omega arith in
            let (lines, e, from, rest) = dump_from-expand n (i + wide) before (omega arith) (λ a lt.
              b second (ltb→lt i size inside) ∙ sym same ∙ ap (λ k. bytes buf k wide) (sym back)) in
            (
              lines,
              rw (inside, skip) e,
              From-later i (i + wide) lines (omega arith) from,
              expand-skipped n i before lines (ltb→lt i size inside) skip b from rest,
            )
        | inr show ↦
            let back : i + wide - wide ≡ i = omega arith in
            let (lines, e, from, rest) =
              dump_from-expand n (i + wide) (bytes buf i (min wide (size - i))) (omega arith)
                (λ a lt.
                  let whole : min wide (size - i) ≡ wide = omega arith in
                  ap (bytes buf i) whole ∙ ap (λ k. bytes buf k wide) (sym back)) in
            (
              line_at buf full size i ∷ lines,
              rw (inside, show, e) refl,
              own_index i,
              expand-shown n i before lines (ltb→lt i size inside) rest,
            )
      ]
    ]

    -- For every buffer and size, in the mode of the source and in the one that shows all lines,
    -- `hex_dump` ends, and a reader who repeats the line before where one is missing gets back
    -- exactly the bytes of the buffer.
    pub dump_lines-expand :
        (lines : List Line) × (dump_lines buf full size ≡ some lines)
        × (expand size size 0 [] lines ≡ bytes buf 0 size)
    unfolding dump_lines
    dump_lines-expand =
        let (lines, e, from, all) =
          dump_from-expand size 0 [] (omega arith) (λ a lt. absurd (omega arith)) in
        let whole : size - 0 ≡ size = omega arith in (lines, e, all ∙ ap (bytes buf 0) whole)
