-- ===== src/HexDump/Rounds.antt =====
-- How often the loop of `hex_dump` in app/LogUtils.cpp runs.
use xpcie.Base.{
  ℕ, zero, suc, ◌+◌, ◌*◌, ◌≤◌, ◌<◌, ◌≡◌, ◌∙◌, sym, refl, Bool, true, false, Bool-cases, inl, inr,
  none, some, List, [], ◌∷◌, length, ltb, arith,
}
use xpcie.HexDump.{wide, Line, line_at, skipped, dump_from, dump_lines}

module _ (buf : ℕ → ℕ) (full : Bool) (size : ℕ) where
  -- With too few rounds the fuel runs out.
  dump_from-none : (n i : ℕ) → i + n * wide < size → dump_from buf full size n i ≡ none
  unfolding dump_from
  dump_from-none zero i short = let inside : ltb i size ≡ true = ground arith in rw inside refl
  dump_from-none (suc n) i short =
      let rest = dump_from-none n (i + wide) (omega arith) in
      let inside : ltb i size ≡ true = ground arith in
      elim (Bool-cases (skipped buf full size i)) [
        | inl skip ↦ rw (inside, skip) rest
        | inr show ↦ rw (inside, show, rest) refl
      ]

  -- With enough, more of it makes no difference.
  dump_from-some :
      (n m i : ℕ)
      → n ≤ m
      → size ≤ i + n * wide
      → (lines : List Line) × (dump_from buf full size n i ≡ some lines)
        × (dump_from buf full size m i ≡ some lines)
        × (length lines ≤ n)
  unfolding dump_from
  dump_from-some zero zero i le enough =
      let past : ltb i size ≡ false = ground arith in ([], rw past refl, rw past refl, omega arith)
  dump_from-some zero (suc m) i le enough =
      let past : ltb i size ≡ false = ground arith in ([], rw past refl, rw past refl, omega arith)
  dump_from-some (suc n) zero i le enough = absurd (omega arith)
  dump_from-some (suc n) (suc m) i le enough =
      let (lines, now, ever, few) = dump_from-some n m (i + wide) (omega arith) (omega arith) in
      elim (Bool-cases (ltb i size)) [
        | inr past ↦ ([], rw past refl, rw past refl, omega arith)
        | inl inside ↦ elim (Bool-cases (skipped buf full size i)) [
          | inl skip ↦ (lines, rw (inside, skip) now, rw (inside, skip) ever, omega (arith, few))
          | inr show ↦ (
            line_at buf full size i ∷ lines,
            rw (inside, show, now) refl,
            rw (inside, show, ever) refl,
            omega (arith, few),
          )
        ]
      ]

  -- For a buffer of more than n * 16 and at most (n + 1) * 16 bytes the loop runs exactly n + 1
  -- times: with n rounds it has not ended, with n + 1 it has, with at most n + 1 lines, and those
  -- are the lines with any number m of rounds from n + 1 on and the lines of `hex_dump`.
  pub dump_from-rounds :
      (n m : ℕ)
      → n * wide < size
      → size ≤ suc n * wide
      → n < m
      → (lines : List Line) × (dump_from buf full size n 0 ≡ none)
        × (dump_from buf full size (suc n) 0 ≡ some lines)
        × (dump_from buf full size m 0 ≡ some lines)
        × (dump_lines buf full size ≡ some lines)
        × (length lines ≤ suc n)
  unfolding dump_lines
  dump_from-rounds n m above enough le =
      let (lines, now, ever, few) = dump_from-some (suc n) m 0 (omega arith) (omega arith) in
      let (same, again, source, _) = dump_from-some (suc n) size 0 (omega arith) (omega arith) in
      (lines, dump_from-none n 0 (omega arith), now, ever, source ∙ sym again ∙ now, few)
