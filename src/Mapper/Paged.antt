-- ===== src/Mapper/Paged.antt =====
-- The bytes of a buffer of the user, and of a scatterlist, as pages and offsets.
use native.Mathlib.Nat.{mod-eq_of_lt, div-eq_of_lt, add-div_left, add-mod_left}
use native.Mathlib.Numerals.{add-one}
use native.Mathlib.Nat.{div-lt_iff_lt-mul}
use xpcie.Base.{
  ℕ, zero, suc, ◌+◌, ◌*◌, ◌/◌, ◌%◌, ◌≤◌, ◌<◌, ◌≡◌, ap, ap₂, ◌∙◌, refl, List, [], ◌∷◌, ◌++◌, length,
  get_or, arith,
}
use xpcie.Platform.{Platform, page_size_pos}
use xpcie.Kernel.{Sg}

-- The bytes of one page, as pairs of page and offset.
abbrev pub span : (page off len : ℕ) → List (ℕ × ℕ)
span page off zero = []
span page off (suc len) = (page, off) ∷ span page (suc off) len

-- The bytes of the entries of a scatterlist.
unfoldable pub sg_bytes : List Sg → List (ℕ × ℕ)
sg_bytes [] = []
sg_bytes (s ∷ sgl) = span s.page s.offset s.length ++ sg_bytes sgl

get_or-append : (xs ys : List ℕ) (i : ℕ) → i < length xs → get_or (xs ++ ys) i 0 ≡ get_or xs i 0
get_or-append [] ys i h = absurd (omega arith)
get_or-append (x ∷ xs) ys zero h = refl
get_or-append (x ∷ xs) ys (suc i) h = get_or-append xs ys i (omega arith)

module _ (p : Platform) where
  open p use {page_size, offset_in_page, offset_in_page_lem}

  -- The buffer itself: `count` bytes from offset `off` of the first of the pages, each at the
  -- page and the offset that its address says.
  unfoldable pub paged : List ℕ → (off count : ℕ) → List (ℕ × ℕ)
  paged pages off zero = []
  paged pages off (suc count) =
      (get_or pages (off / page_size) 0, off % page_size) ∷ paged pages (suc off) count

  pub length-paged : (pages : List ℕ) (off count : ℕ) → length (paged pages off count) ≡ count
  unfolding paged
  length-paged pages off zero = refl
  length-paged pages off (suc count) = ap suc (length-paged pages (suc off) count)

  pub paged-append :
      (pages : List ℕ) (off m n : ℕ)
      → paged pages off (m + n) ≡ paged pages off m ++ paged pages (off + m) n
  unfolding paged
  paged-append pages off zero n = ap₂ (paged pages) {x = off} (omega arith) (omega arith)
  paged-append pages off (suc m) n =
      let count : suc m + n ≡ suc (m + n) = omega arith in
      let next : suc off + m ≡ off + suc m = omega arith in
      ap (paged pages off) count
      ∙ ap (λ t. (get_or pages (off / page_size) 0, off % page_size) ∷ t)
          (paged-append pages (suc off) m n
            ∙ ap (λ t. paged pages (suc off) m ++ paged pages t n) next)

  -- Within the first page.
  pub paged-span :
      (page : ℕ) (pages : List ℕ) (off n : ℕ)
      → off + n ≤ page_size
      → paged (page ∷ pages) off n ≡ span page off n
  unfolding paged
  paged-span page pages off zero h = refl
  paged-span page pages off (suc n) h =
      let lt : off < page_size = omega arith in
      rw (div-eq_of_lt lt, mod-eq_of_lt lt)
        (ap (λ t. (page, off) ∷ t) (paged-span page pages (suc off) n (omega arith)))

  -- From the second page on.
  pub paged-tail :
      (page : ℕ) (pages : List ℕ) (off n : ℕ)
      → paged (page ∷ pages) (page_size + off) n ≡ paged pages off n
  unfolding paged
  paged-tail page pages off zero = refl
  paged-tail page pages off (suc n) =
      let next : suc (page_size + off) ≡ page_size + suc off = omega arith in
      rw
        (
          add-div_left off (page_size_pos p),
          add-mod_left,
          next,
          paged-tail page pages (suc off) n,
          add-one,
        )
        refl

  -- One whole page, and the rest.
  pub paged-page :
      (page : ℕ) (pages : List ℕ) (off len n : ℕ)
      → off + len ≡ page_size
      → paged (page ∷ pages) off (len + n) ≡ span page off len ++ paged pages 0 n
  paged-page page pages off len n e =
      let end : off + len ≡ page_size + 0 = omega arith in
      paged-append (page ∷ pages) off len n
      ∙ ap₂ ◌++◌ (paged-span page pages off len (omega arith))
          (ap (λ t. paged (page ∷ pages) t n) end ∙ paged-tail page pages 0 n)

  -- The bytes of a buffer depend on the pages that it spans alone.
  pub paged-prefix :
      (xs ys : List ℕ) (off n : ℕ)
      → off + n ≤ length xs * page_size
      → paged (xs ++ ys) off n ≡ paged xs off n
  unfolding paged
  paged-prefix xs ys off zero h = refl
  paged-prefix xs ys off (suc n) h =
      let index : off / page_size < length xs =
        (div-lt_iff_lt-mul {x = off} {y = length xs} (page_size_pos p)).1 (omega arith) in
      ap₂ (λ s t. (s, off % page_size) ∷ t) (get_or-append xs ys (off / page_size) index)
        (paged-prefix xs ys (suc off) n (omega arith))
