-- ===== src/Mapper/Bytes.antt =====
-- The scatterlist that `sgm_get_user_pages` fills in holds the bytes of the buffer, in order.
use native.Mathlib.Nat.{mod-lt, div-add-mod'}
use xpcie.Base.{
  ℕ, zero, suc, ◌+◌, ◌-◌, ◌*◌, ◌/◌, ◌%◌, ◌^◌, ◌≤◌, ◌<◌, ◌≡◌, ap, ◌∙◌, sym, refl, true, false, List,
  [], ◌∷◌, append-nil, length, take, ltb, lt→ltb, le→ltb, done, arith,
}
use xpcie.Platform.{Platform, u32, sub64, page_size_pos, page_size-le}
use xpcie.Kernel.{Sg, Scatter}
use xpcie.Mapper.{fill_rest, fill_sgl}
use xpcie.Mapper.Pages.{span_pages}
use xpcie.Mapper.Paged.{sg_bytes, paged, paged-span, paged-page}

module _ (p : Platform) where
  open p use {page_size, offset_in_page, offset_in_page_lem}

  module _ (k : Scatter) where
    open k use {sg_set_page, sg_set_page_lem}

    -- What a filled list holds: entries `1` to `n` are the bytes of the pages.
    abbrev Filled : (n : ℕ) → (before after : List Sg) → List (ℕ × ℕ) → Type 0
    Filled n before after bytes = (length after ≡ length before) × (sg_bytes (take n after) ≡ bytes)

    -- With enough pages and entries no BUG_ON fires and the entries hold the rest of the buffer.
    fill_rest_lem :
        (middle : ℕ) (pages : List ℕ) (sgl : List Sg) (count : ℕ)
        → middle < length pages
        → middle < length sgl
        → middle * page_size < count
        → count ≤ (middle + 1) * page_size
        → (out : List Sg) × (fill_rest p k middle pages sgl count ≡ done out)
          × Filled (suc middle) sgl out (paged p pages 0 count)
    unfolding fill_rest sg_bytes
    fill_rest_lem zero [] sgl count hp hs lo hi = absurd (omega arith)
    fill_rest_lem zero (page ∷ pages) [] count hp hs lo hi = absurd (omega arith)
    fill_rest_lem zero (page ∷ pages) (s ∷ sgl) count hp hs lo hi =
        let fits : ltb page_size count ≡ false = le→ltb _ _ (omega arith) in
        let small : u32 count ≡ count = omega (arith, page_size-le p) in
        (
          sg_set_page s page (u32 count) 0 ∷ sgl,
          rw fits refl,
          (
            refl,
            rw (sg_set_page_lem, small, append-nil)
                (sym (paged-span p page pages 0 count (omega arith))),
          ),
        )
    fill_rest_lem (suc m) [] sgl count hp hs lo hi = absurd (omega arith)
    fill_rest_lem (suc m) (page ∷ pages) [] count hp hs lo hi = absurd (omega arith)
    fill_rest_lem (suc m) (page ∷ pages) (s ∷ sgl) count hp hs lo hi =
        let fits : ltb count page_size ≡ false = le→ltb _ _ (omega arith) in
        let rest =
          fill_rest_lem m pages sgl (count - page_size) (omega arith) (omega arith) (omega arith)
            (omega arith) in
        let split : count ≡ page_size + (count - page_size) = omega arith in
        (
          sg_set_page s page page_size 0 ∷ rest.0,
          rw (fits, rest.1) refl,
          (
            ap suc rest.2.0,
            rw (sg_set_page_lem, rest.2.1)
                (sym (
                  ap (paged p (page ∷ pages) 0) split
                  ∙ paged-page p page pages 0 page_size (count - page_size) (omega arith))),
          ),
        )

    -- A list of two entries or more: the first to the end of its page, and the rest.
    fill_sgl_many :
        (m start count page : ℕ) (pages : List ℕ) (s : Sg) (sgl rest : List Sg)
        → page_size - start % page_size < count
        → count < 2 ^ 31
        → fill_rest p k m pages sgl (count - (page_size - start % page_size)) ≡ done rest
        → fill_sgl p k start count (suc (suc m)) (page ∷ pages) (s ∷ sgl)
          ≡ done (
              record s {
                page = page;
                offset = start % page_size;
                length = page_size - start % page_size;
              }
              ∷ rest)
    unfolding fill_sgl
    fill_sgl_many m start count page pages s sgl rest long small e =
        let many : ltb 1 (suc (suc m)) ≡ true = lt→ltb _ _ (omega arith) in
        let middle : suc (suc m) - 2 ≡ m = omega arith in
        let len : u32 (page_size - start % page_size) ≡ page_size - start % page_size =
          omega (arith, page_size-le p) in
        let left : sub64 count (page_size - start % page_size)
            ≡ count - (page_size - start % page_size) =
          omega (arith, page_size-le p) in
        rw (many, middle, sg_set_page_lem, offset_in_page_lem, len, left, e) refl

    -- The same for the whole list, from the offset of `start` in its page.
    fill_sgl_upto :
        (nr start count : ℕ) (pages : List ℕ) (sgl : List Sg)
        → count < 2 ^ 31
        → nr ≤ length pages
        → nr ≤ length sgl
        → (nr - 1) * page_size < start % page_size + count
        → start % page_size + count ≤ nr * page_size
        → (out : List Sg) × (fill_sgl p k start count nr pages sgl ≡ done out)
          × Filled nr sgl out (paged p pages (start % page_size) count)
    unfolding fill_sgl sg_bytes
    fill_sgl_upto zero start count pages sgl small hp hs lo hi = absurd (omega arith)
    fill_sgl_upto (suc n) start count [] sgl small hp hs lo hi = absurd (omega arith)
    fill_sgl_upto (suc n) start count (page ∷ pages) [] small hp hs lo hi = absurd (omega arith)
    fill_sgl_upto (suc zero) start count (page ∷ pages) (s ∷ sgl) small hp hs lo hi =
        let len : u32 count ≡ count = omega arith in
        (
          record s { page = page; offset = start % page_size; length = count } ∷ sgl,
          rw (sg_set_page_lem, offset_in_page_lem, len) refl,
          (
            refl,
            rw append-nil (sym (paged-span p page pages (start % page_size) count (omega arith))),
          ),
        )
    fill_sgl_upto (suc (suc m)) start count (page ∷ pages) (s ∷ sgl) small hp hs lo hi =
        let off = start % page_size in
        let in_page = mod-lt start (page_size_pos p) in
        let before : suc (suc m) - 1 ≡ suc m = omega arith in
        let lo' : suc m * page_size < off + count = rw before at lo in
        let rest =
          fill_rest_lem m pages sgl (count - (page_size - off)) (omega arith) (omega arith)
            (omega arith) (omega arith) in
        let split : count ≡ page_size - off + (count - (page_size - off)) = omega arith in
        (
          record s { page = page; offset = off; length = page_size - off } ∷ rest.0,
          fill_sgl_many m start count page pages s sgl rest.0 (omega arith) small rest.1,
          (
            ap suc rest.2.0,
            rw rest.2.1 (
                sym (
                  ap (paged p (page ∷ pages) off) split
                  ∙ paged-page p page pages off (page_size - off) (count - (page_size - off))
                      (omega arith))),
          ),
        )

    -- For a buffer that is not empty, below 2 GiB, and arrays with room for its pages, no BUG_ON of
    -- the filling fires and no access is out of bounds; the entries that it fills in hold, in order,
    -- each byte of the buffer at its page and its offset in the page; and the number of entries of
    -- the array is as before.
    pub fill_sgl_lem :
        (start count : ℕ) (pages : List ℕ) (sgl : List Sg)
        → 0 < count
        → count < 2 ^ 31
        → span_pages p (start % page_size) count ≤ length pages
        → span_pages p (start % page_size) count ≤ length sgl
        → let nr = span_pages p (start % page_size) count in
          (out : List Sg) × (fill_sgl p k start count nr pages sgl ≡ done out)
          × (length out ≡ length sgl)
          × (sg_bytes (take nr out) ≡ paged p pages (start % page_size) count)
    fill_sgl_lem start count pages sgl pos small hp hs =
        let off = start % page_size in
        let q = div-add-mod' (off + count - 1) page_size in
        let r = mod-lt (off + count - 1) (page_size_pos p) in
        let one : span_pages p off count - 1 ≡ (off + count - 1) / page_size = omega arith in
        let lo : (span_pages p off count - 1) * page_size < off + count = rw one (omega arith) in
        let out =
          fill_sgl_upto (span_pages p off count) start count pages sgl small hp hs lo
            (omega arith) in
        (out.0, out.1, out.2.0, out.2.1)
