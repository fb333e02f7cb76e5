-- ===== src/Mapper/KernelPages.antt =====
-- `sgm_kernel_pages` of driver/xpcie.c: the scatterlist of a buffer in vmalloc()ed memory. What
-- `vmalloc_to_page` and `PageHighMem` (linux/mm.h) say of an address and of a page is a parameter.
-- A number of pages from 2^31 on, which is a negative `int`, is not told from a positive one.
use xpcie.Base.{
  ℕ, zero, suc, ◌+◌, ◌%◌, ◌^◌, ◌<◌, ◌≡◌, ◌⊎◌, inl, inr, refl, Bool, Bool-cases, true, false, List,
  [], ◌∷◌, ltb, le→ltb, lt→ltb, ◌==◌, if◌then◌else◌, Run, done, oops, bug_on, ◌>>=◌, ◌>>◌, arith,
}
use xpcie.Platform.{Platform, u64}
use xpcie.Kernel.{Scatter}
use xpcie.Mapper.{Mapper, entries, enomem, einval, Got, nr_pages, map_pages}
use xpcie.Mapper.Pages.{span_pages}
use xpcie.Mapper.Pin.{HasRoom}

module _ (p : Platform) (vmalloc_to_page : ℕ → ℕ) (page_high_mem : ℕ → Bool) where
  open p use {page_size}

  -- The loop over the pages from `virt` on: whether each was there, and the array.
  unfoldable pub kernel_pages : (n virt : ℕ) → List ℕ → Run (Bool × List ℕ)
  kernel_pages zero virt pages = done (true, pages)
  kernel_pages (suc n) virt [] = oops
  kernel_pages (suc n) virt (page ∷ pages) =
      let new = vmalloc_to_page virt in
      let rest = kernel_pages n (u64 (virt + page_size)) pages in
      if new == 0
      then done (false, 0 ∷ pages)
      else (do bug_on (page_high_mem new); (all, pages') ← rest; done (all, new ∷ pages'))

  -- The pages themselves.
  unfoldable pub virt_pages : (n virt : ℕ) → List ℕ
  virt_pages zero virt = []
  virt_pages (suc n) virt = vmalloc_to_page virt ∷ virt_pages n (u64 (virt + page_size))

  -- Each page is there and in low memory.
  abbrev pub AllLow : List ℕ → Type 0
  AllLow [] = Unit
  AllLow (page ∷ pages) = (0 < page) × (page_high_mem page ≡ false) × AllLow pages

  module _ (k : Scatter) where
    open k use {sg_init_table, length-sg_init_table}

    -- What follows the loop over the pages.
    unfoldable pub kernel_mapped : Mapper → (start count nr : ℕ) → Bool × List ℕ → Run Got
    kernel_mapped sgm start count nr got =
        if got.0
        then map_pages p k (record sgm { pages = got.1 }) start count nr []
        else done (record {
          rc = enomem;
          sgm = record sgm { pages = got.1; mapped_pages = 0 };
          events = [];
        })

    unfoldable pub sgm_kernel_pages : Mapper → (start count : ℕ) → Run Got
    sgm_kernel_pages sgm start count =
        let nr = nr_pages p start count in
        (do
          bug_on (ltb 0 sgm.mapped_pages)
          (if ltb (u64 (start + count)) start
              then done (record { rc = einval; sgm = sgm; events = [] })
              else if ltb sgm.max_pages nr
              then done (record { rc = einval; sgm = sgm; events = [] })
              else if count == 0
              then done (record { rc = entries 0; sgm = sgm; events = [] })
              else (do
                got ← kernel_pages nr start sgm.pages
                kernel_mapped (record sgm { sgl = sg_init_table sgm.sgl nr }) start count nr got)))

    module _ (sgm : Mapper) (start count : ℕ) (pos : 0 < count) (small : count < 2 ^ 31)
        (fits : start + count < 2 ^ 64) (room : HasRoom p sgm start count) where
      abbrev nr : ℕ
      nr = span_pages p (start % page_size) count

      abbrev news : List ℕ
      news = virt_pages nr start

    -- With no page mapped, a buffer that wraps around the address space, or that spans more pages
    -- than the mapper has room for, is refused with -EINVAL, and the mapper stays as it is.
    sgm_kernel_pages-refused :
        (sgm : Mapper) (start count : ℕ)
        → sgm.mapped_pages ≡ 0
        → (u64 (start + count) < start) ⊎ (sgm.max_pages < nr_pages p start count)
        → sgm_kernel_pages sgm start count ≡ done (record { rc = einval; sgm = sgm; events = [] })
    unfolding sgm_kernel_pages
    sgm_kernel_pages-refused sgm start count unmapped (inl wraps) =
        let free : ltb 0 sgm.mapped_pages ≡ false = le→ltb _ _ (omega (arith, unmapped)) in
        rw (free, lt→ltb (u64 (start + count)) start wraps) refl
    sgm_kernel_pages-refused sgm start count unmapped (inr many) =
        let free : ltb 0 sgm.mapped_pages ≡ false = le→ltb _ _ (omega (arith, unmapped)) in
        elim (Bool-cases (ltb (u64 (start + count)) start)) [
          | inl wraps ↦ rw (free, wraps) refl
          | inr fits ↦ rw (free, fits, lt→ltb sgm.max_pages (nr_pages p start count) many) refl
        ]
