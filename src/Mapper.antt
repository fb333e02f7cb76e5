-- ===== src/Mapper.antt =====
-- The mapper of user pages of driver/xpcie.c: `sg_create_mapper`, `sg_destroy_mapper`,
-- `sgm_get_user_pages`, `sgm_put_user_pages` and `sgm_dirty_pages`; `sgm_kernel_pages` is in
-- KernelPages. The page and scatterlist arrays are lists, and an access past their end is an `oops`.
pub mod Pages
pub mod Paged
pub mod Bytes
pub mod Pin
pub mod Release
pub mod KernelPages
use xpcie.Base.{
  ℕ, zero, suc, ◌+◌, ◌-◌, ◌/◌, ◌^◌, Bool, true, false, not, Option, none, some, List, [], ◌∷◌, ◌++◌,
  map, length, replicate, ◌&&◌, bit_and, ltb, ◌==◌, if◌then◌else◌, Run, done, oops, ◌>>=◌, ◌>>◌,
  bug_on,
}
use xpcie.Platform.{Platform, u32, u64, sub64}
use xpcie.Kernel.{
  Sg, empty_sg, Event, get_page, put_page, dirty_page, flush_page, free_mapper, Pinned, failed,
  pinned, Scatter,
}

-- `struct sg_mapping_t`
pub record Mapper : Type 0 where
  pub sgl : List Sg
  pub pages : List ℕ
  pub max_pages : ℕ
  pub mapped_pages : ℕ

-- Whether each of the three `kcalloc` calls succeeds.
pub record Memory : Type 0 where
  pub has_mapper : Bool
  pub has_pages : Bool
  pub has_sgl : Bool

-- What the functions return: a number of entries, or a negative error number.
pub data Rc : Type 0 where
  entries : ℕ → Rc
  enomem einval : Rc

-- What `sgm_get_user_pages` leaves: its result, the mapper, and its calls.
pub record Got : Type 0 where
  pub rc : Rc
  pub sgm : Mapper
  pub events : List Event

-- The first `n` pages of the array, each handed to a function of the kernel.
unfoldable pub each_page : (ℕ → Event) → ℕ → List ℕ → Run (List Event)
each_page call zero pages = done []
each_page call (suc n) [] = oops
each_page call (suc n) (page ∷ pages) = do
  events ← each_page call n pages
  done (call page ∷ events)

-- `for (i = 0; i < n; i++) pages[i] = NULL;`
unfoldable pub clear_pages : ℕ → List ℕ → Run (List ℕ)
clear_pages zero pages = done pages
clear_pages (suc n) [] = oops
clear_pages (suc n) (page ∷ pages) = do rest ← clear_pages n pages; done (0 ∷ rest)

-- The pages that `get_user_pages_fast` stores from the start of the array.
unfoldable pub store_pages : List ℕ → List ℕ → Run (List ℕ)
store_pages [] pages = done pages
store_pages (new ∷ news) [] = oops
store_pages (new ∷ news) (page ∷ pages) = do rest ← store_pages news pages; done (new ∷ rest)

-- The number of pages of the array that the call fills in.
unfoldable pub stored : Pinned → List ℕ
stored failed = []
stored (pinned news) = news

-- The path `out_unmap`: the pages counted in `mapped_pages` are released.
unfoldable pub out_unmap : Mapper → List Event → Run Got
out_unmap sgm events = do
  puts ← each_page put_page sgm.mapped_pages sgm.pages
  done (record { rc = enomem; sgm = record sgm { mapped_pages = 0 }; events = events ++ puts })

module _ (p : Platform) where
  open p use {page_size, page_shift, page_mask, offset_in_page}

  -- `first`, `last` and `nr_pages` of `sgm_get_user_pages` and `sgm_kernel_pages`.
  unfoldable pub first_page : ℕ → ℕ
  first_page start = bit_and start page_mask / 2 ^ page_shift

  unfoldable pub last_page : ℕ → ℕ → ℕ
  last_page start count = bit_and (sub64 (u64 (start + count)) 1) page_mask / 2 ^ page_shift

  unfoldable pub nr_pages : ℕ → ℕ → ℕ
  nr_pages start count = u32 (sub64 (last_page start count) (first_page start) + 1)

  module _ (k : Scatter) where
    open k use {sg_set_page, sg_init_table}

    -- `sg_create_mapper`: `none` is NULL. `kcalloc` gives zeroed arrays.
    unfoldable pub sg_create_mapper : Memory → ℕ → Option Mapper
    sg_create_mapper m max_len =
        if max_len == 0
        then none
        else if m.has_mapper && m.has_pages && m.has_sgl
        then (let max_pages = u32 (max_len / page_size + 2) in
            some (record {
              sgl = sg_init_table (replicate max_pages empty_sg) max_pages;
              pages = replicate max_pages 0;
              max_pages = max_pages;
              mapped_pages = 0;
            }))
        else none

    -- The entries from 1 on: `middle` whole pages, then what is left of `count` in the last.
    unfoldable pub fill_rest : (middle : ℕ) → List ℕ → List Sg → ℕ → Run (List Sg)
    fill_rest zero (page ∷ pages) (s ∷ sgl) count = do
      bug_on (ltb page_size count)
      done (sg_set_page s page (u32 count) 0 ∷ sgl)
    fill_rest (suc middle) (page ∷ pages) (s ∷ sgl) count = do
      bug_on (ltb count page_size)
      rest ← fill_rest middle pages sgl (count - page_size)
      done (sg_set_page s page page_size 0 ∷ rest)
    fill_rest middle pages sgl count = oops

    -- The scatterlist: the first entry from the offset of `start` in its page, then the others.
    unfoldable pub fill_sgl : (start count nr : ℕ) → List ℕ → List Sg → Run (List Sg)
    fill_sgl start count nr (page ∷ pages) (s ∷ sgl) =
        let first = sg_set_page s page 0 (offset_in_page start) in
        if ltb 1 nr
        then (do
          let len = u32 (page_size - first.offset)
          rest ← fill_rest (nr - 2) pages sgl (sub64 count len)
          done (record first { length = len } ∷ rest))
        else done (record first { length = u32 count } ∷ sgl)
    fill_sgl start count nr pages sgl = oops

    -- All pages are there.
    unfoldable pub map_pages : Mapper → (start count nr : ℕ) → List Event → Run Got
    map_pages sgm start count nr events = do
      flushes ← each_page flush_page nr sgm.pages
      sgl ← fill_sgl start count nr sgm.pages sgm.sgl
      done (record {
        rc = entries nr;
        sgm = record sgm { sgl = sgl; mapped_pages = nr };
        events = events ++ flushes;
      })

    -- What follows the return of `get_user_pages_fast`, with the pages that it stored in the array.
    unfoldable pub after_pin : Mapper → (start count nr : ℕ) → Pinned → Run Got
    after_pin sgm start count nr failed = out_unmap sgm []
    after_pin sgm start count nr (pinned news) =
        let rc = length news in
        let events = map get_page news in
        if ltb rc nr
        then out_unmap (if ltb 0 rc then record sgm { mapped_pages = rc } else sgm) events
        else (bug_on (not (rc == nr)) >> map_pages sgm start count nr events)

    -- `sgm_get_user_pages`; the parameter is `get_user_pages_fast(start, nr_pages, write)`.
    unfoldable pub sgm_get_user_pages :
        (ℕ → ℕ → Bool → Pinned) → Mapper → (start count : ℕ) → Bool → Run Got
    sgm_get_user_pages get_user_pages_fast sgm start count dir_to_dev =
        let nr = nr_pages start count in
        let sgl = sg_init_table sgm.sgl nr in
        let got = get_user_pages_fast start nr (not dir_to_dev) in
        (do
          cleared ← clear_pages (nr - 1) sgm.pages
          pages ← store_pages (stored got) cleared
          after_pin (record sgm { sgl = sgl; pages = pages }) start count nr got)

-- `sgm_dirty_pages`
unfoldable pub sgm_dirty_pages : Mapper → Run (List Event)
sgm_dirty_pages sgm = each_page dirty_page sgm.mapped_pages sgm.pages

-- `sgm_put_user_pages`
unfoldable pub sgm_put_user_pages : Mapper → Bool → Run (Mapper × List Event)
sgm_put_user_pages sgm dir_to_dev = do
  dirtied ← if dir_to_dev then done [] else sgm_dirty_pages sgm
  puts ← each_page put_page sgm.mapped_pages sgm.pages
  done (record sgm { mapped_pages = 0 }, dirtied ++ puts)

-- `sg_destroy_mapper`
unfoldable pub sg_destroy_mapper : Mapper → Run (List Event)
sg_destroy_mapper sgm = do bug_on (ltb 0 sgm.mapped_pages); done (free_mapper ∷ [])
