-- ===== src/Mapper/Pin.antt =====
-- Which pages `sgm_get_user_pages` keeps pinned.
use xpcie.Base.{
  ℕ, zero, suc, ◌+◌, ◌-◌, ◌%◌, ◌^◌, ◌≤◌, ◌<◌, ◌≡◌, ap, ◌∙◌, sym, refl, true, false, Bool, not, List,
  [], ◌∷◌, ◌++◌, map, length, take, ltb, ◌==◌, lt→ltb, le→ltb, done, arith,
}
use xpcie.Platform.{Platform}
use xpcie.Kernel.{Event, get_page, put_page, flush_page, Pinned, failed, pinned, Scatter}
use xpcie.Mapper.{
  Mapper, entries, enomem, Got, each_page, clear_pages, store_pages, stored, fill_sgl, map_pages,
  after_pin, sgm_get_user_pages,
}
use xpcie.Mapper.Release.{each_page-prefix, out_unmap_lem}
use xpcie.Mapper.Pages.{span_pages, span_pages-covers, nr_pages_lem}
use xpcie.Mapper.Bytes.{fill_sgl_lem}
use xpcie.Mapper.Paged.{paged-prefix, sg_bytes, paged}

clear_pages-length :
    (n : ℕ) (pages : List ℕ)
    → n ≤ length pages
    → (out : List ℕ) × (clear_pages n pages ≡ done out) × (length out ≡ length pages)
unfolding clear_pages
clear_pages-length zero pages h = (pages, refl, refl)
clear_pages-length (suc n) [] h = absurd (omega arith)
clear_pages-length (suc n) (page ∷ pages) h =
    let (out, e, l) = clear_pages-length n pages (omega arith) in (0 ∷ out, rw e refl, ap suc l)

store_pages-prefix :
    (news pages : List ℕ)
    → length news ≤ length pages
    → (rest : List ℕ) × (store_pages news pages ≡ done (news ++ rest))
      × (length (news ++ rest) ≡ length pages)
unfolding store_pages
store_pages-prefix [] pages h = (pages, refl, refl)
store_pages-prefix (new ∷ news) [] h = absurd (omega arith)
store_pages-prefix (new ∷ news) (page ∷ pages) h =
    let (rest, e, l) = store_pages-prefix news pages (omega arith) in (rest, rw e refl, ap suc l)

module _ (p : Platform) where
  open p use {page_size}

  -- A mapper whose arrays have room for the pages of a buffer, none of them mapped yet.
  pub record HasRoom (sgm : Mapper) (start count : ℕ) : Type 0 where
    pub room_pages : span_pages p (start % page_size) count ≤ length sgm.pages
    pub room_sgl : span_pages p (start % page_size) count ≤ length sgm.sgl
    pub unmapped : sgm.mapped_pages ≡ 0

  module _ (k : Scatter) where
    open k use {sg_init_table, length-sg_init_table}

    -- What is left when every page of the buffer is there, with the calls `pins` that got them.
    pub record MappedAll (sgm : Mapper) (start count : ℕ) (news : List ℕ) (pins : List Event)
        (out : Got) : Type 0 where
      pub returned : out.rc ≡ entries (length news)
      pub mapped : out.sgm.mapped_pages ≡ length news
      pub array : (rest : List ℕ) × (out.sgm.pages ≡ news ++ rest)
      pub calls : out.events ≡ pins ++ map flush_page news
      pub room : length out.sgm.sgl ≡ length sgm.sgl
      pub bytes : sg_bytes (take (length news) out.sgm.sgl) ≡ paged p news (start % page_size) count

    -- All pages are there: the list is filled in and the pages stay pinned.
    pub map_pages_lem :
        (sgm : Mapper) (start count : ℕ) (news rest : List ℕ) (pins : List Event)
        → 0 < count
        → count < 2 ^ 31
        → HasRoom sgm start count
        → sgm.pages ≡ news ++ rest
        → length news ≡ span_pages p (start % page_size) count
        → (out : Got) × (map_pages p k sgm start count (length news) pins ≡ done out)
          × MappedAll sgm start count news pins out
    unfolding map_pages
    map_pages_lem sgm start count news rest pins pos small room split all =
        let (sgl, e, l, b) =
          fill_sgl_lem p k start count sgm.pages sgm.sgl pos small room.room_pages room.room_sgl in
        let filled : fill_sgl p k start count (length news) sgm.pages sgm.sgl ≡ done sgl =
          rw all e in
        let flushed : each_page flush_page (length news) sgm.pages ≡ done (map flush_page news) =
          rw split (each_page-prefix flush_page news rest) in
        (
          record {
            rc = entries (length news);
            sgm = record sgm { sgl = sgl; mapped_pages = length news };
            events = pins ++ map flush_page news;
          },
          rw (flushed, filled) refl,
          record {
            returned = refl;
            mapped = refl;
            array = (rest, split);
            calls = refl;
            room = l;
            bytes =
                ap (λ n. sg_bytes (take n sgl)) all
                ∙ b
                ∙ ap (λ t. paged p t (start % page_size) count) split
                ∙ paged-prefix p news rest (start % page_size) count
                    (rw all (span_pages-covers p (start % page_size) count pos));
          },
        )

    after_pin-all :
        (sgm : Mapper) (start count nr : ℕ) (news : List ℕ)
        → length news ≡ nr
        → after_pin p k sgm start count nr (pinned news)
          ≡ map_pages p k sgm start count nr (map get_page news)
    unfolding after_pin
    after_pin-all sgm start count nr news all =
        let enough : ltb (length news) nr ≡ false = le→ltb _ _ (omega arith) in
        let same : (length news == nr) ≡ true = ground arith in rw (enough, same) refl

    after_pin-partial :
        (sgm : Mapper) (start count nr : ℕ) (got : Pinned) (rest : List ℕ)
        → sgm.pages ≡ stored got ++ rest
        → sgm.mapped_pages ≡ 0
        → length (stored got) < nr
        → after_pin p k sgm start count nr got
          ≡ done (record {
            rc = enomem;
            sgm = record sgm { mapped_pages = 0 };
            events = map get_page (stored got) ++ map put_page (stored got);
          })
    unfolding after_pin stored
    after_pin-partial sgm start count nr failed rest split unmapped few =
        out_unmap_lem sgm [] rest split unmapped
    after_pin-partial sgm start count nr (pinned []) rest split unmapped few =
        rw (lt→ltb 0 nr few) (out_unmap_lem sgm [] rest split unmapped)
    after_pin-partial sgm start count nr (pinned (new ∷ news)) rest split unmapped few =
        let some_pages : ltb 0 (suc (length news)) ≡ true = lt→ltb _ _ (omega arith) in
        rw (lt→ltb (suc (length news)) nr few, some_pages)
          (out_unmap_lem (record sgm { mapped_pages = suc (length news) }) (new ∷ news) rest split
            refl)

    module _ (get_user_pages_fast : ℕ → ℕ → Bool → Pinned) (sgm : Mapper) (start count : ℕ)
        (dir_to_dev : Bool) (pos : 0 < count) (small : count < 2 ^ 31)
        (fits : start + count ≤ 2 ^ 64) (room : HasRoom sgm start count) where
      abbrev nr : ℕ
      nr = span_pages p (start % page_size) count

      -- The calls before the result of `get_user_pages_fast` is looked at.
      pinned_array :
          (got : Pinned)
          → get_user_pages_fast start nr (not dir_to_dev) ≡ got
          → length (stored got) ≤ nr
          → (rest : List ℕ) × (sgm_get_user_pages p k get_user_pages_fast sgm start count dir_to_dev
              ≡ after_pin p k
                  (record sgm { sgl = sg_init_table sgm.sgl nr; pages = stored got ++ rest })
                  start
                  count
                  nr
                  got)
            × (length (stored got ++ rest) ≡ length sgm.pages)
      unfolding sgm_get_user_pages
      pinned_array got e h =
          let (cleared, ec, lc) =
            clear_pages-length (nr - 1) sgm.pages (omega (arith, room.room_pages)) in
          let (rest, es, ls) =
            store_pages-prefix (stored got) cleared (omega (arith, room.room_pages)) in
          (rest, rw (nr_pages_lem p start count pos small fits, e, ec, es) refl, ls ∙ lc)

      -- For a buffer of 1 to 2^31 - 1 bytes that ends within the address space, and a mapper that has
      -- no mapped page and room in both arrays for the pages of the buffer: if
      -- `get_user_pages_fast` pins every page of the buffer, no BUG_ON fires and no access is out of
      -- bounds; the function returns their number, keeps them pinned and recorded in
      -- `mapped_pages` and in the array, flushes each, and the scatterlist holds the bytes of the
      -- buffer in order.
      pub sgm_get_user_pages-all :
          (news : List ℕ)
          → get_user_pages_fast start nr (not dir_to_dev) ≡ pinned news
          → length news ≡ nr
          → (out : Got) × (sgm_get_user_pages p k get_user_pages_fast sgm start count dir_to_dev
              ≡ done out)
            × MappedAll sgm start count news (map get_page news) out
      unfolding stored
      sgm_get_user_pages-all news got all =
          let (rest, e, l) = pinned_array (pinned news) got (omega arith) in
          let sgm' = record sgm { sgl = sg_init_table sgm.sgl nr; pages = news ++ rest } in
          let (out, m, mapped) =
            map_pages_lem sgm' start count news rest (map get_page news) pos small (room' rest l)
              refl all in
          (
            out,
            e
                ∙ after_pin-all sgm' start count nr news all
                ∙ ap (λ n. map_pages p k sgm' start count n (map get_page news)) (sym all)
                ∙ m,
            record {
              returned = mapped.returned;
              mapped = mapped.mapped;
              array = mapped.array;
              calls = mapped.calls;
              room = mapped.room ∙ length-sg_init_table sgm.sgl nr;
              bytes = mapped.bytes;
            },
          )
        where
          room' :
              (rest : List ℕ)
              → length (news ++ rest) ≡ length sgm.pages
              → HasRoom
                  (record sgm { sgl = sg_init_table sgm.sgl nr; pages = news ++ rest })
                  start
                  count
          room' rest l = record {
            room_pages = omega (arith, room.room_pages);
            room_sgl = omega (arith, room.room_sgl, length-sg_init_table sgm.sgl nr);
            unmapped = room.unmapped;
          }

      -- For a buffer of 1 to 2^31 - 1 bytes that ends within the address space, and a mapper that has
      -- no mapped page and room in both arrays for the pages of the buffer: if
      -- `get_user_pages_fast` fails or pins fewer pages than the buffer spans, the function ends with
      -- no BUG_ON and no access out of bounds, returns -ENOMEM, no page is counted as mapped, and
      -- each page that was pinned, and no other, is released, in order.
      pub sgm_get_user_pages-partial :
          (got : Pinned)
          → get_user_pages_fast start nr (not dir_to_dev) ≡ got
          → length (stored got) < nr
          → (out : Got) × (sgm_get_user_pages p k get_user_pages_fast sgm start count dir_to_dev
              ≡ done out)
            × (out.rc ≡ enomem)
            × (out.sgm.mapped_pages ≡ 0)
            × (out.events ≡ map get_page (stored got) ++ map put_page (stored got))
      sgm_get_user_pages-partial got e h =
          let (rest, before, l) = pinned_array got e (omega arith) in
          let sgm' = record sgm { sgl = sg_init_table sgm.sgl nr; pages = stored got ++ rest } in
          (
            record {
              rc = enomem;
              sgm = record sgm' { mapped_pages = 0 };
              events = map get_page (stored got) ++ map put_page (stored got);
            },
            before ∙ after_pin-partial sgm' start count nr got rest refl room.unmapped h,
            refl,
            refl,
            refl,
          )
