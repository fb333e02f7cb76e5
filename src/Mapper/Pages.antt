-- ===== src/Mapper/Pages.antt =====
-- How many pages a buffer spans, and that the mapper of its size has room for them.
use native.Mathlib.Nat.{
  mul-add-div, div-add-mod, div-add-mod', mod-lt, zero-div, div-lt_iff_lt-mul, div-le_self,
}
use native.Mathlib.Nat.{lt-div-mul-add}
use xpcie.Base.{
  ℕ, ◌+◌, ◌-◌, ◌*◌, ◌/◌, ◌%◌, ◌^◌, ◌≤◌, ◌<◌, ◌≡◌, ap, ◌∙◌, refl, true, some, length,
  length-replicate, replicate, bit_and, arith,
}
use xpcie.Platform.{Platform, u32, u64, sub64, page_size_pos}
use xpcie.Kernel.{empty_sg, Scatter}
use xpcie.Mapper.{Mapper, Memory, sg_create_mapper, first_page, last_page, nr_pages}

module _ (p : Platform) where
  open p use {page_size, page_shift, page_size_lem, page_mask, page_mask_lem}

  -- The pages that hold the bytes from offset `off` of the first one on, `count` of them.
  abbrev pub span_pages : (off count : ℕ) → ℕ
  span_pages off count = (off + count - 1) / page_size + 1

  -- A masked and shifted address is a page number.
  page_number : (x : ℕ) → x < 2 ^ 64 → bit_and x page_mask / 2 ^ page_shift ≡ x / page_size
  page_number x h =
      let pos = page_size_pos p in
      let base : bit_and x page_mask ≡ page_size * (x / page_size) + 0 =
        omega (arith, page_mask_lem x h, div-add-mod x page_size) in
      rw (base, ← page_size_lem)
        (omega (arith, mul-add-div pos (x / page_size) 0, zero-div page_size))

  first_page_lem : (start : ℕ) → start < 2 ^ 64 → first_page p start ≡ start / page_size
  unfolding first_page
  first_page_lem start h = page_number start h

  last_page_lem :
      (start count : ℕ)
      → 0 < count
      → start + count ≤ 2 ^ 64
      → last_page p start count ≡ (start + count - 1) / page_size
  unfolding last_page
  last_page_lem start count pos h =
      let e : sub64 (u64 (start + count)) 1 ≡ start + count - 1 = omega arith in
      rw e (page_number (start + count - 1) (omega arith))

  pub last-first :
      (start count : ℕ)
      → 0 < count
      → (start + count - 1) / page_size
        ≡ start / page_size + (start % page_size + count - 1) / page_size
  last-first start count pos =
      let e : start + count - 1
          ≡ page_size * (start / page_size) + (start % page_size + count - 1) =
        omega (arith, div-add-mod start page_size) in
      ap (λ t. t / page_size) e ∙ mul-add-div (page_size_pos p) _ _

  pub span_pages-covers :
      (off count : ℕ) → 0 < count → off + count ≤ span_pages off count * page_size
  span_pages-covers off count h =
      omega (
        arith,
        div-add-mod' (off + count - 1) page_size,
        mod-lt (off + count - 1) (page_size_pos p),
      )

  span_pages-le : (off count : ℕ) → off < page_size → span_pages off count ≤ count / page_size + 2
  span_pages-le off count h =
      let pos = page_size_pos p in
      let top : off + count - 1 < (count / page_size + 2) * page_size =
        omega (arith, lt-div-mul-add {a = count} pos) in
      omega (arith, (div-lt_iff_lt-mul pos).1 top)

  -- A buffer that is not empty and ends within the address space spans that many pages.
  pub nr_pages_lem :
      (start count : ℕ)
      → 0 < count
      → count < 2 ^ 31
      → start + count ≤ 2 ^ 64
      → nr_pages p start count ≡ span_pages (start % page_size) count
  unfolding nr_pages
  nr_pages_lem start count pos small h = omega (
    arith,
    first_page_lem start (omega arith),
    last_page_lem start count pos h,
    last-first start count pos,
    div-le_self start page_size,
    div-le_self count page_size,
    span_pages-le (start % page_size) count (mod-lt start (page_size_pos p)),
  )

  pub nr_pages-u32 : (start count : ℕ) → nr_pages p start count < 2 ^ 32
  unfolding nr_pages
  nr_pages-u32 start count = omega arith

  -- `sg_create_mapper` for a number of bytes below 2 GiB gives, if the three allocations succeed,
  -- a mapper with no page mapped, whose arrays hold `max_pages` entries: enough for a buffer of
  -- that many bytes at any address.
  pub sg_create_mapper-nr_pages :
      (k : Scatter) (m : Memory) (start count : ℕ)
      → 0 < count
      → count < 2 ^ 31
      → start + count ≤ 2 ^ 64
      → (m.has_mapper ≡ true) × (m.has_pages ≡ true) × (m.has_sgl ≡ true)
      → (sgm : Mapper) × (sg_create_mapper p k m count ≡ some sgm)
        × (length sgm.pages ≡ sgm.max_pages)
        × (length sgm.sgl ≡ sgm.max_pages)
        × (sgm.mapped_pages ≡ 0)
        × (nr_pages p start count ≤ sgm.max_pages)
  unfolding sg_create_mapper
  sg_create_mapper-nr_pages k m start count pos small h got =
      let n = u32 (count / page_size + 2) in
      (
        record {
          sgl = k.sg_init_table (replicate n empty_sg) n;
          pages = replicate n 0;
          max_pages = n;
          mapped_pages = 0;
        },
        ground arith,
        length-replicate n 0,
        k.length-sg_init_table (replicate n empty_sg) n ∙ length-replicate n empty_sg,
        refl,
        omega (
          arith,
          nr_pages_lem start count pos small h,
          span_pages-le (start % page_size) count (mod-lt start (page_size_pos p)),
          div-le_self count page_size,
        ),
      )
