-- ===== src/Write/Fault.antt =====
-- A write that the kernel refuses a request: the driver does not look at the answers, and what
-- follows is a NULL pointer or a BUG_ON.
use xpcie.Base.{
  ℕ, zero, suc, ◌+◌, ◌-◌, ◌*◌, ◌%◌, ◌^◌, ◌≤◌, ◌<◌, ◌≡◌, ap, ◌∙◌, refl, Bool, true, false, ◌&&◌,
  Bool-cases, inl, inr, ◌⊎◌, none, some, List, [], ◌∷◌, length, ltb, ◌==◌, if◌then◌else◌, le→ltb,
  bug, oops, arith,
}
use xpcie.Platform.{Platform, u32}
use xpcie.Kernel.{Sg, Event, Pinned, pinned, Scatter}
use xpcie.Desc.{desc_size}
use xpcie.Mapper.{Mapper, Memory, stored, sg_create_mapper}
use xpcie.Mapper.Pages.{span_pages, nr_pages_lem, sg_create_mapper-nr_pages}
use xpcie.Mapper.Pin.{HasRoom, sgm_get_user_pages-partial, sgm_get_user_pages-all}
use xpcie.Transfer.{
  Mode, Build, new_desc, build_entry, build_from, transfer_build, xdma_desc_alloc, prepare,
}
use xpcie.Write.{Calls, h2c_mode, h2c_transfer, xpcie_h2c_write}
use xpcie.Write.Done.{write_steps}

-- Without a mapper there is nothing to write to.
sg_create_mapper-null :
    (p : Platform) (k : Scatter) (m : Memory) (count : ℕ)
    → (count ≡ 0) ⊎ ((m.has_mapper && m.has_pages && m.has_sgl) ≡ false)
    → sg_create_mapper p k m count ≡ none
unfolding sg_create_mapper
sg_create_mapper-null p k m count (inl e) = rw e refl
sg_create_mapper-null p k m zero (inr e) = refl
sg_create_mapper-null p k m (suc count) (inr e) =
    let other : (suc count == 0) ≡ false = ground arith in rw (other, e) refl

module _ (p : Platform) (m : Mode) where
  -- Building a list in no memory reaches the first descriptor and faults.
  build_from-null :
      (nents n : ℕ) (sgl : List Sg) (b : Build)
      → build_from p m nents n sgl (record b { desc_virt = []; j = 0 }) ≡ oops
  unfolding build_from build_entry
  build_from-null nents zero [] b = refl
  build_from-null nents zero (s ∷ sgl) b = rw (le→ltb nents 0 (omega arith)) refl
  build_from-null nents (suc n) [] b = refl
  build_from-null nents (suc n) (s ∷ []) b = refl
  build_from-null nents (suc n) (s ∷ t ∷ sgl) b =
      elim (Bool-cases
        (new_desc p m t.dma_address b.addr s.dma_length (u32 (b.cont_len + s.dma_length)))) [
          | inl new ↦ rw new refl
          | inr old ↦ rw old (
              build_from-null nents n (t ∷ sgl)
                (record b { cont_len = u32 (b.cont_len + s.dma_length); addr = t.dma_address }))
        ]

  prepare-null : (sgl : List Sg) (nents ep : ℕ) → prepare p m sgl nents [] ep ≡ oops
  unfolding prepare transfer_build
  prepare-null [] nents ep = refl
  prepare-null (s ∷ sgl) nents ep =
      rw
        (build_from-null nents (nents - 1) (s ∷ sgl) (record {
          desc_virt = [];
          j = 0;
          ep_addr = ep;
          cont_addr = s.dma_address;
          cont_len = 0;
          cont_max_len = 0;
          addr = s.dma_address;
        }))
        refl

module _ (p : Platform) (k : Scatter) (c : Calls) where
  open c use {memory, get_user_pages_fast, pci_map_sg, pci_alloc_consistent}

  -- A write of no bytes, or one for which an allocation of the mapper fails, ends in an access
  -- through the NULL pointer that `sg_create_mapper` returns.
  pub xpcie_h2c_write-null :
      (buf count ep : ℕ)
      → (count ≡ 0) ⊎ ((memory.has_mapper && memory.has_pages && memory.has_sgl) ≡ false)
      → xpcie_h2c_write p k c buf count ep ≡ oops
  unfolding xpcie_h2c_write
  xpcie_h2c_write-null buf count ep h =
      rw (sg_create_mapper-null p k memory count h, xpcie_h2c_write) refl

  -- A transfer that has no mapped page, that `pci_map_sg` maps to no entry, or that gets no memory
  -- for its descriptors.
  h2c_transfer-unmapped :
      (sgm : Mapper) (count ep : ℕ) (pins : List Event)
      → sgm.mapped_pages ≡ 0
      → h2c_transfer p k c sgm count ep pins ≡ bug
  unfolding h2c_transfer
  h2c_transfer-unmapped sgm count ep pins e = rw e refl

  h2c_transfer-refused :
      (sgm : Mapper) (count ep n : ℕ) (pins : List Event) (sgl : List Sg) (nents : ℕ)
      → sgm.mapped_pages ≡ suc n
      → pci_map_sg sgm.sgl (suc n) ≡ (sgl, nents)
      → ((n : ℕ) → pci_alloc_consistent (suc n * desc_size) ≡ none)
      → h2c_transfer p k c sgm count ep pins ≡ (if nents == 0 then bug else oops)
  unfolding h2c_transfer xdma_desc_alloc
  h2c_transfer-refused sgm count ep n pins sgl zero mapped maps refuses =
      let pages : (suc n == 0) ≡ false = ground arith in rw (mapped, pages, maps) refl
  h2c_transfer-refused sgm count ep n pins sgl (suc nents) mapped maps refuses =
      let pages : (suc n == 0) ≡ false = ground arith in
      let entries : (suc nents == 0) ≡ false = ground arith in
      let some_desc : ltb (suc nents) 1 ≡ false = le→ltb _ _ (omega arith) in
      rw
        (
          mapped,
          pages,
          maps,
          entries,
          some_desc,
          refuses nents,
          prepare-null p h2c_mode sgl (suc nents) ep,
        )
        refl

  module _ (buf count ep : ℕ) (pos : 0 < count) (small : count < 2 ^ 31)
      (fits : buf + count ≤ 2 ^ 64)
      (has : (memory.has_mapper ≡ true) × (memory.has_pages ≡ true) × (memory.has_sgl ≡ true)) where
    abbrev nr : ℕ
    nr = span_pages p (buf % p.page_size) count

    -- The mapper of the write has room for its pages.
    created :
        (sgm : Mapper) × (sg_create_mapper p k memory count ≡ some sgm) × HasRoom p sgm buf count
    created =
        let (sgm, create, pages, sgl, unmapped, enough) =
          sg_create_mapper-nr_pages p k memory buf count pos small fits has in
        let nr = nr_pages_lem p buf count pos small fits in
        (
          sgm,
          create,
          record {
            room_pages = omega (arith, nr, pages, enough);
            room_sgl = omega (arith, nr, sgl, enough);
            unmapped = unmapped;
          },
        )

    -- If `get_user_pages_fast` fails or pins fewer pages than the buffer spans, the -ENOMEM of
    -- `sgm_get_user_pages` is not looked at and the write of a good length ends in a BUG_ON.
    pub xpcie_h2c_write-partial :
        (got : Pinned)
        → get_user_pages_fast buf nr false ≡ got
        → length (stored got) < nr
        → xpcie_h2c_write p k c buf count ep ≡ bug
    xpcie_h2c_write-partial got e few =
        let (sgm, create, room) = created in
        let (out, pin, _, unmapped, _) =
          sgm_get_user_pages-partial p k get_user_pages_fast sgm buf count true pos small fits room
            got e few in
        write_steps p k c buf count ep sgm out out.events bug create pin refl
          (h2c_transfer-unmapped out.sgm count ep out.events unmapped)

    -- If all pages are pinned but there is no coherent memory, the write ends in an access through
    -- the NULL pointer that `xdma_desc_alloc` returns; if `pci_map_sg` fails too, which is no
    -- entries, it ends in the BUG_ON of `xdma_desc_alloc`.
    pub xpcie_h2c_write-refused :
        (news : List ℕ) (unmappable : Bool)
        → get_user_pages_fast buf nr false ≡ pinned news
        → length news ≡ nr
        → ((n : ℕ) → pci_alloc_consistent (suc n * desc_size) ≡ none)
        → ((sgl : List Sg) (n : ℕ) → 0 < n → ((pci_map_sg sgl n).1 == 0) ≡ unmappable)
        → xpcie_h2c_write p k c buf count ep ≡ (if unmappable then bug else oops)
    xpcie_h2c_write-refused news unmappable got all refuses answer =
        let (sgm, create, room) = created in
        let (out, pin, mapped) =
          sgm_get_user_pages-all p k get_user_pages_fast sgm buf count true pos small fits room news
            got all in
        let last : length news ≡ suc (length news - 1) = omega (arith, all) in
        write_steps p k c buf count ep sgm out out.events _ create pin refl (
          h2c_transfer-refused out.sgm count ep (length news - 1) out.events _ _
            (mapped.mapped ∙ last) refl refuses)
        ∙ ap (λ t. if t then bug else oops)
            (answer out.sgm.sgl (suc (length news - 1)) (omega arith))
