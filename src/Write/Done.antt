-- ===== src/Write/Done.antt =====
-- A write that succeeds: the bytes of the user's buffer reach the end point, and every page that
-- was pinned is released.
use mathlib.Core.Path.{subst}
use xpcie.Base.{
  ℕ, zero, suc, ◌+◌, ◌*◌, ◌%◌, ◌^◌, ◌≤◌, ◌<◌, ◌≡◌, ap, ap₂, ◌∙◌, sym, refl, true, false, some, List,
  [], ◌∷◌, ◌++◌, map, length, take, ◌==◌, Run, done, arith,
}
use xpcie.Platform.{Platform}
use xpcie.Kernel.{
  Sg, Event, get_page, put_page, flush_page, map_sg, unmap_sg, alloc_consistent, free_mapper,
  pinned, Scatter,
}
use xpcie.Desc.{Desc, desc_size}
use xpcie.Mapper.{Mapper, Got, sg_create_mapper, sgm_get_user_pages}
use xpcie.Mapper.Pages.{span_pages, nr_pages_lem, nr_pages-u32, sg_create_mapper-nr_pages}
use xpcie.Mapper.Paged.{sg_bytes, paged, length-paged}
use xpcie.Mapper.Release.{sgm_put_user_pages_lem}
use xpcie.Mapper.Pin.{HasRoom, sgm_get_user_pages-all}
use xpcie.Transfer.{xdma_desc_alloc, prepare}
use xpcie.Transfer.Alloc.{xdma_desc_alloc-Chain}
use xpcie.Transfer.Blocks.{AddressesFit, blocks, length-blocks}
use xpcie.Transfer.Moves.{AllWithin}
use xpcie.Transfer.Walk.{at_bus, walk, walk-prepare}
use xpcie.Transfer.Bus.{numbered, bus_bytes, sg_moves-numbered, Mapped, MapsBytes, Allocates}
use xpcie.Engine.{transfer_start}
use xpcie.Transfer.Dump.{transfer_dump-done}
use xpcie.Write.{Calls, Written, h2c_mode, h2c_transfer, xpcie_h2c_write}

split_at :
    (n : ℕ) (xs : List Sg)
    → n ≤ length xs
    → (ys zs : List Sg) × (xs ≡ ys ++ zs) × (length ys ≡ n) × (take n xs ≡ ys)
split_at zero xs h = ([], xs, refl, refl, refl)
split_at (suc n) [] h = absurd (omega arith)
split_at (suc n) (x ∷ xs) h =
    let (ys, zs, e, l, t) = split_at n xs (omega arith) in
    (x ∷ ys, zs, ap (λ t. x ∷ t) e, ap suc l, ap (λ t. x ∷ t) t)

-- The calls of a write of the pages `news`, mapped as `nents` entries, in order.
unfoldable pub write_events : Platform → (news : List ℕ) (nents desc_bus desc_num : ℕ) → List Event
write_events p news nents desc_bus desc_num =
    (map get_page news ++ map flush_page news)
    ++ (map_sg (length news) ∷ alloc_consistent (nents * desc_size) ∷ [])
    ++ transfer_start p desc_bus desc_num
    ++ (unmap_sg (length news) ∷ [])
    ++ map put_page news
    ++ (free_mapper ∷ [])

-- What the write of `count` bytes of the pages `news`, from offset `off` on, leaves.
pub record Sent (p : Platform) (bus_of : ℕ × ℕ → ℕ) (ep count off : ℕ) (news : List ℕ) (w : Written)
    : Type 0 where
  pub returned : w.count ≡ count
  pub some_desc : 0 < w.desc_num
  pub address : w.desc_bus < 2 ^ 64
  pub transferred :
      walk p true w.desc_num (at_bus w.desc_bus w.desc_virt) w.desc_bus
      ≡ some (numbered ep (map bus_of (paged p news off count)))
  pub calls : (nents : ℕ) × (w.events ≡ write_events p news nents w.desc_bus w.desc_num)
  pub some_entry : 0 < calls.0

module _ (p : Platform) (k : Scatter) (c : Calls) where
  open c use {memory, get_user_pages_fast, pci_map_sg, pci_alloc_consistent}

  -- The steps of a transfer, from their results.
  h2c_steps :
      (sgm : Mapper) (count ep : ℕ) (news rest : List ℕ)
      → sgm.pages ≡ news ++ rest
      → sgm.mapped_pages ≡ length news
      → 0 < length news
      → (sgl : List Sg) (nents bus desc_num : ℕ) (ds out : List Desc)
      → pci_map_sg sgm.sgl (length news) ≡ (sgl, nents)
      → xdma_desc_alloc p pci_alloc_consistent nents ≡ done (some (bus, ds))
      → prepare p h2c_mode sgl nents ds ep ≡ done (out, desc_num)
      → 0 < desc_num
      → desc_num ≤ length out
      → h2c_transfer p k c sgm count ep (map get_page news ++ map flush_page news)
        ≡ done (record {
          count = count;
          events = write_events p news nents bus desc_num;
          desc_virt = out;
          desc_bus = bus;
          desc_num = desc_num;
        })
  unfolding h2c_transfer write_events
  h2c_steps sgm count ep news rest split mapped some_page sgl nents bus desc_num ds out maps alloc
        prep some_desc there =
      let (put, destroy, _) =
        sgm_put_user_pages_lem (record sgm { sgl = sgl; mapped_pages = length news }) news rest true
          split refl in
      let pages : (length news == 0) ≡ false = ground arith in
      let (_, dumped, _) = transfer_dump-done p out desc_num some_desc there in
      rw (mapped, pages, maps, alloc, prep, dumped, put, destroy) refl

  pub write_steps :
      (buf count ep : ℕ) (sgm : Mapper) (out : Got) (pins : List Event) (r : Run Written)
      → sg_create_mapper p k memory count ≡ some sgm
      → sgm_get_user_pages p k get_user_pages_fast sgm buf count true ≡ done out
      → out.events ≡ pins
      → h2c_transfer p k c out.sgm count ep pins ≡ r
      → xpcie_h2c_write p k c buf count ep ≡ r
  unfolding xpcie_h2c_write
  write_steps buf count ep sgm out pins r create pin events transfer =
      rw (create, xpcie_h2c_write, pin, events) transfer

  module _ (bus_of : ℕ × ℕ → ℕ) (granted : MapsBytes pci_map_sg bus_of)
      (allocates : Allocates pci_alloc_consistent) (ep : ℕ) (ep_fits : ep < 2 ^ 64) where
    -- The transfer of a list that is mapped to the entries `s ∷ sgl`.
    h2c_entries :
        (sgm : Mapper) (count off : ℕ) (news rest : List ℕ)
        → sgm.pages ≡ news ++ rest
        → sgm.mapped_pages ≡ length news
        → 0 < length news
        → length news ≤ length sgm.sgl
        → sg_bytes (take (length news) sgm.sgl) ≡ paged p news off count
        → length news < 2 ^ 32
        → Mapped sgm.sgl (length news) bus_of (pci_map_sg sgm.sgl (length news))
        → (s : Sg) (sgl extra : List Sg) → (pci_map_sg sgm.sgl (length news)).0 ≡ s ∷ sgl ++ extra
        → length (s ∷ sgl) ≡ (pci_map_sg sgm.sgl (length news)).1
        → take (pci_map_sg sgm.sgl (length news)).1 (pci_map_sg sgm.sgl (length news)).0 ≡ s ∷ sgl
        → (w : Written) × (h2c_transfer p k c sgm count ep
              (map get_page news ++ map flush_page news)
            ≡ done w)
          × Sent p bus_of ep count off news w
    h2c_entries sgm count off news rest split mapped some_page room bytes few maps s sgl extra entry
          size first =
        let n = suc (length sgl) in
        let few : n < 2 ^ 32 = omega (arith, size, maps.nents-le) in
        let (ds, alloc, len, chain, _, _, _) =
          xdma_desc_alloc-Chain p pci_alloc_consistent (length sgl) (allocates.bus n)
            (allocates.memory n) (allocates.granted (length sgl) few)
            (allocates.size (length sgl) few) (allocates.in_space (length sgl) few) in
        let (out, prep, walked, there) =
          walk-prepare p h2c_mode s sgl extra (allocates.bus n) ep ds
            (subst AddressesFit first maps.addresses) ep_fits (allocates.aligned (length sgl) few)
            chain len refl (subst (AllWithin (2 ^ 31)) first maps.lengths) in
        let bus : bus_bytes (s ∷ sgl) ≡ map bus_of (paged p news off count) =
          ap bus_bytes (sym first) ∙ maps.same_bytes ∙ ap (map bus_of) bytes in
        let some_block : 0 < length (blocks p h2c_mode (s ∷ sgl) s.dma_address 0 ep) =
          (length-blocks p h2c_mode s sgl s.dma_address 0 ep).1 in
        (
          _,
          h2c_steps sgm count ep news rest split mapped some_page (s ∷ sgl ++ extra) n
              (allocates.bus n) _ ds out (ap₂ (λ t u. (t, u)) entry (sym size)) alloc prep
              some_block there,
          record {
            returned = refl;
            some_desc = some_block;
            address = omega (arith, allocates.in_space (length sgl) few);
            transferred = walked ∙ ap some (sg_moves-numbered (s ∷ sgl) ep ∙ ap (numbered ep) bus);
            calls = (n, refl);
            some_entry = omega arith;
          },
        )

    h2c_transfer_lem :
        (sgm : Mapper) (count off : ℕ) (news rest : List ℕ)
        → sgm.pages ≡ news ++ rest
        → sgm.mapped_pages ≡ length news
        → 0 < length news
        → length news ≤ length sgm.sgl
        → sg_bytes (take (length news) sgm.sgl) ≡ paged p news off count
        → count < 2 ^ 31
        → length news < 2 ^ 32
        → (w : Written) × (h2c_transfer p k c sgm count ep
              (map get_page news ++ map flush_page news)
            ≡ done w)
          × Sent p bus_of ep count off news w
    h2c_transfer_lem sgm count off news rest split mapped some_page room bytes small few =
        let got = pci_map_sg sgm.sgl (length news) in
        let total : length (sg_bytes (take (length news) sgm.sgl)) < 2 ^ 31 =
          omega (arith, ap length bytes, length-paged p news off count) in
        let maps = granted.maps sgm.sgl (length news) some_page room total in
        let (ys, zs, e, l, t) = split_at got.1 got.0 maps.in_list in entries_of maps ys zs e l t
      where
        entries_of :
            Mapped sgm.sgl (length news) bus_of (pci_map_sg sgm.sgl (length news))
            → (ys zs : List Sg) → (pci_map_sg sgm.sgl (length news)).0 ≡ ys ++ zs
            → length ys ≡ (pci_map_sg sgm.sgl (length news)).1
            → take (pci_map_sg sgm.sgl (length news)).1 (pci_map_sg sgm.sgl (length news)).0 ≡ ys
            → (w : Written) × (h2c_transfer p k c sgm count ep
                  (map get_page news ++ map flush_page news)
                ≡ done w)
              × Sent p bus_of ep count off news w
        entries_of maps [] zs e l t = absurd (omega (arith, maps.nents_pos))
        entries_of maps (s ∷ sgl) zs e l t =
            h2c_entries sgm count off news rest split mapped some_page room bytes few maps s sgl zs
              e l t

    -- A write of 1 to 2^31 - 1 bytes to a file position that is a 64-bit address, of a buffer that
    -- ends within the address space. If the kernel grants each request (the three allocations, all
    -- pages of the buffer, the mapping, the coherent memory), then no BUG_ON fires and no access is
    -- out of bounds; the call returns `count`; walking the descriptors from the address that the
    -- engine was given moves each byte of the buffer once, in order, from its bus address to
    -- consecutive end point addresses from the file position on; and its calls are, in order, those
    -- of `write_events`: each page is pinned once before the engine runs and released once after it
    -- stopped.
    pub xpcie_h2c_write-Sent :
        (buf count : ℕ) (news : List ℕ)
        → 0 < count
        → count < 2 ^ 31
        → buf + count ≤ 2 ^ 64
        → (memory.has_mapper ≡ true) × (memory.has_pages ≡ true) × (memory.has_sgl ≡ true)
        → get_user_pages_fast buf (span_pages p (buf % p.page_size) count) false ≡ pinned news
        → length news ≡ span_pages p (buf % p.page_size) count
        → (w : Written) × (xpcie_h2c_write p k c buf count ep ≡ done w)
          × Sent p bus_of ep count (buf % p.page_size) news w
    xpcie_h2c_write-Sent buf count news pos small fits has got all =
        let (sgm, create, pages, sgl, unmapped, enough) =
          sg_create_mapper-nr_pages p k memory buf count pos small fits has in
        let nr = nr_pages_lem p buf count pos small fits in
        let room : HasRoom p sgm buf count = record {
          room_pages = omega (arith, nr, pages, enough);
          room_sgl = omega (arith, nr, sgl, enough);
          unmapped = unmapped;
        } in
        let (out, pin, mapped) =
          sgm_get_user_pages-all p k get_user_pages_fast sgm buf count true pos small fits room news
            got all in
        let (w, transfer, sent) =
          h2c_transfer_lem out.sgm count (buf % p.page_size) news mapped.array.0 mapped.array.1
            mapped.mapped (omega (arith, all)) (omega (arith, all, nr, sgl, enough, mapped.room))
            mapped.bytes small (omega (arith, all, nr, nr_pages-u32 p buf count)) in
        (w, write_steps buf count ep sgm out _ _ create pin mapped.calls transfer, sent)
