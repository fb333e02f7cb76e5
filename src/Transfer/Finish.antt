-- ===== src/Transfer/Finish.antt =====
-- The descriptor list that `xpcie_h2c_write` hands to the engine: allocated, filled with blocks,
-- terminated, and with its adjacent counts.
use xpcie.Base.{
  ℕ, zero, suc, ◌+◌, ◌*◌, ◌/◌, ◌%◌, ◌^◌, ◌≤◌, ◌<◌, ◌≡◌, ap, ap₂, ◌∙◌, refl, Bool, none, List, [],
  ◌∷◌, length, done, arith,
}
use xpcie.Platform.{Platform}
use xpcie.Desc.{
  Desc, desc_size, xdma_desc_set, xdma_desc_link, xdma_desc_control, xdma_desc_adjacent, extra_adj,
}
use xpcie.Desc.Address.{next_addr, read64, host_addr, card_addr, byte_count, xdma_desc_set_lem}
use xpcie.Desc.Control.{
  control_of, xdma_desc_link_lem, xdma_desc_control_lem, xdma_desc_adjacent_lem, extra_adj_bounds,
}
use xpcie.Desc.Fields.{magic_field, reserved_field, adjacent_field, control_field}
use xpcie.Transfer.{Mode, transfer_terminate, set_adjacent}
use xpcie.Transfer.Alloc.{Clean, Chain}
use xpcie.Transfer.Blocks.{Block, BlocksFit, write_blocks}

module _ (p : Platform) (dir : Bool) where
  open p use {cpu_to_le32, le32_to_cpu, le32_to_cpu-cpu_to_le32}

  -- The descriptor moves the bytes of the block.
  abbrev pub Holds : Block → Desc → Type 0
  Holds b d = (host_addr p dir d ≡ b.addr) × (card_addr p dir d ≡ b.ep) × (byte_count p d ≡ b.len)

  -- The first descriptors of the array, whose first one is at bus address `bus`, hold the blocks in
  -- order, and `P` says of each what it must, given how many follow and its bus address.
  abbrev pub Listed : (P : ℕ → ℕ → Desc → Type 0) → (bus : ℕ) → List Block → List Desc → Type 0
  Listed P bus [] ds = Unit
  Listed P bus (b ∷ bs) [] = ⊥
  Listed P bus (b ∷ bs) (d ∷ ds) =
      Holds b d × P (length bs) bus d × Listed P (bus + desc_size) bs ds

  -- After `transfer_build`: each descriptor but the last points to the one behind it.
  abbrev pub Built : ℕ → ℕ → Desc → Type 0
  Built zero bus d = Clean p d
  Built (suc n) bus d = (next_addr p d ≡ bus + desc_size) × Clean p d

  -- After `transfer_terminate`: the last one points nowhere, stops the engine, and is marked as the
  -- end of a packet and for completion.
  abbrev pub Terminated : ℕ → ℕ → Desc → Type 0
  Terminated zero bus d =
      (next_addr p d ≡ 0)
      × (reserved_field (control_of p d) ≡ 0)
      × (control_field (control_of p d) ≡ 19)
  Terminated (suc n) bus d = (next_addr p d ≡ bus + desc_size) × Clean p d

  -- What the engine reads: the magic number in each descriptor; in the last one no next descriptor,
  -- no adjacent ones, and the bits STOPPED, COMPLETED and EOP; in every other one the bus address of
  -- the next one, no control bit, and a count of extra adjacent descriptors that is at most 15, less
  -- than the number that follow, and such that they end within the 4 KiB page of the next one.
  abbrev pub Ready : ℕ → ℕ → Desc → Type 0
  Ready zero bus d =
      (magic_field (control_of p d) ≡ 0xad4b)
      × (next_addr p d ≡ 0)
      × (adjacent_field (control_of p d) ≡ 0)
      × (control_field (control_of p d) ≡ 19)
  Ready (suc n) bus d =
      (magic_field (control_of p d) ≡ 0xad4b)
      × (next_addr p d ≡ bus + desc_size)
      × (adjacent_field (control_of p d) ≤ 15)
      × (adjacent_field (control_of p d) < suc n)
      × ((bus + desc_size) % 0x1000 + desc_size * (adjacent_field (control_of p d) + 1) ≤ 0x1000)
      × (control_field (control_of p d) ≡ 0)

  -- The last descriptor.
  stop_lem :
      (b : Block) (d : Desc)
      → Holds b d
      → Clean p d
      → (d' : Desc) × (xdma_desc_control p (xdma_desc_link p d none) 19 ≡ done d')
        × Holds b d'
        × Terminated zero 0 d'
  unfolding xdma_desc_link
  stop_lem b d h clean =
      let e = xdma_desc_link p d none in
      let link = xdma_desc_link_lem p d none (omega arith) in
      let w = control_of p e in
      let small : w < 2 ^ 32 = omega (arith, link.1) in
      let back = le32_to_cpu-cpu_to_le32 (w / 2 ^ 8 * 2 ^ 8 + 19) (omega arith) in
      (
        record e { control = cpu_to_le32 (w / 2 ^ 8 * 2 ^ 8 + 19) },
        xdma_desc_control_lem p e 19 (omega arith) small,
        h,
        (link.0, omega (arith, back, link.2, clean.1), omega (arith, back)),
      )

  pub terminate-Listed :
      (b : Block) (bs : List Block) (bus : ℕ) (ds : List Desc)
      → Listed Built bus (b ∷ bs) ds
      → (ds' : List Desc) × (transfer_terminate p ds (length bs) ≡ done ds')
        × (length ds' ≡ length ds)
        × Listed Terminated bus (b ∷ bs) ds'
  unfolding transfer_terminate
  terminate-Listed b bs bus [] l = absurd l
  terminate-Listed b [] bus (d ∷ ds) l =
      let (d', e, h, stopped) = stop_lem b d l.0 l.1 in (d' ∷ ds, rw e refl, refl, (h, stopped, tt))
  terminate-Listed b (c ∷ bs) bus (d ∷ ds) l =
      let (ds', e, len, rest) = terminate-Listed c bs (bus + desc_size) ds l.2 in
      (d ∷ ds', rw e refl, ap suc len, (l.0, l.1, rest))

  -- The next descriptor of a chain at a 32-byte aligned address is aligned too.
  next_lo-aligned :
      (d : Desc) (next : ℕ)
      → next_addr p d ≡ next
      → next % 32 ≡ 0
      → (le32_to_cpu d.next_lo % 32 ≡ 0) × (le32_to_cpu d.next_lo % 0x1000 ≡ next % 0x1000)
  unfolding read64
  next_lo-aligned d next e aligned = omega arith

  extra_adj-zero : (d : Desc) → extra_adj p d 0 ≡ 0
  unfolding extra_adj
  extra_adj-zero d = refl

  -- One descriptor, with `n` behind it.
  adjacent-Ready :
      (n bus : ℕ) (d : Desc)
      → bus % 32 ≡ 0
      → Terminated n bus d
      → Ready n bus (xdma_desc_adjacent p d n)
  unfolding xdma_desc_adjacent
  adjacent-Ready zero bus d aligned t =
      let a = xdma_desc_adjacent_lem p d 0 in
      (a.0, t.0, omega (arith, a.2, extra_adj-zero d), omega (arith, a.3, t.2))
  adjacent-Ready (suc n) bus d aligned t =
      let a = xdma_desc_adjacent_lem p d (suc n) in
      let next = next_lo-aligned d (bus + desc_size) t.0 (omega arith) in
      let bounds = extra_adj_bounds p d (suc n) (omega arith) next.0 in
      (
        a.0,
        t.0,
        omega (arith, a.2, bounds.0),
        omega (arith, a.2, bounds.1),
        omega (arith, a.2, bounds.2, next.1),
        omega (arith, a.3, t.1.0),
      )

  pub adjacent-Listed :
      (bs : List Block) (bus : ℕ) (ds : List Desc)
      → bus % 32 ≡ 0
      → Listed Terminated bus bs ds
      → (ds' : List Desc) × (set_adjacent p (length bs) ds ≡ done ds')
        × (length ds' ≡ length ds)
        × Listed Ready bus bs ds'
  unfolding set_adjacent xdma_desc_adjacent
  adjacent-Listed [] bus ds aligned l = (ds, refl, refl, tt)
  adjacent-Listed (b ∷ bs) bus [] aligned l = absurd l
  adjacent-Listed (b ∷ bs) bus (d ∷ ds) aligned l =
      let (ds', e, len, rest) = adjacent-Listed bs (bus + desc_size) ds (omega arith) l.2 in
      (
        xdma_desc_adjacent p d (length bs) ∷ ds',
        rw e refl,
        ap suc len,
        (l.0, adjacent-Ready (length bs) bus d aligned l.1, rest),
      )

-- One block in one descriptor: the next pointer and the control word stay.
set_one :
    (p : Platform) (dir : Bool) (b : Block) (d : Desc)
    → (b.addr < 2 ^ 64) × (b.ep < 2 ^ 64) × (b.len < 2 ^ 32)
    → let d' = xdma_desc_set p d b.addr b.ep b.len dir in
      Holds p dir b d' × (next_addr p d' ≡ next_addr p d) × (control_of p d' ≡ control_of p d)
set_one p dir b d fit =
    let (host, card, count, control, lo, hi) =
      xdma_desc_set_lem p d b.addr b.ep b.len dir fit.0 fit.1 fit.2 in
    ((host, card, count), ap₂ (read64 p) lo hi, ap p.le32_to_cpu control)

module _ (p : Platform) (m : Mode) where
  pub write_blocks-Listed :
      (b : Block) (bs : List Block) (n bus : ℕ) (ds : List Desc)
      → length bs ≤ n
      → BlocksFit (b ∷ bs)
      → Chain p n bus ds
      → Listed p m.dir_to_dev (Built p m.dir_to_dev) bus (b ∷ bs) (write_blocks p m (b ∷ bs) ds)
  unfolding write_blocks
  write_blocks-Listed b bs n bus [] h fit chain = absurd chain
  write_blocks-Listed b [] zero bus (d ∷ ds) h fit chain =
      let (holds, next, same) = set_one p m.dir_to_dev b d (fit.0, fit.1, fit.2) in
      (holds, rw same chain, tt)
  write_blocks-Listed b [] (suc n) bus (d ∷ ds) h fit chain =
      let (holds, next, same) = set_one p m.dir_to_dev b d (fit.0, fit.1, fit.2) in
      (holds, rw same chain.1, tt)
  write_blocks-Listed b (c ∷ bs) zero bus (d ∷ ds) h fit chain = absurd (omega arith)
  write_blocks-Listed b (c ∷ bs) (suc n) bus (d ∷ ds) h fit chain =
      let (holds, next, same) = set_one p m.dir_to_dev b d (fit.0, fit.1, fit.2) in
      (
        holds,
        (next ∙ chain.0, rw same chain.1),
        write_blocks-Listed c bs n (bus + desc_size) ds (omega arith) fit.3 chain.2,
      )
