-- ===== src/Transfer/Walk.antt =====
-- What a list of descriptors tells the engine to do (driver/xpcie.h, `struct xdma_desc`): from the
-- first descriptor on, each one's bytes, then the descriptor at its next address, until one has the
-- bit XDMA_DESC_STOPPED.
use xpcie.Base.{
  ℕ, zero, suc, ◌+◌, ◌-◌, ◌%◌, ◌^◌, ◌≤◌, ◌<◌, ◌≡◌, ap, ◌∙◌, sym, refl, true, false, Bool, Option,
  none, some, ◌&&◌, List, [], ◌∷◌, ◌++◌, append-nil, length, ◌==◌, if◌then◌else◌, done, arith,
}
use mathlib.Core.Option
use xpcie.Platform.{Platform}
use xpcie.Kernel.{Sg}
use xpcie.Desc.{Desc, desc_size}
use xpcie.Desc.Address.{next_addr, host_addr, card_addr, byte_count}
use xpcie.Desc.Control.{control_of}
use xpcie.Desc.Fields.{magic_field, control_field}
use xpcie.Transfer.{Mode, transfer_build, prepare}
use xpcie.Transfer.Alloc.{Chain}
use xpcie.Transfer.Blocks.{
  Block, blocks, BlocksFit, write_blocks, AddressesFit, blocks-BlocksFit, length-blocks,
  transfer_build-blocks,
}
use xpcie.Transfer.Moves.{moves, block_moves, sg_moves, AllWithin, blocks-moves}
use xpcie.Transfer.Finish.{
  Listed, Ready, Holds, write_blocks-Listed, terminate-Listed, adjacent-Listed,
}

-- The descriptor at a bus address, of an array at bus address `bus`.
unfoldable pub at_bus : (bus : ℕ) → List Desc → ℕ → Option Desc
at_bus bus [] a = none
at_bus bus (d ∷ ds) a = if a == bus then some d else at_bus (bus + desc_size) ds a

module _ (p : Platform) (dir : Bool) where
  -- The bytes of one descriptor, as pairs of a bus address and an end point address.
  abbrev desc_moves : Desc → List (ℕ × ℕ)
  desc_moves d = moves (host_addr p dir d) (card_addr p dir d) (byte_count p d)

  -- `none` where there is no descriptor, the magic number is missing, or the fuel runs out.
  unfoldable pub walk : (fuel : ℕ) → (ℕ → Option Desc) → ℕ → Option (List (ℕ × ℕ))
  walk zero memory a = none
  walk (suc n) memory a = elim (memory a) [
    | none ↦ none
    | some d ↦
        let rest = Option.map (λ ms. desc_moves d ++ ms) (walk n memory (next_addr p d)) in
        if magic_field (control_of p d) == 0xad4b
        then (if control_field (control_of p d) % 2 == 1 then some (desc_moves d) else rest)
        else none
  ]

  at_bus-later :
      (bus a : ℕ) (d : Desc) (ds : List Desc)
      → bus + desc_size ≤ a
      → at_bus bus (d ∷ ds) a ≡ at_bus (bus + desc_size) ds a
  unfolding at_bus
  at_bus-later bus a d ds h = let other : (a == bus) ≡ false = ground arith in rw other refl

  -- The two ways on from a descriptor.
  module _ (n a : ℕ) (memory : ℕ → Option Desc) (d : Desc) (here : memory a ≡ some d) where
    pub walk-stop :
        magic_field (control_of p d) ≡ 0xad4b
        → control_field (control_of p d) ≡ 19
        → walk (suc n) memory a ≡ some (desc_moves d)
    unfolding walk
    walk-stop magic stopped = rw (here, walk) (ground arith)

    walk-next :
        (ms : List (ℕ × ℕ))
        → magic_field (control_of p d) ≡ 0xad4b
        → control_field (control_of p d) ≡ 0
        → walk n memory (next_addr p d) ≡ some ms
        → walk (suc n) memory a ≡ some (desc_moves d ++ ms)
    unfolding walk
    walk-next ms magic running rest = rw (here, walk, rest) (ground arith)

  pub at_bus-first : (bus : ℕ) (d : Desc) (ds : List Desc) → at_bus bus (d ∷ ds) bus ≡ some d
  unfolding at_bus
  at_bus-first bus d ds = let same : (bus == bus) ≡ true = ground arith in rw same refl

  Holds-moves : (b : Block) (d : Desc) → Holds p dir b d → desc_moves d ≡ moves b.addr b.ep b.len
  Holds-moves b d (host, card, count) = rw (host, card, count) refl

  walk-Listed :
      (b : Block) (bs : List Block) (bus : ℕ) (ds : List Desc) (memory : ℕ → Option Desc)
      → Listed p dir (Ready p dir) bus (b ∷ bs) ds
      → ((a : ℕ) → bus ≤ a → memory a ≡ at_bus bus ds a)
      → walk (length (b ∷ bs)) memory bus ≡ some (block_moves (b ∷ bs))
  unfolding block_moves
  walk-Listed b bs bus [] memory l same = absurd l
  walk-Listed b [] bus (d ∷ ds) memory l same =
      let here = same bus (omega arith) ∙ at_bus-first bus d ds in
      walk-stop 0 bus memory d here l.1.0 l.1.3
      ∙ ap some (Holds-moves b d l.0 ∙ sym (append-nil (moves b.addr b.ep b.len)))
  walk-Listed b (c ∷ bs) bus (d ∷ ds) memory l same =
      let here = same bus (omega arith) ∙ at_bus-first bus d ds in
      let rest =
        walk-Listed c bs (bus + desc_size) ds memory l.2
          (λ a h. same a (omega arith) ∙ at_bus-later bus a d ds h) in
      walk-next (length (c ∷ bs)) bus memory d here (block_moves (c ∷ bs)) l.1.0 l.1.5
        (ap (walk (length (c ∷ bs)) memory) l.1.1 ∙ rest)
      ∙ ap (λ t. some (t ++ block_moves (c ∷ bs))) (Holds-moves b d l.0)

module _ (p : Platform) (m : Mode) (s : Sg) (sgl extra : List Sg) (bus ep_addr : ℕ) (ds : List Desc)
    (fit : AddressesFit (s ∷ sgl)) (ep_fits : ep_addr < 2 ^ 64) (aligned : bus % 32 ≡ 0)
    (chain : Chain p (length sgl) bus ds) (room : length ds ≡ length (s ∷ sgl)) where
  abbrev in_use : List Block
  in_use = blocks p m (s ∷ sgl) s.dma_address 0 ep_addr

  -- For a scatterlist mapped to 64-bit addresses and descriptors as `xdma_desc_alloc` gives them,
  -- one for each entry and 32-byte aligned, preparing the list ends with no BUG_ON and no write out
  -- of bounds; as many descriptors as there are blocks are in use, and each is as the engine needs
  -- it (`Ready`).
  pub prepare-Ready :
      (out : List Desc) × (prepare p m (s ∷ sgl ++ extra) (length (s ∷ sgl)) ds ep_addr
        ≡ done (out, length in_use))
      × Listed p m.dir_to_dev (Ready p m.dir_to_dev) bus in_use out
  unfolding prepare write_blocks
  prepare-Ready =
      let (build, last, some_block) =
        transfer_build-blocks p m s sgl extra ds ep_addr (omega arith) in
      prepare_blocks in_use refl build (omega arith) some_block
        (blocks-BlocksFit p m s sgl s.dma_address 0 ep_addr fit.1 fit.0 ep_fits)
    where
      prepare_blocks :
          (bs : List Block)
          → bs ≡ in_use
          → transfer_build p m (s ∷ sgl ++ extra) (length (s ∷ sgl)) ds ep_addr
            ≡ done (write_blocks p m bs ds, length bs - 1)
          → length bs ≤ length (s ∷ sgl)
          → 0 < length bs
          → BlocksFit bs
          → (out : List Desc) × (prepare p m (s ∷ sgl ++ extra) (length (s ∷ sgl)) ds ep_addr
              ≡ done (out, length bs))
            × Listed p m.dir_to_dev (Ready p m.dir_to_dev) bus bs out
      prepare_blocks [] e build few some_block fits = absurd (omega arith)
      prepare_blocks (b ∷ bs) e build few some_block fits =
          let built = write_blocks-Listed p m b bs (length sgl) bus ds (omega arith) fits chain in
          let (ended, et, lt, terminated) =
            terminate-Listed p m.dir_to_dev b bs bus (write_blocks p m (b ∷ bs) ds) built in
          let (out, ea, la, ready) =
            adjacent-Listed p m.dir_to_dev (b ∷ bs) bus ended aligned terminated in
          let last : suc (length bs) - 1 ≡ length bs = omega arith in
          let count : length bs + 1 ≡ suc (length bs) = omega arith in
          (out, rw (build, last, et, count, ea) refl, ready)

  Listed-length :
      (bs : List Block) (at : ℕ) (out : List Desc)
      → Listed p m.dir_to_dev (Ready p m.dir_to_dev) at bs out
      → length bs ≤ length out
  Listed-length [] at out listed = omega arith
  Listed-length (b ∷ bs) at [] listed = absurd listed
  Listed-length (b ∷ bs) at (d ∷ out) listed =
      omega (arith, Listed-length bs (at + desc_size) out listed.2)

  -- For a scatterlist mapped to 64-bit addresses and descriptors as `xdma_desc_alloc` gives them,
  -- one for each entry and 32-byte aligned, walking the prepared list from the bus address of its
  -- first descriptor moves each byte of the scatterlist once, in order, from its bus address to
  -- consecutive end point addresses from `ep_addr` on, if no entry is longer than 2 GiB and the end
  -- point address counts up; the walk ends after as many descriptors as are in use, which are
  -- there.
  pub walk-prepare :
      (m.userspace && m.non_incr_addr) ≡ false
      → AllWithin (2 ^ 31) (s ∷ sgl)
      → (out : List Desc) × (prepare p m (s ∷ sgl ++ extra) (length (s ∷ sgl)) ds ep_addr
          ≡ done (out, length in_use))
        × (walk p m.dir_to_dev (length in_use) (at_bus bus out) bus
            ≡ some (sg_moves (s ∷ sgl) ep_addr))
        × (length in_use ≤ length out)
  walk-prepare incr short =
      let (out, e, ready) = prepare-Ready in
      (
        out,
        e,
        walk_all in_use (length-blocks p m s sgl s.dma_address 0 ep_addr).1 out ready
            ∙ ap some (blocks-moves p m s sgl ep_addr incr short),
        Listed-length in_use bus out ready,
      )
    where
      walk_all :
          (bs : List Block)
          → 0 < length bs
          → (out : List Desc) → Listed p m.dir_to_dev (Ready p m.dir_to_dev) bus bs out
          → walk p m.dir_to_dev (length bs) (at_bus bus out) bus ≡ some (block_moves bs)
      walk_all [] some_block out ready = absurd (omega arith)
      walk_all (b ∷ bs) some_block out ready =
          walk-Listed p m.dir_to_dev b bs bus out (at_bus bus out) ready (λ a h. refl)
