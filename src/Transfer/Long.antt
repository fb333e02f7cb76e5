-- ===== src/Transfer/Long.antt =====
-- What `transfer_build` makes of an entry of the scatterlist that is longer than
-- XDMA_DESC_MAX_BYTES, which driver/xpcie.h calls the maximum size of a descriptor.
use mathlib.Core.Path.{subst}
use xpcie.Base.{
  ℕ, ◌+◌, ◌-◌, ◌^◌, ◌≤◌, ◌<◌, ◌≡◌, inl, inr, ◌⊎◌, List, [], ◌∷◌, ◌++◌, length, take, Bool-cases,
  done, arith,
}
use xpcie.Platform.{Platform, u32, page_size-le}
use xpcie.Kernel.{Sg}
use xpcie.Desc.{Desc}
use xpcie.Desc.Address.{byte_count, xdma_desc_set_lem}
use xpcie.Transfer.{Mode, desc_max_bytes, new_desc, next_ep, transfer_build}
use xpcie.Transfer.Blocks.{
  Block, AddressesFit, BlocksFit, blocks, blocks-new, blocks-old, blocks-last, length-blocks,
  blocks-BlocksFit, write_blocks, transfer_build-blocks,
}
use xpcie.Transfer.Moves.{AllWithin, new_desc-false}

-- Some entry, block or descriptor is longer than `limit`.
abbrev pub HasLonger : (limit : ℕ) → List Sg → Type 0
HasLonger limit [] = ⊥
HasLonger limit (s ∷ sgl) = (limit < s.dma_length) ⊎ HasLonger limit sgl

abbrev HasLongerBlock : (limit : ℕ) → List Block → Type 0
HasLongerBlock limit [] = ⊥
HasLongerBlock limit (b ∷ bs) = (limit < b.len) ⊎ HasLongerBlock limit bs

abbrev pub HasLongerDesc : Platform → (limit : ℕ) → List Desc → Type 0
HasLongerDesc p limit [] = ⊥
HasLongerDesc p limit (d ∷ ds) = (limit < byte_count p d) ⊎ HasLongerDesc p limit ds

module _ (p : Platform) (m : Mode) where
  open p use {page_size}

  -- `n` bytes are open, with room for a page.
  blocks-HasLongerBlock :
      (s : Sg) (sgl : List Sg) (a n e : ℕ)
      → AllWithin (2 ^ 31) (s ∷ sgl)
      → n + page_size ≤ desc_max_bytes
      → HasLonger desc_max_bytes (s ∷ sgl)
      → HasLongerBlock desc_max_bytes (blocks p m (s ∷ sgl) a n e)
  blocks-HasLongerBlock s [] a n e h o (inl long) = rw blocks-last (inl (omega (arith, h.0)))
  blocks-HasLongerBlock s [] a n e h o (inr none_left) = absurd none_left
  blocks-HasLongerBlock s (t ∷ sgl) a n e h o (inl long) =
      let len = u32 (n + s.dma_length) in
      elim (Bool-cases (new_desc p m t.dma_address s.dma_address s.dma_length len)) [
        | inl new ↦ rw (blocks-new p m s t sgl a n e new) (inl (omega (arith, h.0)))
        | inr old ↦
            let more = new_desc-false p m t.dma_address s.dma_address s.dma_length len old in
            absurd (omega (arith, more, h.0))
      ]
  blocks-HasLongerBlock s (t ∷ sgl) a n e h o (inr later) =
      let len = u32 (n + s.dma_length) in
      elim (Bool-cases (new_desc p m t.dma_address s.dma_address s.dma_length len)) [
        | inl new ↦ rw (blocks-new p m s t sgl a n e new) (
            inr (
              blocks-HasLongerBlock t sgl t.dma_address 0 (next_ep m e len) h.1
                (omega (arith, page_size-le p)) later))
        | inr old ↦
            let more = new_desc-false p m t.dma_address s.dma_address s.dma_length len old in
            rw (blocks-old p m s t sgl a n e old)
              (blocks-HasLongerBlock t sgl a len e h.1 more.1 later)
      ]

  write_blocks-HasLongerDesc :
      (limit : ℕ) (bs : List Block) (ds : List Desc)
      → BlocksFit bs
      → length bs ≤ length ds
      → HasLongerBlock limit bs
      → HasLongerDesc p limit (take (length bs) (write_blocks p m bs ds))
  unfolding write_blocks
  write_blocks-HasLongerDesc limit [] ds fit room h = absurd h
  write_blocks-HasLongerDesc limit (b ∷ bs) [] fit room h = absurd (omega (arith, room))
  write_blocks-HasLongerDesc limit (b ∷ bs) (d ∷ ds) fit room (inl long) =
      let set = xdma_desc_set_lem p d b.addr b.ep b.len m.dir_to_dev fit.0 fit.1 fit.2 in
      inl (omega (arith, set.2, long))
  write_blocks-HasLongerDesc limit (b ∷ bs) (d ∷ ds) fit room (inr later) =
      inr (write_blocks-HasLongerDesc limit bs ds fit.3 (omega (arith, room)) later)

  -- `transfer_build` of entries that are mapped to 64-bit bus addresses, the first ones of an array,
  -- `extra` the others, at a 64-bit end point address, with a descriptor for each entry: if one of
  -- the entries is longer than XDMA_DESC_MAX_BYTES, and none longer than 2 GiB, the build ends as
  -- usual, with no BUG_ON and no write out of bounds, and one of the descriptors in use, up to the
  -- last one that it returns, is longer than XDMA_DESC_MAX_BYTES: an entry is not split.
  pub transfer_build-HasLongerDesc :
      (s : Sg) (sgl extra : List Sg) (ds : List Desc) (ep_addr : ℕ)
      → length (s ∷ sgl) ≤ length ds
      → AddressesFit (s ∷ sgl)
      → ep_addr < 2 ^ 64
      → AllWithin (2 ^ 31) (s ∷ sgl)
      → HasLonger desc_max_bytes (s ∷ sgl)
      → (out : List Desc) × (last : ℕ) × (transfer_build p m
            (s ∷ sgl ++ extra)
            (length (s ∷ sgl))
            ds
            ep_addr
          ≡ done (out, last))
        × HasLongerDesc p desc_max_bytes (take (last + 1) out)
  transfer_build-HasLongerDesc s sgl extra ds ep_addr room addresses fits within long =
      let bs = blocks p m (s ∷ sgl) s.dma_address 0 ep_addr in
      let (builds, _, _) = transfer_build-blocks p m s sgl extra ds ep_addr room in
      let few = length-blocks p m s sgl s.dma_address 0 ep_addr in
      let used : length bs ≡ length bs - 1 + 1 = omega (arith, few) in
      (
        write_blocks p m bs ds,
        length bs - 1,
        builds,
        subst (λ n. HasLongerDesc p desc_max_bytes (take n (write_blocks p m bs ds))) used
            (write_blocks-HasLongerDesc desc_max_bytes bs ds
              (blocks-BlocksFit p m s sgl s.dma_address 0 ep_addr addresses.1 addresses.0 fits)
              (omega (arith, few, room))
              (blocks-HasLongerBlock s sgl s.dma_address 0 ep_addr within
                (omega (arith, page_size-le p)) long)),
      )
