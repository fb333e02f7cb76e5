-- ===== src/Transfer/Blocks.antt =====
-- `transfer_build` as a function on lists: the blocks of the scatterlist that are contiguous on
-- the bus, each written to one descriptor.
use xpcie.Base.{
  ℕ, suc, ◌+◌, ◌-◌, ◌^◌, ◌≤◌, ◌<◌, ◌≡◌, ap, ap₂, ◌∙◌, refl, inl, inr, true, false, List, [], ◌∷◌,
  ◌++◌, append_assoc, length, length-append, ltb, le→ltb, Bool-cases, if◌then◌else◌, Run, done,
  update_at, arith,
}
use xpcie.Platform.{Platform, u32}
use xpcie.Kernel.{Sg}
use xpcie.Desc.{Desc, xdma_desc_set}
use xpcie.Transfer.{Mode, Build, new_desc, next_ep, build_entry, build_from, transfer_build}

-- A block: its bus address, its end point address and its length.
pub record Block : Type 0 where
  pub addr : ℕ
  pub ep : ℕ
  pub len : ℕ

abbrev pub block : ℕ → ℕ → ℕ → Block
block a e n = record { addr = a; ep = e; len = n }

-- Blocks whose numbers fit the fields of a descriptor.
abbrev pub BlocksFit : List Block → Type 0
BlocksFit [] = Unit
BlocksFit (b ∷ bs) = (b.addr < 2 ^ 64) × (b.ep < 2 ^ 64) × (b.len < 2 ^ 32) × BlocksFit bs

-- Entries that are mapped to 64-bit bus addresses.
abbrev pub AddressesFit : List Sg → Type 0
AddressesFit [] = Unit
AddressesFit (s ∷ sgl) = (s.dma_address < 2 ^ 64) × AddressesFit sgl

-- An array is its first part, the element at that index, and the rest.
update_at-append {ℓ} :
    {A : Type ℓ} (xs : List A) (x y : A) (ys : List A) (f : A → Run A)
    → f x ≡ done y
    → update_at (xs ++ x ∷ ys) (length xs) f ≡ done (xs ++ y ∷ ys)
update_at-append [] x y ys f e = rw e refl
update_at-append (z ∷ xs) x y ys f e = rw (update_at-append xs x y ys f e) refl

module _ (p : Platform) (m : Mode) where
  -- The blocks of the entries, where `cont_len` bytes from `cont_addr` on are open.
  unfoldable pub blocks : List Sg → (cont_addr cont_len ep_addr : ℕ) → List Block
  blocks [] cont_addr cont_len ep_addr = []
  blocks (s ∷ []) cont_addr cont_len ep_addr =
      block cont_addr ep_addr (u32 (cont_len + s.dma_length)) ∷ []
  blocks (s ∷ t ∷ sgl) cont_addr cont_len ep_addr =
      let len = u32 (cont_len + s.dma_length) in
      elim (new_desc p m t.dma_address s.dma_address s.dma_length len) [
        | true ↦
            block cont_addr ep_addr len ∷ blocks (t ∷ sgl) t.dma_address 0 (next_ep m ep_addr len)
        | false ↦ blocks (t ∷ sgl) cont_addr len ep_addr
      ]

  -- One block in one descriptor, from the first on; the others stay.
  unfoldable pub write_blocks : List Block → List Desc → List Desc
  write_blocks [] ds = ds
  write_blocks (b ∷ bs) [] = []
  write_blocks (b ∷ bs) (d ∷ ds) =
      xdma_desc_set p d b.addr b.ep b.len m.dir_to_dev ∷ write_blocks bs ds

  -- The two ways on from an entry that is not the last.
  module _ (s t : Sg) (sgl : List Sg) (a n e : ℕ) where
    abbrev with_entry : ℕ
    with_entry = u32 (n + s.dma_length)

    pub blocks-new :
        new_desc p m t.dma_address s.dma_address s.dma_length with_entry ≡ true
        → blocks (s ∷ t ∷ sgl) a n e
          ≡ block a e with_entry ∷ blocks (t ∷ sgl) t.dma_address 0 (next_ep m e with_entry)
    unfolding blocks
    blocks-new h = rw (h, blocks) refl

    pub blocks-old :
        new_desc p m t.dma_address s.dma_address s.dma_length with_entry ≡ false
        → blocks (s ∷ t ∷ sgl) a n e ≡ blocks (t ∷ sgl) a with_entry e
    unfolding blocks
    blocks-old h = rw (h, blocks) refl

  pub blocks-last :
      (s : Sg) (a n e : ℕ) → blocks (s ∷ []) a n e ≡ block a e (u32 (n + s.dma_length)) ∷ []
  unfolding blocks
  blocks-last s a n e = refl

  pub length-blocks :
      (s : Sg) (sgl : List Sg) (a n e : ℕ)
      → (length (blocks (s ∷ sgl) a n e) ≤ length (s ∷ sgl)) × (0 < length (blocks (s ∷ sgl) a n e))
  length-blocks s [] a n e = rw blocks-last (omega arith)
  length-blocks s (t ∷ sgl) a n e =
      let len = u32 (n + s.dma_length) in
      elim (Bool-cases (new_desc p m t.dma_address s.dma_address s.dma_length len)) [
        | inl new ↦
            rw (blocks-new s t sgl a n e new)
              (omega (arith, length-blocks t sgl t.dma_address 0 (next_ep m e len)))
        | inr old ↦ rw (blocks-old s t sgl a n e old) (omega (arith, length-blocks t sgl a len e))
      ]

  next_ep-lt : (e n : ℕ) → e < 2 ^ 64 → next_ep m e n < 2 ^ 64
  unfolding next_ep
  next_ep-lt e n h = ground arith

  pub blocks-BlocksFit :
      (s : Sg) (sgl : List Sg) (a n e : ℕ)
      → AddressesFit sgl
      → a < 2 ^ 64
      → e < 2 ^ 64
      → BlocksFit (blocks (s ∷ sgl) a n e)
  blocks-BlocksFit s [] a n e h ha he = rw blocks-last (ha, he, omega arith, tt)
  blocks-BlocksFit s (t ∷ sgl) a n e h ha he =
      let len = u32 (n + s.dma_length) in
      elim (Bool-cases (new_desc p m t.dma_address s.dma_address s.dma_length len)) [
        | inl new ↦ rw (blocks-new s t sgl a n e new) (
          ha,
          he,
          omega arith,
          blocks-BlocksFit t sgl t.dma_address 0 (next_ep m e len) h.1 h.0 (next_ep-lt e len he),
        )
        | inr old ↦ rw (blocks-old s t sgl a n e old) (blocks-BlocksFit t sgl a len e h.1 ha he)
      ]

  -- The state of the loop: descriptors written, those free, and the open block.
  abbrev at_entry : (pre suf : List Desc) (s : Sg) (a n e max : ℕ) → Build
  at_entry pre suf s a n e max = record {
    desc_virt = pre ++ suf;
    j = length pre;
    ep_addr = e;
    cont_addr = a;
    cont_len = n;
    cont_max_len = max;
    addr = s.dma_address;
  }

  build_entry-new :
      (s t : Sg) (pre : List Desc) (d : Desc) (suf : List Desc) (a n e max : ℕ)
      → let len = u32 (n + s.dma_length) in
        new_desc p m t.dma_address s.dma_address s.dma_length len ≡ true
        → (max' : ℕ) × (build_entry p m s t.dma_address (at_entry pre (d ∷ suf) s a n e max)
            ≡ done (
                at_entry
                  (pre ++ xdma_desc_set p d a e len m.dir_to_dev ∷ [])
                  suf
                  t
                  t.dma_address
                  0
                  (next_ep m e len)
                  max'))
  unfolding build_entry
  build_entry-new s t pre d suf a n e max new =
      let len = u32 (n + s.dma_length) in
      let d' = xdma_desc_set p d a e len m.dir_to_dev in
      let written =
        update_at-append pre d d' suf (λ d. done (xdma_desc_set p d a e len m.dir_to_dev)) refl in
      let count : length pre + 1 ≡ length (pre ++ d' ∷ []) =
        omega (arith, length-append pre (d' ∷ [])) in
      (if ltb max len then len else max, rw (new, written, count, append_assoc) refl)

  build_entry-old :
      (s t : Sg) (pre suf : List Desc) (a n e max : ℕ)
      → let len = u32 (n + s.dma_length) in
        new_desc p m t.dma_address s.dma_address s.dma_length len ≡ false
        → (max' : ℕ) × (build_entry p m s t.dma_address (at_entry pre suf s a n e max)
            ≡ done (at_entry pre suf t a len e max'))
  unfolding build_entry
  build_entry-old s t pre suf a n e max old = (max, rw old refl)

  build_from_lem :
      (nents : ℕ) (s : Sg) (sgl extra : List Sg) (pre suf : List Desc) (a n e max : ℕ)
      → length (s ∷ sgl) ≤ length suf
      → length pre + length sgl ≤ nents
      → build_from p m nents (length sgl) (s ∷ sgl ++ extra) (at_entry pre suf s a n e max) ≡ (
          let bs = blocks (s ∷ sgl) a n e in
          done (pre ++ write_blocks bs suf, length pre + length bs - 1))
  unfolding build_from write_blocks
  build_from_lem nents s sgl extra pre [] a n e max room count = absurd (omega arith)
  build_from_lem nents s [] extra pre (d ∷ suf) a n e max room count =
      let len = u32 (n + s.dma_length) in
      let d' = xdma_desc_set p d a e len m.dir_to_dev in
      let written =
        update_at-append pre d d' suf (λ d. done (xdma_desc_set p d a e len m.dir_to_dev)) refl in
      let fine : ltb nents (length pre) ≡ false = le→ltb _ _ (omega arith) in
      let last : length pre ≡ length pre + 1 - 1 = omega arith in
      rw (fine, written, blocks-last) (ap (λ i. done (pre ++ d' ∷ suf, i)) last)
  build_from_lem nents s (t ∷ sgl) extra pre (d ∷ suf) a n e max room count =
      let len = u32 (n + s.dma_length) in
      elim (Bool-cases (new_desc p m t.dma_address s.dma_address s.dma_length len)) [
        | inl new ↦
            let d' = xdma_desc_set p d a e len m.dir_to_dev in
            let (max', step) = build_entry-new s t pre d suf a n e max new in
            let ih =
              build_from_lem nents t sgl extra (pre ++ d' ∷ []) suf t.dma_address 0
                (next_ep m e len) max' (omega arith) (omega (arith, length-append pre (d' ∷ []))) in
            rw (step, blocks-new s t sgl a n e new)
              (ih
                ∙ ap₂ (λ ds i. done (ds, i)) (append_assoc pre (d' ∷ []) (write_blocks _ suf))
                    (omega (arith, length-append pre (d' ∷ []))))
        | inr old ↦
            let (max', step) = build_entry-old s t pre (d ∷ suf) a n e max old in
            rw (step, blocks-old s t sgl a n e old)
              (build_from_lem nents t sgl extra pre (d ∷ suf) a len e max' (omega arith)
                (omega arith))
      ]

  -- If there is an entry, and a descriptor for each entry, `transfer_build` of the first entries of
  -- an array, `extra` the others, ends with
  -- no BUG_ON and no write out of bounds: it puts the blocks of the scatterlist into the first
  -- descriptors, in order, leaves the others, and returns the index of the last block, which is
  -- below the number of entries.
  pub transfer_build-blocks :
      (s : Sg) (sgl extra : List Sg) (ds : List Desc) (ep_addr : ℕ)
      → length (s ∷ sgl) ≤ length ds
      → let bs = blocks (s ∷ sgl) s.dma_address 0 ep_addr in
        (transfer_build p m (s ∷ sgl ++ extra) (length (s ∷ sgl)) ds ep_addr
          ≡ done (write_blocks bs ds, length bs - 1))
        × (length bs - 1 < length (s ∷ sgl))
        × (0 < length bs)
  unfolding transfer_build
  transfer_build-blocks s sgl extra ds ep_addr room =
      let rounds : suc (length sgl) - 1 ≡ length sgl = omega arith in
      let start = length-blocks s sgl s.dma_address 0 ep_addr in
      let zero_first : 0 + length (blocks (s ∷ sgl) s.dma_address 0 ep_addr) - 1
          ≡ length (blocks (s ∷ sgl) s.dma_address 0 ep_addr) - 1 =
        omega arith in
      (
        rw rounds (
            build_from_lem (suc (length sgl)) s sgl extra [] ds s.dma_address 0 ep_addr 0 room
              (omega arith)
            ∙ ap (λ i. done (write_blocks (blocks (s ∷ sgl) s.dma_address 0 ep_addr) ds, i))
                zero_first),
        omega (arith, start),
        start.1,
      )
