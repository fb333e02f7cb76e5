-- ===== src/Transfer/Moves.antt =====
-- What the blocks of `transfer_build` move, byte by byte, against the scatterlist.
use xpcie.Base.{
  ℕ, zero, suc, ◌+◌, ◌^◌, ◌≤◌, ◌≡◌, ap, ap₂, ◌∙◌, refl, inl, inr, false, ◌&&◌, List, [], ◌∷◌, ◌++◌,
  append_assoc, append-nil, Bool-cases, arith,
}
use xpcie.Platform.{Platform, u32, u64, page_size-le}
use xpcie.Kernel.{Sg}
use xpcie.Transfer.{Mode, desc_max_bytes, new_desc, next_ep}
use xpcie.Transfer.Blocks.{Block, blocks, blocks-new, blocks-old, blocks-last}

-- `len` bytes, each with its bus address and its end point address, both in 64 bits.
unfoldable pub moves : (addr ep len : ℕ) → List (ℕ × ℕ)
moves addr ep zero = []
moves addr ep (suc len) = (u64 addr, u64 ep) ∷ moves (suc addr) (suc ep) len

-- The bytes of the blocks, each block from its own addresses on.
unfoldable pub block_moves : List Block → List (ℕ × ℕ)
block_moves [] = []
block_moves (b ∷ bs) = moves b.addr b.ep b.len ++ block_moves bs

-- The bytes of the scatterlist in order, to consecutive end point addresses from `ep` on.
unfoldable pub sg_moves : List Sg → (ep : ℕ) → List (ℕ × ℕ)
sg_moves [] ep = []
sg_moves (s ∷ sgl) ep = moves s.dma_address ep s.dma_length ++ sg_moves sgl (ep + s.dma_length)

-- Every entry is at most `limit` bytes long.
abbrev pub AllWithin : (limit : ℕ) → List Sg → Type 0
AllWithin limit [] = Unit
AllWithin limit (s ∷ sgl) = (s.dma_length ≤ limit) × AllWithin limit sgl

-- Every block is at most `limit` bytes long.
abbrev pub BlocksWithin : (limit : ℕ) → List Block → Type 0
BlocksWithin limit [] = Unit
BlocksWithin limit (b ∷ bs) = (b.len ≤ limit) × BlocksWithin limit bs

moves-append : (a e m n : ℕ) → moves a e (m + n) ≡ moves a e m ++ moves (a + m) (e + m) n
unfolding moves
moves-append a e zero n =
    let ea : a ≡ a + 0 = omega arith in
    let ee : e ≡ e + 0 = omega arith in
    let en : 0 + n ≡ n = omega arith in ap (moves a e) en ∙ ap₂ (λ s t. moves s t n) ea ee
moves-append a e (suc m) n =
    let en : suc m + n ≡ suc (m + n) = omega arith in
    let ea : suc a + m ≡ a + suc m = omega arith in
    let ee : suc e + m ≡ e + suc m = omega arith in
    ap (moves a e) en
    ∙ ap (λ t. (u64 a, u64 e) ∷ t)
        (moves-append (suc a) (suc e) m n
          ∙ ap₂ (λ s t. moves (suc a) (suc e) m ++ moves s t n) ea ee)

-- The addresses count modulo 2 ^ 64.
moves-wrap : (a b e f n : ℕ) → u64 a ≡ u64 b → u64 e ≡ u64 f → moves a e n ≡ moves b f n
unfolding moves
moves-wrap a b e f zero ha he = refl
moves-wrap a b e f (suc n) ha he =
    let sa : u64 (suc a) ≡ u64 (suc b) = omega arith in
    let se : u64 (suc e) ≡ u64 (suc f) = omega arith in
    ap₂ ◌∷◌ (λ i. (ha i, he i)) (moves-wrap (suc a) (suc b) (suc e) (suc f) n sa se)

sg_moves-wrap : (sgl : List Sg) (e f : ℕ) → u64 e ≡ u64 f → sg_moves sgl e ≡ sg_moves sgl f
unfolding sg_moves
sg_moves-wrap [] e f h = refl
sg_moves-wrap (s ∷ sgl) e f h =
    let next : u64 (e + s.dma_length) ≡ u64 (f + s.dma_length) = omega arith in
    ap₂ ◌++◌ (moves-wrap s.dma_address s.dma_address e f s.dma_length refl h)
      (sg_moves-wrap sgl (e + s.dma_length) (f + s.dma_length) next)

module _ (p : Platform) (m : Mode) where
  open p use {page_size}

  -- An entry that starts no new descriptor is followed by a contiguous one, and leaves room.
  pub new_desc-false :
      (next addr len cont_len : ℕ)
      → new_desc p m next addr len cont_len ≡ false
      → (next ≡ u64 (addr + len)) × (cont_len + page_size ≤ desc_max_bytes)
  unfolding new_desc
  new_desc-false next addr len cont_len h = let small = page_size-le p in ground arith

  -- The open block ends where the entry `s` starts.
  abbrev Open : Sg → (a n : ℕ) → Type 0
  Open s a n = (u64 (a + n) ≡ u64 s.dma_address) × (n + page_size ≤ desc_max_bytes)

  -- The open block with the entry `s` added to it.
  moves-entry :
      (s : Sg) (a n e : ℕ)
      → Open s a n
      → s.dma_length ≤ 2 ^ 31
      → moves a e (u32 (n + s.dma_length)) ≡ moves a e n ++ moves s.dma_address (e + n) s.dma_length
  moves-entry s a n e o h =
      let exact : u32 (n + s.dma_length) ≡ n + s.dma_length = omega arith in
      ap (moves a e) exact
      ∙ moves-append a e n s.dma_length
      ∙ ap (λ t. moves a e n ++ t)
          (moves-wrap (a + n) s.dma_address (e + n) (e + n) s.dma_length o.0 refl)

  next_ep-incr : (e n : ℕ) → (m.userspace && m.non_incr_addr) ≡ false → next_ep m e n ≡ u64 (e + n)
  unfolding next_ep
  next_ep-incr e n h = rw h refl

  blocks_from-moves :
      (s : Sg) (sgl : List Sg) (a n e : ℕ)
      → (m.userspace && m.non_incr_addr) ≡ false
      → AllWithin (2 ^ 31) (s ∷ sgl)
      → Open s a n
      → block_moves (blocks p m (s ∷ sgl) a n e) ≡ moves a e n ++ sg_moves (s ∷ sgl) (e + n)
  unfolding block_moves sg_moves moves
  blocks_from-moves s [] a n e incr h o =
      rw (blocks-last, append-nil, append-nil) (moves-entry s a n e o h.0)
  blocks_from-moves s (t ∷ sgl) a n e incr h o =
      let len = u32 (n + s.dma_length) in
      let exact : len ≡ n + s.dma_length = omega (arith, h.0) in
      let head = moves-entry s a n e o h.0 in
      elim (Bool-cases (new_desc p m t.dma_address s.dma_address s.dma_length len)) [
        | inl new ↦
            let start : Open t t.dma_address 0 = omega (arith, page_size-le p) in
            let ih = blocks_from-moves t sgl t.dma_address 0 (next_ep m e len) incr h.1 start in
            let ep : u64 (next_ep m e len + 0) ≡ u64 (e + n + s.dma_length) =
              omega (arith, next_ep-incr e len incr) in
            rw (blocks-new p m s t sgl a n e new)
              (ap₂ ◌++◌ head (ih ∙ sg_moves-wrap (t ∷ sgl) _ _ ep) ∙ append_assoc (moves a e n) _ _)
        | inr old ↦
            let more = new_desc-false t.dma_address s.dma_address s.dma_length len old in
            let start : Open t a len = omega (arith, more) in
            let ih = blocks_from-moves t sgl a len e incr h.1 start in
            let ep : e + len ≡ e + n + s.dma_length = omega arith in
            rw (blocks-old p m s t sgl a n e old)
              (ih ∙ ap₂ ◌++◌ head (ap (sg_moves (t ∷ sgl)) ep) ∙ append_assoc (moves a e n) _ _)
      ]

  blocks_from-BlocksWithin :
      (s : Sg) (sgl : List Sg) (a n e : ℕ)
      → AllWithin page_size (s ∷ sgl)
      → Open s a n
      → BlocksWithin desc_max_bytes (blocks p m (s ∷ sgl) a n e)
  blocks_from-BlocksWithin s [] a n e h o = rw blocks-last (omega (arith, h.0), tt)
  blocks_from-BlocksWithin s (t ∷ sgl) a n e h o =
      let len = u32 (n + s.dma_length) in
      elim (Bool-cases (new_desc p m t.dma_address s.dma_address s.dma_length len)) [
        | inl new ↦ rw (blocks-new p m s t sgl a n e new) (
          omega (arith, h.0, o.1),
          blocks_from-BlocksWithin t sgl t.dma_address 0 (next_ep m e len) h.1
              (omega (arith, page_size-le p)),
        )
        | inr old ↦
            let more = new_desc-false t.dma_address s.dma_address s.dma_length len old in
            rw (blocks-old p m s t sgl a n e old) (
              blocks_from-BlocksWithin t sgl a len e h.1
                (omega (arith, more, o.0, o.1, h.0, page_size-le p)))
      ]

  -- The blocks of `transfer_build` move each byte of the scatterlist, in order, once, to
  -- consecutive end point addresses from `ep_addr` on (unless it is told to stay at one address),
  -- if no entry is longer than 2 GiB.
  pub blocks-moves :
      (s : Sg) (sgl : List Sg) (ep_addr : ℕ)
      → (m.userspace && m.non_incr_addr) ≡ false
      → AllWithin (2 ^ 31) (s ∷ sgl)
      → block_moves (blocks p m (s ∷ sgl) s.dma_address 0 ep_addr) ≡ sg_moves (s ∷ sgl) ep_addr
  unfolding moves
  blocks-moves s sgl ep_addr incr h =
      let start : Open s s.dma_address 0 = omega (arith, page_size-le p) in
      let ep : ep_addr + 0 ≡ ep_addr = omega arith in
      blocks_from-moves s sgl s.dma_address 0 ep_addr incr h start ∙ ap (sg_moves (s ∷ sgl)) ep

  -- If no entry is longer than a page, no block is longer than XDMA_DESC_MAX_BYTES.
  pub blocks-BlocksWithin :
      (s : Sg) (sgl : List Sg) (ep_addr : ℕ)
      → AllWithin page_size (s ∷ sgl)
      → BlocksWithin desc_max_bytes (blocks p m (s ∷ sgl) s.dma_address 0 ep_addr)
  blocks-BlocksWithin s sgl ep_addr h =
      blocks_from-BlocksWithin s sgl s.dma_address 0 ep_addr h (omega (arith, page_size-le p))
