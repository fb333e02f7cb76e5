-- ===== src/Transfer/Alloc.antt =====
-- The descriptors of `xdma_desc_alloc` form a chain on the bus.
use xpcie.Base.{
  leb, ◌<◌, ℕ, zero, suc, ◌+◌, ◌-◌, ◌*◌, ◌^◌, ◌≤◌, ◌≡◌, ap, ◌∙◌, refl, false, Option, none, some,
  List, [], ◌∷◌, length, bit_or, min, ltb, le→ltb, done, bug, arith, if◌then◌else◌,
}
use mathlib.Core.Path.{subst}
use xpcie.Platform.{Platform, u64, pci_dma_h, pci_dma_l}
use xpcie.Kernel.{free_consistent}
use xpcie.Desc.{Desc, desc_size, desc_magic, clamp_adj}
use xpcie.Desc.Address.{read64, next_addr, read64-pci_dma}
use xpcie.Desc.Control.{control_of}
use xpcie.Desc.Fields.{bit_or_low}
use xpcie.Desc.Fields.{control_field, reserved_field, magic_field, adjacent_field}
use xpcie.Transfer.{fill_chain, xdma_desc_alloc, xdma_desc_free}

module _ (p : Platform) where
  open p use {cpu_to_le32, le32_to_cpu, le32_to_cpu-cpu_to_le32}

  -- A control word that has no control bit and no reserved bit set.
  abbrev pub Clean : Desc → Type 0
  Clean d = (control_field (control_of p d) ≡ 0) × (reserved_field (control_of p d) ≡ 0)

  -- `n` descriptors, each of which points to the one behind it in memory, and one more. The array
  -- starts at bus address `bus`.
  abbrev pub Chain : (n bus : ℕ) → List Desc → Type 0
  Chain n bus [] = ⊥
  Chain zero bus (d ∷ ds) = Clean d
  Chain (suc n) bus (d ∷ ds) =
      (next_addr p d ≡ bus + desc_size) × Clean d × Chain n (bus + desc_size) ds

  -- The magic number, a count of adjacent descriptors, and no bytes.
  abbrev pub Headed : Desc → (adjacent : ℕ) → Type 0
  Headed d adjacent =
      (magic_field (control_of p d) ≡ 0xad4b)
      × (adjacent_field (control_of p d) ≡ adjacent)
      × (le32_to_cpu d.bytes ≡ 0)

  -- `n` descriptors, each with a count of those behind the next one, at most 15, and a last one
  -- that points to no other.
  abbrev pub Filled : (n : ℕ) → List Desc → Type 0
  Filled n [] = ⊥
  Filled zero (d ∷ ds) = Headed d 0 × (next_addr p d ≡ 0)
  Filled (suc n) (d ∷ ds) = Headed d (min n 15) × Filled n ds

  -- The control word with a count of adjacent descriptors.
  adjacent_word :
      (extra : ℕ)
      → extra ≤ 15
      → let w = cpu_to_le32 (bit_or desc_magic (extra * 2 ^ 8)) in
        (control_field (le32_to_cpu w) ≡ 0)
        × (reserved_field (le32_to_cpu w) ≡ 0)
        × (magic_field (le32_to_cpu w) ≡ 0xad4b)
        × (adjacent_field (le32_to_cpu w) ≡ extra)
  adjacent_word extra h =
      let word : bit_or desc_magic (extra * 2 ^ 8) ≡ 0xad4b * 2 ^ 16 + extra * 2 ^ 8 =
        bit_or_low 16 0xad4b (extra * 2 ^ 8) (omega arith) (omega arith) in
      let back =
        le32_to_cpu-cpu_to_le32 (bit_or desc_magic (extra * 2 ^ 8)) (omega (arith, word)) in
      (
        omega (arith, h, word, back),
        omega (arith, h, word, back),
        omega (arith, h, word, back),
        omega (arith, h, word, back),
      )

  magic_word :
      let w = cpu_to_le32 desc_magic in
      (control_field (le32_to_cpu w) ≡ 0)
      × (reserved_field (le32_to_cpu w) ≡ 0)
      × (magic_field (le32_to_cpu w) ≡ 0xad4b)
      × (adjacent_field (le32_to_cpu w) ≡ 0)
  magic_word =
      let back = le32_to_cpu-cpu_to_le32 desc_magic (omega arith) in
      (omega (arith, back), omega (arith, back), omega (arith, back), omega (arith, back))

  no_bytes : le32_to_cpu (cpu_to_le32 0) ≡ 0
  no_bytes = le32_to_cpu-cpu_to_le32 0 (omega arith)

  no_next : read64 p (cpu_to_le32 0) (cpu_to_le32 0) ≡ 0
  unfolding read64
  no_next = omega (arith, no_bytes)

  adjacent_count : (n : ℕ) → (if ltb 0 (suc n) then clamp_adj (suc n) else 0) ≡ min n 15
  unfolding clamp_adj
  adjacent_count n = ground arith

  -- With memory for the descriptors that ends within the address space, the loop fills them all.
  fill_chain-Chain :
      (n : ℕ) (mem : List Desc) (bus adj : ℕ)
      → adj ≡ n
      → length mem ≡ suc n
      → bus + suc n * desc_size ≤ 2 ^ 64
      → (ds : List Desc) × (fill_chain p (suc n) mem bus adj ≡ done ds)
        × (length ds ≡ suc n)
        × Chain n bus ds
        × Filled n ds
  unfolding fill_chain
  fill_chain-Chain n [] bus adj last l h = absurd (omega arith)
  fill_chain-Chain zero (d ∷ mem) bus adj last l h =
      let (control, reserved, magic, adjacent) = magic_word in
      (
        record d {
          next_lo = cpu_to_le32 0;
          next_hi = cpu_to_le32 0;
          bytes = cpu_to_le32 0;
          control = cpu_to_le32 desc_magic;
        }
            ∷ mem,
        refl,
        l,
        (control, reserved),
        ((magic, adjacent, no_bytes), no_next),
      )
  fill_chain-Chain (suc n) (d ∷ mem) bus adj last l h =
      let next : u64 (bus + desc_size) ≡ bus + desc_size = omega arith in
      let count : (if ltb 0 adj then clamp_adj adj else 0) ≡ min n 15 =
        ap (λ a. if ltb 0 a then clamp_adj a else 0) last ∙ adjacent_count n in
      let (ds, e, len, chain, filled) =
        fill_chain-Chain n mem (u64 (bus + desc_size)) (adj - 1) (omega arith) (omega arith)
          (omega arith) in
      let (control, reserved, magic, adjacent) =
        adjacent_word (if ltb 0 adj then clamp_adj adj else 0) (omega (arith, count)) in
      (
        record d {
          next_lo = cpu_to_le32 (pci_dma_l (u64 (bus + desc_size)));
          next_hi = cpu_to_le32 (pci_dma_h (u64 (bus + desc_size)));
          bytes = cpu_to_le32 0;
          control =
              cpu_to_le32 (bit_or desc_magic ((if ltb 0 adj then clamp_adj adj else 0) * 2 ^ 8));
        }
            ∷ ds,
        rw e refl,
        ap suc len,
        (
          read64-pci_dma p (u64 (bus + desc_size)) (omega arith) ∙ next,
          (control, reserved),
          subst (λ t. Chain n t ds) next chain,
        ),
        ((magic, adjacent ∙ count, no_bytes), filled),
      )

  -- `xdma_desc_alloc` of one descriptor or more, when `pci_alloc_consistent` gives memory of the
  -- size that was asked for, which ends within the bus address space: it returns the bus address
  -- and the descriptors in that memory, as many as were asked for. Each but the last points to the
  -- next one on the bus, and counts those behind the next one as adjacent, at most 15; the last
  -- points to none and counts none. Each has the magic number, no bytes, and no control bit or
  -- reserved bit set. When `pci_alloc_consistent` gives no memory, the function returns NULL; for no
  -- descriptor it ends in its BUG_ON.
  pub xdma_desc_alloc-Chain :
      (alloc : ℕ → Option (ℕ × List Desc)) (n bus : ℕ) (mem : List Desc)
      → alloc (suc n * desc_size) ≡ some (bus, mem)
      → length mem ≡ suc n
      → bus + suc n * desc_size ≤ 2 ^ 64
      → (ds : List Desc) × (xdma_desc_alloc p alloc (suc n) ≡ done (some (bus, ds)))
        × (length ds ≡ suc n)
        × Chain n bus ds
        × Filled n ds
        × (xdma_desc_alloc p (λ size. none) (suc n) ≡ done none)
        × (xdma_desc_alloc p alloc 0 ≡ bug)
  unfolding xdma_desc_alloc
  xdma_desc_alloc-Chain alloc n bus mem got l h =
      let (ds, e, len, chain, filled) = fill_chain-Chain n mem bus (suc n - 1) (omega arith) l h in
      let some_desc : ltb (suc n) 1 ≡ false = le→ltb _ _ (omega arith) in
      (ds, rw (some_desc, got, e) refl, len, chain, filled, rw some_desc refl, refl)

  pub xdma_desc_alloc-none :
      (alloc : ℕ → Option (ℕ × List Desc)) (n : ℕ)
      → alloc (suc n * desc_size) ≡ none
      → xdma_desc_alloc p alloc (suc n) ≡ done none
  unfolding xdma_desc_alloc
  xdma_desc_alloc-none alloc n got =
      let some_desc : ltb (suc n) 1 ≡ false = le→ltb _ _ (omega arith) in rw (some_desc, got) refl

  -- For up to 2^31 - 1 descriptors whose memory has the size that was asked for and ends within the
  -- bus address space, what `xdma_desc_alloc` returns can be given to `xdma_desc_free`: no BUG_ON
  -- fires, and the memory that is released has the bus address and the size of the memory that was
  -- allocated.
  pub xdma_desc_alloc-free :
      (alloc : ℕ → Option (ℕ × List Desc)) (n bus : ℕ) (mem : List Desc)
      → suc n < 2 ^ 31
      → alloc (suc n * desc_size) ≡ some (bus, mem)
      → length mem ≡ suc n
      → bus + suc n * desc_size ≤ 2 ^ 64
      → (ds : List Desc) × (xdma_desc_alloc p alloc (suc n) ≡ done (some (bus, ds)))
        × (xdma_desc_free p (suc n) (some ds) bus
            ≡ done (free_consistent (suc n * desc_size) bus ∷ []))
  unfolding xdma_desc_free
  xdma_desc_alloc-free alloc n bus mem few got l h =
      let (ds, e, _, _, _, _, _) = xdma_desc_alloc-Chain alloc n bus mem got l h in
      let fits : leb (2 ^ 31) (suc n) ≡ false = ground arith in (ds, e, rw fits refl)
