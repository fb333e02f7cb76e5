-- ===== src/Desc/Control.antt =====
-- The control word of a descriptor: magic (bits 16 to 31), reserved (12 to 15), extra adjacent
-- descriptors (8 to 11) and control (0 to 7), and what each function of driver/xpcie.c does to them.
use xpcie.Base.{
  ℕ, ◌+◌, ◌*◌, ◌/◌, ◌%◌, ◌^◌, ◌≤◌, ◌<◌, ◌≡◌, ap, ◌∙◌, refl, sym, false, Option, none, some, bit_and,
  bit_or, bit_and_mask, arith, tests, ltb, ◌==◌, Bool-cases, inl, inr, done, bug, if◌then◌else◌,
}
use xpcie.Platform.{Platform, u32}
use xpcie.Desc.Address.{read64, read64-pci_dma, next_addr}
use mathlib.Core.Option.{get_or}
use xpcie.Desc.{Desc, desc_magic, xdma_desc_link, xdma_desc_control, xdma_desc_adjacent, extra_adj}
use xpcie.Desc.Fields.{
  bit_or_low, bit_or_high, magic_field, reserved_field, adjacent_field, control_field, bit_and_f0ff,
  bit_and_not_ls_byte, control_word,
}

module _ (p : Platform) where
  open p use {cpu_to_le32, le32_to_cpu, le32_to_cpu-cpu_to_le32, cpu_to_le32-zero}

  abbrev pub control_of : Desc → ℕ
  control_of d = le32_to_cpu d.control

  extra_adj-le : (d : Desc) (n : ℕ) → extra_adj p d n ≤ 15
  unfolding extra_adj
  extra_adj-le d n = ground arith

  -- `xdma_desc_adjacent` writes the magic number and its count of adjacent descriptors into the
  -- control word, keeps the reserved and the control bits, and changes no other word.
  pub xdma_desc_adjacent_lem :
      (d : Desc) (n : ℕ)
      → let d' = xdma_desc_adjacent p d n in
        (magic_field (control_of d') ≡ 0xad4b)
        × (reserved_field (control_of d') ≡ reserved_field (control_of d))
        × (adjacent_field (control_of d') ≡ extra_adj p d n)
        × (control_field (control_of d') ≡ control_field (control_of d))
        × (d' ≡ record d { control = d'.control })
  unfolding xdma_desc_adjacent
  xdma_desc_adjacent_lem d n =
      let w = le32_to_cpu d.control in
      let e = extra_adj p d n in
      let word : bit_or (bit_and w 0xf0ff) (bit_or desc_magic (e * 2 ^ 8))
          ≡ 0xad4b * 2 ^ 16 + reserved_field w * 2 ^ 12 + e * 2 ^ 8 + control_field w =
        ap (λ t. bit_or t (bit_or desc_magic (e * 2 ^ 8))) (bit_and_f0ff w)
        ∙ control_word (reserved_field w) e (control_field w) (omega arith)
            (omega (arith, extra_adj-le d n)) (omega arith) in
      let back =
        le32_to_cpu-cpu_to_le32 (bit_or (bit_and w 0xf0ff) (bit_or desc_magic (e * 2 ^ 8)))
          (omega (arith, word, extra_adj-le d n)) in
      (
        omega (arith, word, back, extra_adj-le d n),
        omega (arith, word, back, extra_adj-le d n),
        omega (arith, word, back, extra_adj-le d n),
        omega (arith, word, back, extra_adj-le d n),
        refl,
      )

  -- The count that `xdma_desc_adjacent` writes is at most MAX_EXTRA_ADJ and less than the number
  -- of descriptors that follow, if one follows; and if the next descriptor is 32-byte aligned,
  -- the block of that many and one descriptors from there ends within the 4 KiB page.
  pub extra_adj_bounds :
      (d : Desc) (n : ℕ)
      → 0 < n
      → le32_to_cpu d.next_lo % 32 ≡ 0
      → (extra_adj p d n ≤ 15)
        × (extra_adj p d n < n)
        × (le32_to_cpu d.next_lo % 0x1000 + 32 * (extra_adj p d n + 1) ≤ 0x1000)
  unfolding extra_adj
  extra_adj_bounds d n hn aligned =
      let page = bit_and_mask 12 (le32_to_cpu d.next_lo) in
      (ground arith, ground arith, ground (arith, page))

  -- `xdma_desc_control` replaces the control bits by a control field of one byte, leaves the rest
  -- of the word and the other words, and on a larger value ends in its BUG_ON.
  pub xdma_desc_control_lem :
      (d : Desc) (f : ℕ)
      → f < 2 ^ 32
      → control_of d < 2 ^ 32
      → xdma_desc_control p d f ≡ (
          if ltb f (2 ^ 8)
          then done (record d { control = cpu_to_le32 (control_of d / 2 ^ 8 * 2 ^ 8 + f) })
          else bug)
  unfolding xdma_desc_control
  xdma_desc_control_lem d f hf hd =
      rw (bit_and_not_ls_byte (control_of d) hd, bit_and_not_ls_byte f hf)
        (elim (Bool-cases (ltb f (2 ^ 8))) [
          | inl fits ↦
              let e : f / 2 ^ 8 * 2 ^ 8 ≡ 0 = omega tests in
              let w : u32 (control_of d / 2 ^ 8 * 2 ^ 8) ≡ control_of d / 2 ^ 8 * 2 ^ 8 =
                omega arith in
              rw (fits, e, w, bit_or_low 8 (control_of d / 2 ^ 8) f (omega tests) (omega arith))
                refl
          | inr big ↦ let e : (f / 2 ^ 8 * 2 ^ 8 == 0) ≡ false = grind tests in rw (big, e) refl
        ])

  -- The word that `xdma_desc_link` writes.
  link_word :
      (w : ℕ)
      → le32_to_cpu (cpu_to_le32 (bit_or (bit_and w 0xf0ff) desc_magic))
        ≡ 0xad4b * 2 ^ 16 + reserved_field w * 2 ^ 12 + control_field w
  link_word w =
      let word : bit_or (bit_and w 0xf0ff) desc_magic
          ≡ 0xad4b * 2 ^ 16 + (reserved_field w * 2 ^ 12 + control_field w) =
        ap (λ t. bit_or t desc_magic) (bit_and_f0ff w)
        ∙ bit_or_high 16 0xad4b (reserved_field w * 2 ^ 12 + control_field w) (omega arith)
            (omega arith) in
      omega (
        arith,
        word,
        le32_to_cpu-cpu_to_le32 (bit_or (bit_and w 0xf0ff) desc_magic) (omega (arith, word)),
      )

  pub le32_to_cpu-zero : le32_to_cpu 0 ≡ 0
  le32_to_cpu-zero = ap le32_to_cpu (sym cpu_to_le32-zero) ∙ le32_to_cpu-cpu_to_le32 0 (omega arith)

  pub next_addr-zero : read64 p 0 0 ≡ 0
  unfolding read64
  next_addr-zero = omega (arith, le32_to_cpu-zero)

  -- `xdma_desc_link` makes the first descriptor point to the second, or to address 0 if there is
  -- none, writes the magic number, clears the count of adjacent descriptors, keeps the reserved
  -- and the control bits, and leaves the addresses and the length of the transfer.
  pub xdma_desc_link_lem :
      (d : Desc) (second : Option ℕ)
      → get_or second 0 < 2 ^ 64
      → let d' = xdma_desc_link p d second in
        (next_addr p d' ≡ get_or second 0)
        × (magic_field (control_of d') ≡ 0xad4b)
        × (reserved_field (control_of d') ≡ reserved_field (control_of d))
        × (adjacent_field (control_of d') ≡ 0)
        × (control_field (control_of d') ≡ control_field (control_of d))
        × (d' ≡ record d { control = d'.control; next_lo = d'.next_lo; next_hi = d'.next_hi })
  unfolding xdma_desc_link
  xdma_desc_link_lem d none h =
      let word = link_word (control_of d) in
      (
        next_addr-zero,
        omega (arith, word),
        omega (arith, word),
        omega (arith, word),
        omega (arith, word),
        refl,
      )
  xdma_desc_link_lem d (some second) h =
      let word = link_word (control_of d) in
      (
        read64-pci_dma p second h,
        omega (arith, word),
        omega (arith, word),
        omega (arith, word),
        omega (arith, word),
        refl,
      )
