-- ===== src/Desc/Address.antt =====
-- What the engine reads in a descriptor: the 64-bit addresses in two stored words, and the length.
use xpcie.Base.{
  ℕ, ◌+◌, ◌*◌, ◌/◌, ◌%◌, ◌^◌, ◌<◌, ◌≡◌, Bool, true, false, bit_and_mask, arith, if◌then◌else◌,
}
use xpcie.Platform.{Platform, u32, pci_dma_h, pci_dma_l}
use xpcie.Desc.{Desc, xdma_desc_set}

pub pci_dma_l_lem : (a : ℕ) → pci_dma_l a ≡ a % 2 ^ 32
unfolding pci_dma_l
pci_dma_l_lem a = bit_and_mask 32 a

pub pci_dma_h_lem : (a : ℕ) → pci_dma_h a ≡ a / 2 ^ 32
unfolding pci_dma_h
pci_dma_h_lem a = omega arith

module _ (p : Platform) where
  open p use {cpu_to_le32, le32_to_cpu, le32_to_cpu-cpu_to_le32}

  -- The number that two stored words hold.
  unfoldable pub read64 : ℕ → ℕ → ℕ
  read64 lo hi = le32_to_cpu hi * 2 ^ 32 + le32_to_cpu lo

  abbrev pub src_addr : Desc → ℕ
  src_addr d = read64 d.src_addr_lo d.src_addr_hi

  abbrev pub dst_addr : Desc → ℕ
  dst_addr d = read64 d.dst_addr_lo d.dst_addr_hi

  abbrev pub next_addr : Desc → ℕ
  next_addr d = read64 d.next_lo d.next_hi

  abbrev pub byte_count : Desc → ℕ
  byte_count d = le32_to_cpu d.bytes

  -- An address goes into two words and comes back.
  pub read64-pci_dma :
      (a : ℕ) → a < 2 ^ 64 → read64 (cpu_to_le32 (pci_dma_l a)) (cpu_to_le32 (pci_dma_h a)) ≡ a
  unfolding read64
  read64-pci_dma a h = omega (
    arith,
    pci_dma_l_lem a,
    pci_dma_h_lem a,
    le32_to_cpu-cpu_to_le32 (pci_dma_l a) (omega (arith, pci_dma_l_lem a)),
    le32_to_cpu-cpu_to_le32 (pci_dma_h a) (omega (arith, pci_dma_h_lem a)),
  )

  -- The bus address at which the driver's memory is read or written, and the end point's.
  abbrev pub host_addr : Bool → Desc → ℕ
  host_addr dir_to_dev d = if dir_to_dev then src_addr d else dst_addr d

  abbrev pub card_addr : Bool → Desc → ℕ
  card_addr dir_to_dev d = if dir_to_dev then dst_addr d else src_addr d

  -- For 64-bit addresses and a 32-bit length the engine reads from the descriptor that
  -- `xdma_desc_set` filled in exactly the addresses, at the side that the direction says, and the
  -- length that were given; the control word and the next pointer are as before.
  pub xdma_desc_set_lem :
      (desc : Desc) (rc ep len : ℕ) (dir : Bool)
      → rc < 2 ^ 64
      → ep < 2 ^ 64
      → len < 2 ^ 32
      → let d = xdma_desc_set p desc rc ep len dir in
        (host_addr dir d ≡ rc)
        × (card_addr dir d ≡ ep)
        × (byte_count d ≡ len)
        × (d.control ≡ desc.control)
        × (d.next_lo ≡ desc.next_lo)
        × (d.next_hi ≡ desc.next_hi)
  unfolding xdma_desc_set
  xdma_desc_set_lem desc rc ep len true hr he hl = ground (
    arith,
    read64-pci_dma rc hr,
    read64-pci_dma ep he,
    le32_to_cpu-cpu_to_le32 (u32 len) (omega arith),
  )
  xdma_desc_set_lem desc rc ep len false hr he hl = ground (
    arith,
    read64-pci_dma rc hr,
    read64-pci_dma ep he,
    le32_to_cpu-cpu_to_le32 (u32 len) (omega arith),
  )
