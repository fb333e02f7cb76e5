-- ===== src/Tests/Transfer.antt =====
-- Three mapped entries in an array of four, the first two next to each other on the bus, for the
-- end point address 0x8000; and the descriptor array of three that they get at bus address 0x1000.
use xpcie.Base.{
  ℕ, ◌+◌, ◌*◌, ◌^◌, ◌<◌, ◌≤◌, ◌≡◌, refl, true, some, List, [], ◌∷◌, ◌++◌, length, replicate, take,
  none, inl, done, bug, arith,
}
use xpcie.Kernel.{Sg}
use xpcie.Desc.{Desc}
use xpcie.Desc.Address.{read64}
use xpcie.Transfer.{desc_max_bytes, xdma_desc_alloc, transfer_build, prepare, new_desc, next_ep}
use xpcie.Transfer.Alloc.{Chain, Filled, xdma_desc_alloc-Chain}
use xpcie.Transfer.Blocks.{block, Block, blocks, write_blocks, transfer_build-blocks}
use xpcie.Transfer.Long.{HasLongerDesc, transfer_build-HasLongerDesc}
use xpcie.Transfer.Moves.{sg_moves, BlocksWithin, blocks-BlocksWithin}
use xpcie.Transfer.Finish.{Listed, Ready}
use xpcie.Transfer.Walk.{at_bus, walk, prepare-Ready, walk-prepare}
use xpcie.Write.{h2c_mode}
use xpcie.Tests.World.{machine, old_desc, pci_alloc_consistent}

abbrev entry : (page addr len : ℕ) → Sg
entry page addr len = record {
  page = page;
  offset = 0;
  length = len;
  dma_address = addr;
  dma_length = len;
}

abbrev others : List Sg
others = entry 2 0x11000 4096 ∷ entry 3 0x20000 100 ∷ []

abbrev chained : (next adj : ℕ) → Desc
chained next adj = record old_desc {
  control = 0xad4b_0000 + adj * 2 ^ 8;
  next_lo = next;
  next_hi = 0;
}

abbrev descs : List Desc
descs = chained 0x1020 1 ∷ chained 0x1040 0 ∷ chained 0 0 ∷ []

descs-Chain : Chain machine 2 0x1000 descs
unfolding read64
descs-Chain = (refl, (refl, refl), (refl, (refl, refl), (refl, refl)))

abbrev two_blocks : List Block
two_blocks = block 0x10000 0x8000 8192 ∷ block 0x20000 0xa000 100 ∷ []

walk-prepare_example :
    (out : List Desc) × (prepare machine h2c_mode
        (entry 1 0x10000 4096 ∷ others ++ (entry 4 0 0 ∷ []))
        3
        descs
        0x8000
      ≡ done (out, 2))
    × (walk machine true 2 (at_bus 0x1000 out) 0x1000
        ≡ some (sg_moves (entry 1 0x10000 4096 ∷ others) 0x8000))
    × (2 ≤ length out)
unfolding blocks new_desc next_ep
walk-prepare_example =
    walk-prepare machine h2c_mode (entry 1 0x10000 4096) others (entry 4 0 0 ∷ []) 0x1000 0x8000
      descs (omega arith, (omega arith, (omega arith, tt))) (omega arith) refl descs-Chain refl refl
      (omega arith, (omega arith, (omega arith, tt)))

prepare-Ready_example :
    (out : List Desc) × (prepare machine h2c_mode
        (entry 1 0x10000 4096 ∷ others ++ (entry 4 0 0 ∷ []))
        3
        descs
        0x8000
      ≡ done (out, 2))
    × Listed machine true (Ready machine true) 0x1000 two_blocks out
unfolding blocks new_desc next_ep
prepare-Ready_example =
    prepare-Ready machine h2c_mode (entry 1 0x10000 4096) others (entry 4 0 0 ∷ []) 0x1000 0x8000
      descs (omega arith, (omega arith, (omega arith, tt))) (omega arith) refl descs-Chain refl

transfer_build-blocks_example :
    (transfer_build machine h2c_mode
        (entry 1 0x10000 4096 ∷ others ++ (entry 4 0 0 ∷ []))
        3
        descs
        0x8000
      ≡ done (write_blocks machine h2c_mode two_blocks descs, 1))
    × (1 < 3)
    × (0 < 2)
unfolding blocks new_desc next_ep
transfer_build-blocks_example =
    transfer_build-blocks machine h2c_mode (entry 1 0x10000 4096) others (entry 4 0 0 ∷ []) descs
      0x8000 (omega arith)

blocks-BlocksWithin_example : BlocksWithin desc_max_bytes two_blocks
unfolding blocks new_desc next_ep
blocks-BlocksWithin_example =
    blocks-BlocksWithin machine h2c_mode (entry 1 0x10000 4096) others 0x8000
      (omega arith, (omega arith, (omega arith, tt)))

xdma_desc_alloc-Chain_example :
    (ds : List Desc) × (xdma_desc_alloc machine pci_alloc_consistent 3 ≡ done (some (0x1000, ds)))
    × (length ds ≡ 3)
    × Chain machine 2 0x1000 ds
    × Filled machine 2 ds
    × (xdma_desc_alloc machine (λ size. none) 3 ≡ done none)
    × (xdma_desc_alloc machine pci_alloc_consistent 0 ≡ bug)
xdma_desc_alloc-Chain_example =
    xdma_desc_alloc-Chain machine pci_alloc_consistent 2 0x1000 (replicate 3 old_desc) refl refl
      (omega arith)

-- One entry of 1 MiB.
transfer_build-HasLongerDesc_example :
    (out : List Desc) × (last : ℕ) × (transfer_build machine h2c_mode
        (entry 1 0x10_0000 0x10_0000 ∷ [])
        1
        descs
        0x8000
      ≡ done (out, last))
    × HasLongerDesc machine desc_max_bytes (take (last + 1) out)
transfer_build-HasLongerDesc_example =
    transfer_build-HasLongerDesc machine h2c_mode (entry 1 0x10_0000 0x10_0000) [] [] descs 0x8000
      (omega arith) (omega arith, tt) (omega arith) (omega arith, tt) (inl (omega arith))
