-- ===== src/Kernel.antt =====
-- What the driver calls in the kernel: the calls whose effect matters later as events in their
-- order, and the scatterlist functions (linux/scatterlist.h) as parameters.
pub mod Held
use xpcie.Base.{ℕ, List, length, ◌≡◌}

-- `struct scatterlist`; a page is its pointer, 0 for NULL.
pub record Sg : Type 0 where
  pub page : ℕ
  pub offset : ℕ
  pub length : ℕ
  pub dma_address : ℕ
  pub dma_length : ℕ

abbrev pub empty_sg : Sg
empty_sg = record { page = 0; offset = 0; length = 0; dma_address = 0; dma_length = 0 }

-- The registers of the H2C engine and of its SG DMA unit that the driver touches.
pub data Register : Type 0 where
  control status first_desc_lo first_desc_hi first_desc_adjacent : Register

-- `iowrite32` and `ioread32`, `mdelay`, the pages that `get_user_pages_fast` pins and `put_page`
-- releases, the cache and dirty marks, the DMA mappings, the coherent memory and `kfree`.
pub data Event : Type 0 where
  write32 : Register → ℕ → Event
  read32 : Register → Event
  delay : ℕ → Event
  get_page put_page dirty_page flush_page : ℕ → Event
  map_sg unmap_sg : ℕ → Event
  alloc_consistent : ℕ → Event
  free_consistent : (size bus : ℕ) → Event
  free_mapper : Event

-- What `get_user_pages_fast` returns: an error, or the pages that it pinned, from the first on.
pub data Pinned : Type 0 where
  failed : Pinned
  pinned : List ℕ → Pinned

pub record Scatter : Type 0 where
  pub sg_set_page : Sg → ℕ → ℕ → ℕ → Sg
  pub sg_set_page_lem :
      (s : Sg) (page len offset : ℕ)
      → sg_set_page s page len offset ≡ record s { page = page; length = len; offset = offset }
  pub sg_init_table : List Sg → ℕ → List Sg
  pub length-sg_init_table : (sgl : List Sg) (n : ℕ) → length (sg_init_table sgl n) ≡ length sgl
