-- ===== src/SelfTest.antt =====
-- `test_h2c` of driver/xpcie.c, a transfer of one descriptor made by hand, which the driver's
-- authors call from `xpcie_probe` when they bring up a board. Nothing maps the pages of a user: the
-- descriptor and the data are coherent memory.
pub mod Transfer
use xpcie.Base.{ℕ, zero, suc, ◌%◌, ◌^◌, Option, none, some, List, [], ◌∷◌, ◌++◌, bit_or}
use xpcie.Platform.{Platform, pci_dma_h, pci_dma_l}
use xpcie.Kernel.{
  Event, status, first_desc_lo, first_desc_hi, first_desc_adjacent, write32, read32, delay,
  alloc_consistent, free_consistent,
}
use xpcie.Desc.{Desc, desc_size, desc_magic}
use xpcie.Engine.{engine_start, engine_stop}

abbrev pub data_size : ℕ
data_size = 128

-- What the test leaves: the descriptor and the data while they were allocated, and the calls.
pub record Tested : Type 0 where
  pub desc : Option Desc
  pub data_virt : List ℕ
  pub events : List Event

-- `memset(desc_virt, 0, desc_size)`
abbrev pub zero_desc : Desc
zero_desc = record {
  control = 0;
  bytes = 0;
  src_addr_lo = 0;
  src_addr_hi = 0;
  dst_addr_lo = 0;
  dst_addr_hi = 0;
  next_lo = 0;
  next_hi = 0;
}

-- `for (i = 0; i < data_size; i++) data_virt[i] = i;`, from `i` on, as unsigned bytes.
unfoldable pub fill_data : (left i : ℕ) → List ℕ
fill_data zero i = []
fill_data (suc left) i = i % 2 ^ 8 ∷ fill_data left (suc i)

module _ (p : Platform) where
  open p use {cpu_to_le32}

  -- The descriptor, for data at bus address `data_bus`. The length is stored as it is.
  unfoldable pub test_desc : (data_bus ep_addr : ℕ) → Desc
  test_desc data_bus ep_addr = record zero_desc {
    bytes = data_size;
    control = cpu_to_le32 (bit_or desc_magic 0x13);
    dst_addr_lo = cpu_to_le32 (pci_dma_l ep_addr);
    dst_addr_hi = cpu_to_le32 (pci_dma_h ep_addr);
    next_hi = 0;
    next_lo = 0;
    src_addr_lo = cpu_to_le32 (pci_dma_l data_bus);
    src_addr_hi = cpu_to_le32 (pci_dma_h data_bus);
  }

  -- The register accesses, for a descriptor at bus address `desc_bus`.
  unfoldable pub test_run : (desc_bus : ℕ) → List Event
  test_run desc_bus =
      write32 first_desc_lo (cpu_to_le32 (pci_dma_l desc_bus))
        ∷ write32 first_desc_hi (cpu_to_le32 (pci_dma_h desc_bus))
        ∷ write32 first_desc_adjacent (cpu_to_le32 0)
        ∷ engine_start
      ++ delay 1000 ∷ read32 status ∷ engine_stop

  -- `test_h2c`, whose result is always 0. The parameters are the answers of the two calls of
  -- `pci_alloc_consistent`: `none`, or the bus address of the memory.
  unfoldable pub test_h2c : (desc_memory data_memory : Option ℕ) → Tested
  test_h2c none data_memory = record {
    desc = none;
    data_virt = [];
    events = alloc_consistent desc_size ∷ [];
  }
  test_h2c (some desc_bus) none = record {
    desc = some zero_desc;
    data_virt = [];
    events =
        alloc_consistent desc_size
        ∷ alloc_consistent data_size
        ∷ free_consistent desc_size desc_bus
        ∷ [];
  }
  test_h2c (some desc_bus) (some data_bus) = record {
    desc = some (test_desc data_bus 0);
    data_virt = fill_data data_size 0;
    events =
        alloc_consistent desc_size ∷ alloc_consistent data_size ∷ test_run desc_bus
        ++ free_consistent data_size data_bus ∷ free_consistent desc_size desc_bus ∷ [];
  }
