-- ===== src/Lib.antt =====
-- The xpcie driver: a Linux driver for a PCIe card with a scatter-gather DMA engine (driver/xpcie.c
-- and driver/xpcie.h). A program maps the registers of the card with mmap on the device "user" and
-- sends data to the card with write on the device "h2c". A write pins the pages of the user's buffer
-- (the mapper), has the kernel map them to bus addresses, builds a list of descriptors that says what
-- to copy (the transfer), starts the engine on the list, waits, stops it, and releases the pages.
--
-- The files, and what they model of driver/xpcie.c:
--   Base       shared names; C's comparisons, arrays as lists, bit fields, families with one member
--              replaced, and how a call ends (`Run`: `done`, `bug` for a BUG_ON or a failed assert,
--              `oops` for an access through NULL or past an array)
--   Platform   page size and byte order as parameters with their laws; 32-bit and 64-bit arithmetic,
--              PCI_DMA_H and PCI_DMA_L
--   Kernel     the kernel's scatterlist as a parameter, and the calls of the kernel as events;
--              Kernel/Held is what they leave held
--   Desc       struct xdma_desc, xdma_desc_set, xdma_desc_link, xdma_desc_control,
--              xdma_desc_adjacent; Desc/Address and Desc/Control prove what they write, Desc/Fields
--              takes the control word apart
--   Mapper     struct sg_mapping_t, sg_create_mapper, sg_destroy_mapper, sgm_get_user_pages,
--              sgm_put_user_pages, sgm_dirty_pages; Mapper/Pages counts pages, Mapper/Paged and
--              Mapper/Bytes are about the bytes of the buffer and of the scatterlist, Mapper/Pin
--              about the pages that stay pinned, Mapper/Release about their release;
--              Mapper/KernelPages is sgm_kernel_pages
--   Transfer   xdma_desc_alloc, xdma_desc_free, transfer_build, transfer_terminate and the adjacent
--              counts; Transfer/Alloc is about the chain of new descriptors, Transfer/Blocks and
--              Transfer/Moves about the merged blocks, Transfer/Long about entries that are too long
--              for one descriptor, Transfer/Finish and Transfer/Walk about the list as the engine
--              reads it, Transfer/Bus about the bus addresses of the bytes; Transfer/Dump is
--              transfer_dump and dump_desc
--   Engine     engine_start, engine_stop, transfer_start; Engine/Run is the engine that they drive,
--              Engine/Race is about two transfers at the same time
--   Write      xpcie_h2c_write; Write/Done when the kernel grants each request, Write/Fault when
--              not, Write/Held about what a write takes and gives back
--   Mmap       xpcie_user_mmap and xpcie_h2c_mmap
--   Files      the functions of the three devices "user", "h2c" and "c2h" that only return, and the
--              tables xpcie_user_fops, xpcie_h2c_fops and xpcie_c2h_fops
--   Card       a program's calls on the device files, together with the engine and the memory of the
--              card; Card/Carry is about one write, Card/Session about all the calls, Card/System
--              about calls after a probe, Card/Fault about calls up to a write that the kernel
--              refuses, and Card/Held about what calls leave held in the kernel; Card/Promise says
--              what calls promise
--   Bars       map_single_bar, map_bars, unmap_bars, set_dma_mask, xpcie_probe, xpcie_remove;
--              Bars/Probe is about the two
--   Init       xpcie_init and xpcie_exit; Init/Exit compares what they register and take back
--   Registers  the structs of registers of driver/xpcie.h and the addresses that the driver
--              computes; Registers/Address and Registers/Layouts are about where the registers and
--              fields are
--   Driver     probe, remove and write on the globals that they share, as steps from state to state;
--              Driver/Invariant is about the mappings of the BARs, Driver/Access about a write in a
--              state that the driver reaches
--   Lifecycle  loads, loads that fail and unloads of the module, with probes and removes, as steps;
--              Lifecycle/Unload is about what they leave
--   SelfTest   test_h2c; SelfTest/Transfer says what the engine does for it
-- and of app/:
--   Lock       RWLock of Lock.cpp, and LockedValue of Lock.h: any number of threads as a step
--              relation; Lock/Sides and Lock/Invariant are about who is behind the lock,
--              Lock/Sequential about the results, Lock/Steps and Lock/Progress about calls that
--              return
--   Gate       threads that pass a mutex or a semaphore, behind an interface that Gate/Mutex fills
--              for CMutex and Gate/Semaphore for PosixSemaphore of Lock.cpp
--   HexDump    hex_dump of LogUtils.cpp: its lines and their text; HexDump/Bytes and HexDump/Expand
--              compare the lines with the buffer, HexDump/Read reads the text of a line,
--              HexDump/Text reads all of it, HexDump/Reads is about the bytes that are looked at,
--              HexDump/Rounds about the loop
--   RegRw      main of reg_rw.c and testReg of test_xpcie.cpp; RegRw/Bytes is about byte orders,
--              RegRw/Access about a whole run; RegRw/Device is a run on a device of the driver, and
--              RegRw/Stored and RegRw/Bar are about the registers of the card then
--   LogStream  NewLineStream and NewLine of LogUtils.h, with their buffers on a heap; LogStream/Line
--              is about a whole statement
--   TestProgram main, test_h2c, testXpcieUser and initLogger of test_xpcie.cpp
--   Tests      a concrete machine, and the theorems at concrete inputs
--
-- A C array is a list, a pointer or a page is its number with 0 for NULL, an `int` flag is a Bool.
-- The answers of the kernel (get_user_pages_fast, pci_map_sg, pci_alloc_consistent, kcalloc, the
-- PCI layer) are parameters, as are the locks of pthread.h, the named semaphores, and strtoul,
-- tolower, open, posix_memalign, log4cpp, mmap and munmap for app/. The loops are structural
-- recursion on the list or on the rounds left. `walk` has fuel; it is given as much as there are
-- descriptors in use, and the theorems state its result. `dump_from` has fuel, one round for each
-- byte, and its theorem says that this is enough; the digits of a number have 64 rounds, enough for
-- 64 bits. The steps of threads, of the driver and of the module are inductive relations without a
-- bound. Log output is left out, but for hex_dump, transfer_dump, the value that reg_rw reads, and
-- the lines of LogStream. The engine carries out a descriptor of any length, also one longer than
-- XDMA_DESC_MAX_BYTES.
--
-- Not modelled: a program's accesses to the card through a mapping, but for those of reg_rw; what
-- the kernel answers to a call for which a device has no function; the macros of app/LogUtils.h,
-- which are texts; app/Thread.cpp and app/Thread.h, the thread class of another author.
pub mod Base
pub mod Platform
pub mod Kernel
pub mod Desc
pub mod Mapper
pub mod Transfer
pub mod Engine
pub mod Write
pub mod Mmap
pub mod Files
pub mod Card
pub mod Bars
pub mod Init
pub mod Registers
pub mod Driver
pub mod Lifecycle
pub mod SelfTest
pub mod Lock
pub mod Gate
pub mod HexDump
pub mod RegRw
pub mod LogStream
pub mod TestProgram
pub mod Tests
