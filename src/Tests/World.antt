-- ===== src/Tests/World.antt =====
-- A machine and a kernel to run the driver on: 4 KiB pages, little-endian words, a page with number
-- n at bus address n * 4096, each entry of a scatterlist mapped by itself, and coherent memory at
-- bus address 0x1000.
use xpcie.Base.{
  ℕ, zero, suc, ◌+◌, ◌-◌, ◌*◌, ◌/◌, ◌%◌, ◌^◌, ◌<◌, ◌≡◌, ap, ap₂, ◌∙◌, sym, refl, true, Bool, Option,
  some, List, [], ◌∷◌, ◌++◌, map, length, length-append, length-replicate, take, replicate, bit_and,
  bit_and_fields, bit_and_mask, bit_and-zero, arith,
}
use mathlib.Core.List.{map-append}
use xpcie.Platform.{Platform, u64}
use xpcie.Kernel.{Sg, Scatter, Pinned, pinned}
use xpcie.Desc.{Desc, desc_size}
use xpcie.Mapper.{Memory}
use xpcie.Mapper.Paged.{span, sg_bytes}
use xpcie.Transfer.Blocks.{AddressesFit}
use xpcie.Transfer.Moves.{AllWithin}
use xpcie.Transfer.Bus.{bus_span, bus_bytes, MapsBytes, Allocates}
use xpcie.Write.{Calls}

pub page_mask_4k : (x : ℕ) → x < 2 ^ 64 → bit_and x (2 ^ 64 - 4096) ≡ x - x % 4096
page_mask_4k x h =
    let fields =
      bit_and_fields (x / 2 ^ 12) (2 ^ 52 - 1) 12 (x % 2 ^ 12) 0 (omega arith) (omega arith) in
    let split : x ≡ x / 2 ^ 12 * 2 ^ 12 + x % 2 ^ 12 = omega arith in
    let mask : 2 ^ 64 - 4096 ≡ (2 ^ 52 - 1) * 2 ^ 12 + 0 = omega arith in
    omega (
      arith,
      ap₂ bit_and split mask,
      fields,
      ap (λ (t : ℕ). t * 2 ^ 12) (bit_and_mask 52 (x / 2 ^ 12)),
      bit_and-zero (x % 2 ^ 12),
    )

abbrev pub machine : Platform
machine = record {
  page_shift = 12;
  page_shift_le = omega arith;
  page_size = 4096;
  page_size_lem = refl;
  page_mask = 2 ^ 64 - 4096;
  page_mask_lem = page_mask_4k;
  offset_in_page = λ x. x % 4096;
  offset_in_page_lem = λ x. refl;
  cpu_to_le32 = λ x. x;
  le32_to_cpu = λ x. x;
  le32_to_cpu-cpu_to_le32 = λ x h. refl;
  cpu_to_le32-zero = refl;
}

abbrev pub scatter : Scatter
scatter = record {
  sg_set_page = λ s page len offset. record s { page = page; length = len; offset = offset };
  sg_set_page_lem = λ s page len offset. refl;
  sg_init_table = λ sgl n. sgl;
  length-sg_init_table = λ sgl n. refl;
}

abbrev pub bus_of : ℕ × ℕ → ℕ
bus_of a = u64 (a.0 * 4096 + a.1)

abbrev pub map_entry : Sg → Sg
map_entry s = record s { dma_address = u64 (s.page * 4096 + s.offset); dma_length = s.length }

abbrev pub map_entries : ℕ → List Sg → List Sg
map_entries zero sgl = sgl
map_entries (suc n) [] = []
map_entries (suc n) (s ∷ sgl) = map_entry s ∷ map_entries n sgl

length-map_entries : (n : ℕ) (sgl : List Sg) → length (map_entries n sgl) ≡ length sgl
length-map_entries zero sgl = refl
length-map_entries (suc n) [] = refl
length-map_entries (suc n) (s ∷ sgl) = ap suc (length-map_entries n sgl)

bus_span-span :
    (a page off len : ℕ)
    → u64 a ≡ u64 (page * 4096 + off)
    → bus_span a len ≡ map bus_of (span page off len)
unfolding bus_span
bus_span-span a page off zero h = refl
bus_span-span a page off (suc len) h =
    ap₂ (λ x y. x ∷ y) h (bus_span-span (suc a) page (suc off) len (omega (arith, h)))

map_entries-bytes :
    (n : ℕ) (sgl : List Sg)
    → bus_bytes (take n (map_entries n sgl)) ≡ map bus_of (sg_bytes (take n sgl))
unfolding bus_bytes sg_bytes
map_entries-bytes zero sgl = refl
map_entries-bytes (suc n) [] = refl
map_entries-bytes (suc n) (s ∷ sgl) =
    ap₂ ◌++◌ (bus_span-span (map_entry s).dma_address s.page s.offset s.length (omega arith))
      (map_entries-bytes n sgl)
    ∙ sym (map-append bus_of (span s.page s.offset s.length) (sg_bytes (take n sgl)))

map_entries-fit : (n : ℕ) (sgl : List Sg) → AddressesFit (take n (map_entries n sgl))
map_entries-fit zero sgl = tt
map_entries-fit (suc n) [] = tt
map_entries-fit (suc n) (s ∷ sgl) = (omega arith, map_entries-fit n sgl)

length-span : (page off len : ℕ) → length (span page off len) ≡ len
length-span page off zero = refl
length-span page off (suc len) = ap suc (length-span page (suc off) len)

map_entries-within :
    (n : ℕ) (sgl : List Sg)
    → length (sg_bytes (take n sgl)) < 2 ^ 31
    → AllWithin (2 ^ 31) (take n (map_entries n sgl))
unfolding sg_bytes
map_entries-within zero sgl h = tt
map_entries-within (suc n) [] h = tt
map_entries-within (suc n) (s ∷ sgl) h =
    let total = length-append (span s.page s.offset s.length) (sg_bytes (take n sgl)) in
    let len = length-span s.page s.offset s.length in
    (omega (arith, h, total, len), map_entries-within n sgl (omega (arith, h, total)))

abbrev pub pci_map_sg : List Sg → ℕ → List Sg × ℕ
pci_map_sg sgl n = (map_entries n sgl, n)

pub pci_map_sg-MapsBytes : MapsBytes pci_map_sg bus_of
pci_map_sg-MapsBytes = record {
  maps = λ sgl n pos room total. record {
    nents_pos = pos;
    nents-le = omega arith;
    in_list = omega (arith, room, length-map_entries n sgl);
    same_bytes = map_entries-bytes n sgl;
    addresses = map_entries-fit n sgl;
    lengths = map_entries-within n sgl total;
  };
}

abbrev pub old_desc : Desc
old_desc = record {
  control = 7;
  bytes = 7;
  src_addr_lo = 7;
  src_addr_hi = 7;
  dst_addr_lo = 7;
  dst_addr_hi = 7;
  next_lo = 7;
  next_hi = 7;
}

abbrev pub pci_alloc_consistent : ℕ → Option (ℕ × List Desc)
pci_alloc_consistent size = some (0x1000, replicate (size / desc_size) old_desc)

pub pci_alloc_consistent-Allocates : Allocates pci_alloc_consistent
pci_alloc_consistent-Allocates = record {
  bus = λ n. 0x1000;
  memory = λ n. replicate n old_desc;
  granted = λ n few. ap (λ (t : ℕ). some (0x1000, replicate t old_desc)) (entries_of n);
  size = λ n few. length-replicate (suc n) old_desc;
  aligned = λ n few. refl;
  in_space = λ n few. omega (arith, few);
}
  where
    entries_of : (n : ℕ) → suc n * desc_size / desc_size ≡ suc n
    entries_of n = omega arith

abbrev pub all_memory : Memory
all_memory = record { has_mapper = true; has_pages = true; has_sgl = true }

-- The pages that a call asks for, by number.
abbrev pub pages_from : (first n : ℕ) → List ℕ
pages_from first zero = []
pages_from first (suc n) = suc first ∷ pages_from (suc first) n

abbrev pub get_user_pages_fast : ℕ → ℕ → Bool → Pinned
get_user_pages_fast start nr write = pinned (pages_from (start / 4096) nr)

abbrev pub calls : Calls
calls = record {
  memory = all_memory;
  get_user_pages_fast = get_user_pages_fast;
  pci_map_sg = pci_map_sg;
  pci_alloc_consistent = pci_alloc_consistent;
}
