-- ===== src/Transfer/Bus.antt =====
-- The bus addresses of the bytes of a mapped scatterlist, and what `pci_map_sg` and
-- `pci_alloc_consistent` (linux/pci.h) are relied on for.
use xpcie.Base.{
  ℕ, zero, suc, ◌+◌, ◌*◌, ◌%◌, ◌^◌, ◌≤◌, ◌<◌, ◌≡◌, ap, ◌∙◌, sym, refl, Option, some, List, [], ◌∷◌,
  ◌++◌, map, length, take, arith,
}
use xpcie.Platform.{u64}
use xpcie.Kernel.{Sg}
use xpcie.Desc.{Desc, desc_size}
use xpcie.Mapper.Paged.{sg_bytes}
use xpcie.Transfer.Blocks.{AddressesFit}
use xpcie.Transfer.Moves.{moves, sg_moves, AllWithin}

-- `len` consecutive bus addresses.
unfoldable pub bus_span : (addr len : ℕ) → List ℕ
bus_span addr zero = []
bus_span addr (suc len) = u64 addr ∷ bus_span (suc addr) len

-- The bus addresses of the bytes of the mapped entries, in order.
unfoldable pub bus_bytes : List Sg → List ℕ
bus_bytes [] = []
bus_bytes (s ∷ sgl) = bus_span s.dma_address s.dma_length ++ bus_bytes sgl

-- Each with its end point address, counting up from `ep`.
unfoldable pub numbered : (ep : ℕ) → List ℕ → List (ℕ × ℕ)
numbered ep [] = []
numbered ep (a ∷ addrs) = (a, u64 ep) ∷ numbered (suc ep) addrs

moves-numbered :
    (a e n : ℕ) (addrs : List ℕ)
    → numbered e (bus_span a n ++ addrs) ≡ moves a e n ++ numbered (e + n) addrs
unfolding moves bus_span numbered
moves-numbered a e zero addrs =
    let same : e ≡ e + 0 = omega arith in ap (λ t. numbered t addrs) same
moves-numbered a e (suc n) addrs =
    let next : suc e + n ≡ e + suc n = omega arith in
    ap (λ t. (u64 a, u64 e) ∷ t)
      (moves-numbered (suc a) (suc e) n addrs
        ∙ ap (λ t. moves (suc a) (suc e) n ++ numbered t addrs) next)

-- The moves of a scatterlist are its bus addresses, numbered.
pub sg_moves-numbered : (sgl : List Sg) (e : ℕ) → sg_moves sgl e ≡ numbered e (bus_bytes sgl)
unfolding sg_moves bus_bytes numbered
sg_moves-numbered [] e = refl
sg_moves-numbered (s ∷ sgl) e =
    ap (λ t. moves s.dma_address e s.dma_length ++ t) (sg_moves-numbered sgl (e + s.dma_length))
    ∙ sym (moves-numbered s.dma_address e s.dma_length (bus_bytes sgl))

-- What mapping the first `n` entries gives: from 1 to `n` entries, which it may have merged. Their
-- bus addresses are those of the bytes of the given entries, in order, where `bus_of` is the bus
-- address of a byte of a page.
pub record Mapped (sgl : List Sg) (n : ℕ) (bus_of : ℕ × ℕ → ℕ) (out : List Sg × ℕ) : Type 0 where
  pub nents_pos : 0 < out.1
  pub nents-le : out.1 ≤ n
  pub in_list : out.1 ≤ length out.0
  pub same_bytes : bus_bytes (take out.1 out.0) ≡ map bus_of (sg_bytes (take n sgl))
  pub addresses : AddressesFit (take out.1 out.0)
  pub lengths : AllWithin (2 ^ 31) (take out.1 out.0)

-- The mapping of one or more entries, with less than 2 GiB, succeeds.
pub record MapsBytes (pci_map_sg : List Sg → ℕ → List Sg × ℕ) (bus_of : ℕ × ℕ → ℕ) : Type 0 where
  pub maps :
      (sgl : List Sg) (n : ℕ)
      → 0 < n
      → n ≤ length sgl
      → length (sg_bytes (take n sgl)) < 2 ^ 31
      → Mapped sgl n bus_of (pci_map_sg sgl n)

-- Coherent memory for `n` descriptors, from 1 to 2^32 - 1 of them, is there, 32-byte aligned, and
-- ends within the bus address space.
pub record Allocates (pci_alloc_consistent : ℕ → Option (ℕ × List Desc)) : Type 0 where
  pub bus : ℕ → ℕ
  pub memory : ℕ → List Desc
  pub granted :
      (n : ℕ)
      → suc n < 2 ^ 32
      → pci_alloc_consistent (suc n * desc_size) ≡ some (bus (suc n), memory (suc n))
  pub size : (n : ℕ) → suc n < 2 ^ 32 → length (memory (suc n)) ≡ suc n
  pub aligned : (n : ℕ) → suc n < 2 ^ 32 → bus (suc n) % 32 ≡ 0
  pub in_space : (n : ℕ) → suc n < 2 ^ 32 → bus (suc n) + suc n * desc_size ≤ 2 ^ 64
