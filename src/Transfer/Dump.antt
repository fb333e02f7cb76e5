-- ===== src/Transfer/Dump.antt =====
-- `dump_desc` and `transfer_dump` of driver/xpcie.c: what they log of the descriptors of a transfer.
-- The address of a word is given as its offset from `desc_virt`.
use Prim.Native.String.{String}
use xpcie.Base.{
  ℕ, zero, suc, ◌+◌, ◌*◌, ◌<◌, ◌≤◌, ◌≡◌, refl, false, none, some, List, [], ◌∷◌, ◌++◌, length,
  get_elem?, ◌==◌, Run, done, oops, ◌>>=◌, ◌>>◌, bug_on, arith,
}
use xpcie.Platform.{Platform}
use xpcie.Desc.{Desc, desc_size}

-- One line: the offset of the word, the word as it is stored and as the processor reads it, and the
-- name of the field.
pub record DumpLine : Type 0 where
  pub offset : ℕ
  pub stored : ℕ
  pub value : ℕ
  pub field : String

-- The words of the struct, by which `dump_desc` steps with a `u32 *`, and its `field_name`.
abbrev pub desc_words : Desc → List (ℕ × String)
desc_words d =
    (d.control, "magic|extra_adjacent|control")
    ∷ (d.bytes, "bytes")
    ∷ (d.src_addr_lo, "src_addr_lo")
    ∷ (d.src_addr_hi, "src_addr_hi")
    ∷ (d.dst_addr_lo, "dst_addr_lo")
    ∷ (d.dst_addr_hi, "dst_addr_hi")
    ∷ (d.next_lo, "next_addr")
    ∷ (d.next_hi, "next_addr_pad")
    ∷ []

get_elem?-lt :
    {A : Type 0} (xs : List A) (i : ℕ) → i < length xs → (x : A) × (get_elem? xs i ≡ some x)
get_elem?-lt [] i h = absurd (omega arith)
get_elem?-lt (x ∷ xs) zero h = (x, refl)
get_elem?-lt (x ∷ xs) (suc i) h = get_elem?-lt xs i (omega arith)

module _ (p : Platform) where
  open p use {le32_to_cpu}

  abbrev pub dump_words : (offset : ℕ) → List (ℕ × String) → List DumpLine
  dump_words offset [] = []
  dump_words offset ((word, name) ∷ words) =
      record { offset = offset; stored = word; value = le32_to_cpu word; field = name }
      ∷ dump_words (offset + 4) words

  unfoldable pub dump_desc : (offset : ℕ) → Desc → List DumpLine
  dump_desc offset d = dump_words offset (desc_words d)

  -- The loop over `i`, with so many rounds left.
  unfoldable pub dump_each : (left i : ℕ) → (desc_virt : List Desc) → Run (List DumpLine)
  dump_each zero i desc_virt = done []
  dump_each (suc left) i desc_virt = elim (get_elem? desc_virt i) [
    | none ↦ oops
    | some d ↦ do
      lines ← dump_each left (suc i) desc_virt
      done (dump_desc (i * desc_size) d ++ lines)
  ]

  unfoldable pub transfer_dump : (desc_virt : List Desc) (desc_num : ℕ) → Run (List DumpLine)
  transfer_dump desc_virt desc_num = do bug_on (desc_num == 0); dump_each desc_num 0 desc_virt

  dump_each-done :
      (left i : ℕ) (desc_virt : List Desc)
      → i + left ≤ length desc_virt
      → (lines : List DumpLine) × (dump_each left i desc_virt ≡ done lines)
        × (length lines ≡ 8 * left)
  unfolding dump_each dump_desc
  dump_each-done zero i desc_virt within = ([], refl, refl)
  dump_each-done (suc left) i desc_virt within =
      let (d, there) = get_elem?-lt desc_virt i (omega arith) in
      let (lines, e, l) = dump_each-done left (suc i) desc_virt (omega arith) in
      (dump_desc (i * desc_size) d ++ lines, rw (dump_each, there, e) refl, omega (arith, l))

  -- Descriptors that are there are dumped with eight lines for each.
  pub transfer_dump-done :
      (desc_virt : List Desc) (desc_num : ℕ)
      → 0 < desc_num
      → desc_num ≤ length desc_virt
      → (lines : List DumpLine) × (transfer_dump desc_virt desc_num ≡ done lines)
        × (length lines ≡ 8 * desc_num)
  unfolding transfer_dump
  transfer_dump-done desc_virt desc_num some_desc within =
      let (lines, e, l) = dump_each-done desc_num 0 desc_virt (omega arith) in
      let not_zero : (desc_num == 0) ≡ false = ground arith in (lines, rw (not_zero, e) refl, l)
