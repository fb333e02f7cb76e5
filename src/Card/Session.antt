-- ===== src/Card/Session.antt =====
-- A program's calls on the device files, against what they promise: a write on "h2c" stores the
-- program's bytes on the card, and no other call changes the card.
use mathlib.Core.Path.{fun_ext}
use xpcie.Base.{
  ℕ, ◌+◌, ◌-◌, ◌%◌, ◌<◌, ◌≡◌, ap, ap₂, ◌∙◌, refl, Bool, true, List, [], ◌∷◌, map, leb, ltb, ◌&&◌,
  done, Bool-cases, inl, inr, arith,
}
use xpcie.Platform.{Platform}
use xpcie.Kernel.{Register, Scatter}
use xpcie.Mmap.{Remap}
use xpcie.Write.{Calls, Written, xpcie_h2c_write}
use xpcie.Write.Done.{xpcie_h2c_write-Sent}
use xpcie.Files.{
  Node, user, h2c, c2h, FileOp, open_file, release_file, read_file, write_file, mmap_file, Answer,
  wrote, file_call, xpcie_user_fops, xpcie_h2c_fops, xpcie_c2h_fops,
}
use xpcie.Registers.{register_address}
use xpcie.Driver.{Driver, covers}
use xpcie.Card.{Card, Syscall, card_write, answered, card_call, session}
use xpcie.Card.Promise.{
  expected, expected_count, expected_writes, count_of, writes_of, IsSent, AllSent, IsGranted,
  Allowed, AllAllowed, expected_store, expected_counts, writes_in, writes_done,
}
use xpcie.Card.Carry.{stored_at, card_write-Sent}

-- The contents of the buffer matter within the count alone.
stored_at-agree :
    (pos count : ℕ) (f g : ℕ → ℕ) (store : ℕ → ℕ) (e : ℕ)
    → ((j : ℕ) → j < count → f j ≡ g j)
    → stored_at pos count f store e ≡ stored_at pos count g store e
stored_at-agree pos count f g store e h = elim (Bool-cases (leb pos e && ltb e (pos + count))) [
  | inl inside ↦ rw (inside, h (e - pos) (ground arith)) refl
  | inr outside ↦ rw outside refl
]

module _ (p : Platform) (little : (x : ℕ) → p.cpu_to_le32 x ≡ x) (bus_of : ℕ × ℕ → ℕ) (d : Driver)
    (covered : (r : Register) → covers d.live (register_address d.bases r) ≡ true)
    (pci_resource_start pci_resource_end : ℕ → ℕ) (io_remap_pfn_range : Remap → Bool)
    (k : Scatter) where
  -- One call: its count, the card after it, and whether it wrote.
  Kept : Answer → Card → (count : ℕ) → (store : ℕ → ℕ) → (writes : ℕ) → Type 0
  Kept answer card count store writes =
      (count_of answer ≡ count)
      × (card.device.control_word % 2 ≡ 0)
      × (card.store ≡ store)
      × (writes_of answer ≡ writes)
      × IsSent p answer

  granted_write :
      (c : Calls) (ram user_memory : ℕ → ℕ) (buf count pos : ℕ) (card : Card)
      → IsGranted p bus_of c ram user_memory buf count pos
      → card.device.control_word % 2 ≡ 0
      → (w : Written) × (card' : Card) × (xpcie_h2c_write p k c buf count pos ≡ done w)
        × (card_write p d ram w card ≡ done card')
        × Kept (wrote w) card' count (stored_at pos count (λ j. user_memory (buf + j)) card.store) 1
  unfolding Kept
  granted_write c ram user_memory buf count pos card g stopped =
      let (w, writes, sent) =
        xpcie_h2c_write-Sent p k c bus_of g.maps g.allocates pos
          (omega (arith, g.on_card, g.some_byte)) buf count g.news g.some_byte g.small g.in_memory
          g.memory g.pins g.all_pages in
      let (card', does, halted, holds) =
        card_write-Sent p little bus_of ram pos count (buf % p.page_size) g.news w sent g.on_card d
          card covered stopped in
      (
        w,
        card',
        writes,
        does,
        (
          sent.returned,
          omega (arith, halted),
          fun_ext (λ e. holds e ∙ stored_at-agree pos count _ _ card.store e g.contents),
          refl,
          (g.news, sent.calls.0, w.desc_bus, w.desc_num, sent.some_entry, sent.calls.1),
        ),
      )

  call_steps :
      (s : Syscall) (card card' : Card) (answer : Answer)
      → file_call p pci_resource_start pci_resource_end io_remap_pfn_range k s.calls s.node s.op
        ≡ done answer
      → answered p d s.ram answer card ≡ done card'
      → card_call p d pci_resource_start pci_resource_end io_remap_pfn_range k s card
        ≡ done (answer, card')
  unfolding card_call
  call_steps s card card' answer asks does = rw (asks, does) refl

  file_call-Kept :
      (node : Node) (op : FileOp) (c : Calls) (ram user_memory : ℕ → ℕ) (card : Card)
      → Allowed p bus_of node op c ram user_memory
      → card.device.control_word % 2 ≡ 0
      → (answer : Answer) × (card' : Card) × (file_call p pci_resource_start pci_resource_end
            io_remap_pfn_range k c node op
          ≡ done answer)
        × (answered p d ram answer card ≡ done card')
        × Kept answer card'
            (expected_count node op)
            (expected node op user_memory card.store)
            (expected_writes node op)
  unfolding file_call xpcie_user_fops xpcie_h2c_fops xpcie_c2h_fops answered Kept
  file_call-Kept h2c (write_file buf count pos) c ram user_memory card g stopped =
      let (w, card', writes, does, kept) =
        granted_write c ram user_memory buf count pos card g stopped in
      (wrote w, card', rw writes refl, does, kept)
  file_call-Kept user open_file c ram user_memory card g stopped =
      (_, card, refl, refl, (refl, stopped, refl, refl, tt))
  file_call-Kept user release_file c ram user_memory card g stopped =
      (_, card, refl, refl, (refl, stopped, refl, refl, tt))
  file_call-Kept user (read_file count) c ram user_memory card g stopped =
      (_, card, refl, refl, (refl, stopped, refl, refl, tt))
  file_call-Kept user (write_file buf count pos) c ram user_memory card g stopped =
      (_, card, refl, refl, (refl, stopped, refl, refl, tt))
  file_call-Kept user (mmap_file vma) c ram user_memory card g stopped =
      (_, card, refl, refl, (refl, stopped, refl, refl, tt))
  file_call-Kept h2c open_file c ram user_memory card g stopped =
      (_, card, refl, refl, (refl, stopped, refl, refl, tt))
  file_call-Kept h2c release_file c ram user_memory card g stopped =
      (_, card, refl, refl, (refl, stopped, refl, refl, tt))
  file_call-Kept h2c (read_file count) c ram user_memory card g stopped =
      (_, card, refl, refl, (refl, stopped, refl, refl, tt))
  file_call-Kept h2c (mmap_file vma) c ram user_memory card g stopped =
      (_, card, refl, refl, (refl, stopped, refl, refl, tt))
  file_call-Kept c2h open_file c ram user_memory card g stopped =
      (_, card, refl, refl, (refl, stopped, refl, refl, tt))
  file_call-Kept c2h release_file c ram user_memory card g stopped =
      (_, card, refl, refl, (refl, stopped, refl, refl, tt))
  file_call-Kept c2h (read_file count) c ram user_memory card g stopped =
      (_, card, refl, refl, (refl, stopped, refl, refl, tt))
  file_call-Kept c2h (write_file buf count pos) c ram user_memory card g stopped =
      (_, card, refl, refl, (refl, stopped, refl, refl, tt))
  file_call-Kept c2h (mmap_file vma) c ram user_memory card g stopped =
      (_, card, refl, refl, (refl, stopped, refl, refl, tt))

  -- A list of calls on the device files, in a state of the driver with all registers mapped, each
  -- write on "h2c" with the kernel granting its requests, on a card with a stopped engine and a
  -- little-endian processor: no call ends in a BUG_ON or a bad access, each returns the count that
  -- is promised, the engine is stopped at the end, and the memory of the card is what storing the
  -- program's bytes at the file positions, one write after the other, makes of it. Each write on
  -- "h2c", and no other call, asks the kernel for the calls of a write.
  pub session-expected_store :
      (calls : List Syscall) (card : Card)
      → AllAllowed p bus_of calls
      → card.device.control_word % 2 ≡ 0
      → (answers : List Answer) × (card' : Card) × (session p d pci_resource_start pci_resource_end
            io_remap_pfn_range k calls card
          ≡ done (answers, card'))
        × (map count_of answers ≡ expected_counts calls)
        × (card'.device.control_word % 2 ≡ 0)
        × (card'.store ≡ expected_store calls card.store)
        × (writes_done answers ≡ writes_in calls)
        × AllSent p answers
  unfolding session Kept
  session-expected_store [] card g stopped = ([], card, refl, refl, stopped, refl, refl, tt)
  session-expected_store (s ∷ calls) card g stopped =
      let (answer, between, asks, does, kept) =
        file_call-Kept s.node s.op s.calls s.ram s.user_memory card g.0 stopped in
      let (answers, end, rest, counts, halted, holds, writes, sent) =
        session-expected_store calls between g.1 kept.1 in
      (
        answer ∷ answers,
        end,
        rw (call_steps s card between answer asks does, rest) refl,
        ap₂ ◌∷◌ kept.0 counts,
        halted,
        holds ∙ ap (expected_store calls) kept.2,
        ap₂ ◌+◌ kept.3 writes,
        (kept.4, sent),
      )
