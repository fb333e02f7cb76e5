-- ===== src/Card/Fault.antt =====
-- A program's calls on the device files up to a write on "h2c" that the kernel refuses a request:
-- xpcie_h2c_write does not look at the answers, so the program stops the kernel.
use xpcie.Base.{
  ℕ, suc, ◌+◌, ◌*◌, ◌%◌, ◌^◌, ◌≤◌, ◌<◌, ◌≡◌, ap, ◌∙◌, refl, Bool, true, false, ◌&&◌, ◌⊎◌, none,
  List, [], ◌∷◌, ◌++◌, length, min, ◌==◌, Run, done, bug, oops, ◌>>=◌, >>=-eq-done,
}
use xpcie.Platform.{Platform}
use xpcie.Kernel.{Scatter, Sg, Pinned, pinned}
use xpcie.Mmap.{Remap}
use xpcie.Desc.{desc_size}
use xpcie.Mapper.{stored}
use xpcie.Mapper.Pages.{span_pages}
use xpcie.Write.{Calls, xpcie_h2c_write}
use xpcie.Write.Fault.{xpcie_h2c_write-null, xpcie_h2c_write-partial, xpcie_h2c_write-refused}
use xpcie.Files.{h2c, write_file, file_call, xpcie_h2c_fops, Answer}
use xpcie.Bars.{Pci, int_max}
use xpcie.Bars.Probe.{base}
use xpcie.Driver.{Driver, Reach, probe_driver}
use xpcie.Driver.Access.{probe-covers}
use xpcie.Card.{Card, Syscall, card_call, session}
use xpcie.Card.Promise.{AllAllowed}
use xpcie.Card.Session.{session-expected_store}

-- A BUG_ON, or an access through NULL.
abbrev pub fatal {ℓ} : {A : Type ℓ} → (in_bug_on : Bool) → Run A
fatal true = bug
fatal false = oops

module _ (p : Platform) (c : Calls) (buf count : ℕ) where
  -- A buffer of good length, and memory for the mapper.
  pub record IsMappable : Type 0 where
    pub some_byte : 0 < count
    pub small : count < 2 ^ 31
    pub in_memory : buf + count ≤ 2 ^ 64
    pub memory :
        (c.memory.has_mapper ≡ true) × (c.memory.has_pages ≡ true) × (c.memory.has_sgl ≡ true)

  -- What the kernel can refuse: the mapper of a write, some of the pages, or the memory for
  -- the descriptors, `pci_map_sg` failing or not; and whether a BUG_ON finds it.
  pub data Refused : (in_bug_on : Bool) → Type 0 where
    no_mapper :
        (count ≡ 0) ⊎ ((c.memory.has_mapper && c.memory.has_pages && c.memory.has_sgl) ≡ false)
        → Refused false
    few_pages :
        (got : Pinned)
        → IsMappable
        → c.get_user_pages_fast buf (span_pages p (buf % p.page_size) count) false ≡ got
        → length (stored got) < span_pages p (buf % p.page_size) count
        → Refused true
    no_descriptors :
        {unmappable : Bool} (news : List ℕ)
        → IsMappable
        → c.get_user_pages_fast buf (span_pages p (buf % p.page_size) count) false ≡ pinned news
        → length news ≡ span_pages p (buf % p.page_size) count
        → ((n : ℕ) → c.pci_alloc_consistent (suc n * desc_size) ≡ none)
        → ((sgl : List Sg) (n : ℕ) → 0 < n → ((c.pci_map_sg sgl n).1 == 0) ≡ unmappable)
        → Refused unmappable

write-fatal :
    (p : Platform) (k : Scatter) (c : Calls) (buf count pos : ℕ) (in_bug_on : Bool)
    → Refused p c buf count in_bug_on
    → xpcie_h2c_write p k c buf count pos ≡ fatal in_bug_on
write-fatal p k c buf count pos in_bug_on (no_mapper h) = xpcie_h2c_write-null p k c buf count pos h
write-fatal p k c buf count pos in_bug_on (few_pages got m asks few) =
    xpcie_h2c_write-partial p k c buf count pos m.some_byte m.small m.in_memory m.memory got asks
      few
write-fatal p k c buf count pos true (no_descriptors news m asks all refuses maps) =
    xpcie_h2c_write-refused p k c buf count pos m.some_byte m.small m.in_memory m.memory news true
      asks all refuses maps
write-fatal p k c buf count pos false (no_descriptors news m asks all refuses maps) =
    xpcie_h2c_write-refused p k c buf count pos m.some_byte m.small m.in_memory m.memory news false
      asks all refuses maps

-- What follows is not reached.
fatal->>= {ℓ κ} :
    {A : Type ℓ} {B : Type κ} (in_bug_on : Bool) (f : A → Run B)
    → (fatal in_bug_on >>= f) ≡ fatal in_bug_on
fatal->>= true f = refl
fatal->>= false f = refl

-- A program's write on "h2c".
abbrev pub h2c_write : Calls → (ram user_memory : ℕ → ℕ) → (buf count pos : ℕ) → Syscall
h2c_write c ram user_memory buf count pos = record {
  node = h2c;
  op = write_file buf count pos;
  calls = c;
  ram = ram;
  user_memory = user_memory;
}

-- The card at the end, if there is one.
abbrev final : Card → Run (List Answer × Card) → Card
final card (done out) = out.1
final card bug = card
final card oops = card

-- The other calls behind the first.
abbrev others : (Card → Run (List Answer × Card)) → Answer × Card → Run (List Answer × Card)
others f (answer, between) = do (rest, end) ← f between; done (answer ∷ rest, end)

-- The first call of some, when calls that follow them end the program.
first_call :
    (m : Run (Answer × Card)) (f g : Card → Run (List Answer × Card)) (answers : List Answer)
    (card' : Card) (in_bug_on : Bool)
    → (m >>= others f) ≡ done (answers, card')
    → ((between end : Card) (rest : List Answer)
        → f between ≡ done (rest, end)
        → end ≡ card'
        → g between ≡ fatal in_bug_on)
    → (m >>= others g) ≡ fatal in_bug_on
first_call (done (answer, between)) f g answers card' in_bug_on does next =
    let (out, goes, ends) =
      >>=-eq-done (f between) (λ (out : List Answer × Card). done (answer ∷ out.0, out.1)) does in
    ap (λ (r : Run (List Answer × Card)). r >>= λ out. done (answer ∷ out.0, out.1))
      (next between out.1 out.0 goes (ap (final card') ends))
    ∙ fatal->>= in_bug_on _
first_call bug f g answers card' in_bug_on does next = cc
first_call oops f g answers card' in_bug_on does next = cc

module _ (p : Platform) (d : Driver) (pci_resource_start pci_resource_end : ℕ → ℕ)
    (io_remap_pfn_range : Remap → Bool) (k : Scatter) where
  -- Calls, and calls after them that end the program.
  session-append :
      (calls more : List Syscall) (card card' : Card) (answers : List Answer) (in_bug_on : Bool)
      → session p d pci_resource_start pci_resource_end io_remap_pfn_range k calls card
        ≡ done (answers, card')
      → session p d pci_resource_start pci_resource_end io_remap_pfn_range k more card'
        ≡ fatal in_bug_on
      → session p d pci_resource_start pci_resource_end io_remap_pfn_range k (calls ++ more) card
        ≡ fatal in_bug_on
  unfolding session
  session-append [] more card card' answers in_bug_on does fails =
      ap (session p d pci_resource_start pci_resource_end io_remap_pfn_range k more)
        (ap (final card') does)
      ∙ fails
  session-append (s ∷ calls) more card card' answers in_bug_on does fails =
      first_call (card_call p d pci_resource_start pci_resource_end io_remap_pfn_range k s card)
        (session p d pci_resource_start pci_resource_end io_remap_pfn_range k calls)
        (session p d pci_resource_start pci_resource_end io_remap_pfn_range k (calls ++ more))
        answers card' in_bug_on does
        (λ between end rest goes last. session-append calls more between end rest in_bug_on goes (
          ap (session p d pci_resource_start pci_resource_end io_remap_pfn_range k more) last
          ∙ fails))

  session-Refused :
      (c : Calls) (ram user_memory : ℕ → ℕ) (rest : List Syscall) (card : Card) (buf count pos : ℕ)
      (in_bug_on : Bool)
      → Refused p c buf count in_bug_on
      → session p d pci_resource_start pci_resource_end io_remap_pfn_range k
          (h2c_write c ram user_memory buf count pos ∷ rest)
          card
        ≡ fatal in_bug_on
  unfolding session card_call file_call xpcie_h2c_fops
  session-Refused c ram user_memory rest card buf count pos true refused =
      rw (write-fatal p k c buf count pos true refused) refl
  session-Refused c ram user_memory rest card buf count pos false refused =
      rw (write-fatal p k c buf count pos false refused) refl

-- From every state without a bound device that probes and removes reach, after a probe that
-- succeeds and maps BAR 1, with at least the bytes up to the last register, if the processor is
-- little-endian and the engine of the card is stopped: a list of calls on the device files, each
-- write on "h2c" with the kernel granting its requests, and then a write on "h2c" that gets no
-- mapper, not all of its pages or no memory for its descriptors, ends in an access through NULL or
-- a BUG_ON of that write, whatever calls follow. It is the access through NULL when there is no
-- mapper, since no byte is written or an allocation fails, and when there are no descriptors, but
-- for a `pci_map_sg` that fails too; else it is the BUG_ON.
pub probe_driver-Refused :
    (p : Platform) (bus_of : ℕ × ℕ → ℕ) (pci_resource_start pci_resource_end : ℕ → ℕ)
    (io_remap_pfn_range : Remap → Bool) (k : Scatter) (pci : Pci) {d : Driver}
    (calls rest : List Syscall) (card : Card) (c : Calls) (ram user_memory : ℕ → ℕ)
    (buf count pos : ℕ) (in_bug_on : Bool)
    → ((x : ℕ) → p.cpu_to_le32 x ≡ x)
    → Reach d
    → d.bound ≡ false
    → (pci.pci_enable_device == 0) ≡ true
    → (pci.pci_request_regions == 0) ≡ true
    → 0 < base pci 1
    → 0x408c ≤ min (pci.pci_resource_len 1) int_max
    → AllAllowed p bus_of calls
    → card.device.control_word % 2 ≡ 0
    → Refused p c buf count in_bug_on
    → (d' : Driver) × (probe_driver pci d ≡ done d')
      × (session p d' pci_resource_start pci_resource_end io_remap_pfn_range k
            (calls ++ h2c_write c ram user_memory buf count pos ∷ rest)
            card
          ≡ fatal in_bug_on)
probe_driver-Refused p bus_of pci_resource_start pci_resource_end io_remap_pfn_range k pci calls
      rest card c ram user_memory buf count pos in_bug_on little reach unbound enabled granted there
      long allowed stopped refused =
    let (d', probed, _, _, covered) = probe-covers pci reach unbound enabled granted there long in
    let (answers, card', does, _, _, _, _, _) =
      session-expected_store p little bus_of d' covered pci_resource_start pci_resource_end
        io_remap_pfn_range k calls card allowed stopped in
    (
      d',
      probed,
      session-append p d' pci_resource_start pci_resource_end io_remap_pfn_range k calls _ card
          card' answers in_bug_on does
          (session-Refused p d' pci_resource_start pci_resource_end io_remap_pfn_range k c ram
            user_memory rest card' buf count pos in_bug_on refused),
    )
