-- ===== src/Card/Promise.antt =====
-- What a program's calls on the device files promise: what each returns and makes of the memory of
-- the card, and what a write asks of the kernel, if the kernel grants it.
use xpcie.Base.{ℕ, ◌+◌, ◌%◌, ◌^◌, ◌≤◌, ◌<◌, ◌≡◌, true, false, List, [], ◌∷◌, length}
use xpcie.Platform.{Platform}
use xpcie.Kernel.{pinned}
use xpcie.Mapper.Pages.{span_pages}
use xpcie.Transfer.Bus.{MapsBytes, Allocates}
use xpcie.Write.{Calls}
use xpcie.Write.Done.{write_events}
use xpcie.Files.{Node, h2c, FileOp, read_file, write_file, Answer, returned, wrote}
use xpcie.Card.{Syscall}
use xpcie.Card.Carry.{stored_at, byte_at}

-- What a call promises: the memory of the card after it, and the number that it returns.
abbrev pub expected : Node → FileOp → (user_memory : ℕ → ℕ) → (ℕ → ℕ) → ℕ → ℕ
expected h2c (write_file buf count pos) user_memory store =
    stored_at pos count (λ j. user_memory (buf + j)) store
expected node op user_memory store = store

abbrev pub expected_count : Node → FileOp → ℕ
expected_count h2c (write_file buf count pos) = count
expected_count h2c (read_file count) = count
expected_count node op = 0

abbrev pub expected_writes : Node → FileOp → ℕ
expected_writes h2c (write_file buf count pos) = 1
expected_writes node op = 0

abbrev pub count_of : Answer → ℕ
count_of (returned n) = n
count_of (wrote w) = w.count
count_of answer = 0

-- Whether the driver wrote to the card, and then what it asked of the kernel: the calls of a write of
-- some pages, with a descriptor at least.
abbrev pub writes_of : Answer → ℕ
writes_of (wrote w) = 1
writes_of answer = 0

abbrev pub IsSent : Platform → Answer → Type 0
IsSent p (wrote w) =
    (news : List ℕ) × (nents : ℕ) × (bus : ℕ) × (num : ℕ) × (0 < nents)
    × (w.events ≡ write_events p news nents bus num)
IsSent p answer = Unit

abbrev pub AllSent : Platform → List Answer → Type 0
AllSent p [] = Unit
AllSent p (answer ∷ answers) = IsSent p answer × AllSent p answers

module _ (p : Platform) (bus_of : ℕ × ℕ → ℕ) where
  -- A write of 1 to 2^31 - 1 bytes that stays within the address spaces, to which the kernel grants
  -- each request, and the pages that it pins hold the program's bytes.
  pub record IsGranted (c : Calls) (ram user_memory : ℕ → ℕ) (buf count pos : ℕ) : Type 0 where
    pub some_byte : 0 < count
    pub small : count < 2 ^ 31
    pub in_memory : buf + count ≤ 2 ^ 64
    pub on_card : pos + count ≤ 2 ^ 64
    pub memory :
        (c.memory.has_mapper ≡ true) × (c.memory.has_pages ≡ true) × (c.memory.has_sgl ≡ true)
    pub news : List ℕ
    pub pins :
        c.get_user_pages_fast buf (span_pages p (buf % p.page_size) count) false ≡ pinned news
    pub all_pages : length news ≡ span_pages p (buf % p.page_size) count
    pub maps : MapsBytes c.pci_map_sg bus_of
    pub allocates : Allocates c.pci_alloc_consistent
    pub contents :
        (j : ℕ)
        → j < count
        → byte_at p bus_of ram news (buf % p.page_size) j ≡ user_memory (buf + j)

  -- Of the calls only writes on "h2c" ask for something.
  abbrev pub Allowed : Node → FileOp → Calls → (ram user_memory : ℕ → ℕ) → Type 0
  Allowed h2c (write_file buf count pos) c ram user_memory =
      IsGranted c ram user_memory buf count pos
  Allowed node op c ram user_memory = Unit

  abbrev pub AllAllowed : List Syscall → Type 0
  AllAllowed [] = Unit
  AllAllowed (s ∷ calls) = Allowed s.node s.op s.calls s.ram s.user_memory × AllAllowed calls

-- The memory of the card that a list of calls promises.
abbrev pub expected_store : List Syscall → (ℕ → ℕ) → ℕ → ℕ
expected_store [] store = store
expected_store (s ∷ calls) store = expected_store calls (expected s.node s.op s.user_memory store)

abbrev pub expected_counts : List Syscall → List ℕ
expected_counts [] = []
expected_counts (s ∷ calls) = expected_count s.node s.op ∷ expected_counts calls

-- How many of the calls are writes on "h2c", and of the answers.
abbrev pub writes_in : List Syscall → ℕ
writes_in [] = 0
writes_in (s ∷ calls) = expected_writes s.node s.op + writes_in calls

abbrev pub writes_done : List Answer → ℕ
writes_done [] = 0
writes_done (answer ∷ answers) = writes_of answer + writes_done answers
