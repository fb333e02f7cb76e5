-- ===== src/Tests/Card.antt =====
-- A program that opens "h2c", writes 10000 bytes of its memory at 0x8000, reads, writes 100 bytes
-- over the middle of them, writes on "user", and closes. Its memory from address a on is in the
-- pages from a / 4096 + 1 on, at the bus addresses of their numbers.
use xpcie.Base.{
  ℕ, zero, suc, ◌+◌, ◌-◌, ◌*◌, ◌/◌, ◌%◌, ◌^◌, ◌≤◌, ◌<◌, ◌≡◌, ap, ◌∙◌, refl, true, false, List, [],
  ◌∷◌, map, get_or, done, bug, arith,
}
use xpcie.Platform.{u64}
use xpcie.Files.{Node, FileOp, user, h2c, open_file, read_file, write_file, release_file, Answer}
use xpcie.Card.{Card, Syscall, session}
use xpcie.Card.Carry.{byte_at}
use xpcie.Card.Promise.{IsGranted, count_of, expected_store}
use xpcie.Card.System.{probe_driver-session}
use xpcie.Card.Held.{with_coherent, asked, probe_driver-Held}
use xpcie.Kernel.Held.{Held, hold_all}
use xpcie.Desc.{desc_size}
use xpcie.Card.Fault.{few_pages, h2c_write, probe_driver-Refused}
use xpcie.Kernel.{pinned}
use xpcie.Mapper.{stored}
use xpcie.Write.{Calls}
use xpcie.Bars.Probe.{base}
use xpcie.Driver.{Driver, Reach, probe_driver}
use xpcie.Tests.Driver.{two_bars, removed, removed-Reach, removed-unbound}
use xpcie.Tests.World.{
  machine, scatter, bus_of, calls, pages_from, pci_map_sg-MapsBytes, pci_alloc_consistent-Allocates,
}

abbrev byte_of : ℕ → ℕ
byte_of a = a % 251

abbrev ram : ℕ → ℕ
ram a = byte_of (a - 4096)

get_or-pages_from : (first n i : ℕ) → i < n → get_or (pages_from first n) i 0 ≡ suc (first + i)
get_or-pages_from first zero i h = absurd (omega arith)
get_or-pages_from first (suc n) zero h = omega arith
get_or-pages_from first (suc n) (suc i) h =
    omega (arith, get_or-pages_from (suc first) n i (omega arith))

-- Byte `j` behind offset `off` of page `first`.
byte_at-pages_from :
    (first n off j : ℕ)
    → (off + j) / 4096 < n
    → first + n < 2 ^ 40
    → byte_at machine bus_of ram (pages_from first n) off j ≡ byte_of (first * 4096 + off + j)
byte_at-pages_from first n off j h small =
    let page = get_or-pages_from first n ((off + j) / 4096) h in
    let place : u64 (suc (first + (off + j) / 4096) * 4096 + (off + j) % 4096) - 4096
        ≡ first * 4096 + off + j =
      omega arith in
    ap (λ q. byte_of (u64 (q * 4096 + (off + j) % 4096) - 4096)) page ∙ ap byte_of place

abbrev syscall_on : Node → FileOp → Syscall
syscall_on node op = record {
  node = node;
  op = op;
  calls = calls;
  ram = ram;
  user_memory = byte_of;
}

abbrev program : List Syscall
program =
    syscall_on h2c open_file
    ∷ syscall_on h2c (write_file 4090 10000 0x8000)
    ∷ syscall_on h2c (read_file 8)
    ∷ syscall_on h2c (write_file 100 100 0x9000)
    ∷ syscall_on user (write_file 100 100 0x9000)
    ∷ syscall_on h2c release_file
    ∷ []

abbrev blank : Card
blank = record {
  device = record { control_word = 0; desc_lo = 0; desc_hi = 0; desc_adjacent = 0; runs = [] };
  store = λ e. 0;
}

IsGranted-4090 : IsGranted machine bus_of calls ram byte_of 4090 10000 0x8000
IsGranted-4090 = record {
  some_byte = omega arith;
  small = omega arith;
  in_memory = omega arith;
  on_card = omega arith;
  memory = (refl, refl, refl);
  news = pages_from 0 4;
  pins = refl;
  all_pages = refl;
  maps = pci_map_sg-MapsBytes;
  allocates = pci_alloc_consistent-Allocates;
  contents = λ j h. byte_at-pages_from 0 4 4090 j (omega arith) (omega arith);
}

IsGranted-100 : IsGranted machine bus_of calls ram byte_of 100 100 0x9000
IsGranted-100 = record {
  some_byte = omega arith;
  small = omega arith;
  in_memory = omega arith;
  on_card = omega arith;
  memory = (refl, refl, refl);
  news = pages_from 0 1;
  pins = refl;
  all_pages = refl;
  maps = pci_map_sg-MapsBytes;
  allocates = pci_alloc_consistent-Allocates;
  contents = λ j h. byte_at-pages_from 0 1 100 j (omega arith) (omega arith);
}

-- The device was probed and removed, and is probed again.
probe_driver-session_example :
    (d' : Driver) × (answers : List Answer) × (card' : Card) × (probe_driver two_bars removed
      ≡ done d')
    × Reach d'
    × (d'.bound ≡ true)
    × (session machine d'
          (λ bar. 0xf000_0000)
          (λ bar. 0xf000_ffff)
          (λ call. false)
          scatter
          program
          blank
        ≡ done (answers, card'))
    × (map count_of answers ≡ 0 ∷ 10000 ∷ 8 ∷ 100 ∷ 0 ∷ 0 ∷ [])
    × (card'.device.control_word % 2 ≡ 0)
    × (card'.store ≡ expected_store program (λ e. 0))
unfolding base
probe_driver-session_example =
    probe_driver-session machine bus_of (λ bar. 0xf000_0000) (λ bar. 0xf000_ffff) (λ call. false)
      scatter two_bars program blank (λ x. refl) removed-Reach removed-unbound refl refl
      (omega arith) (omega arith) (tt, (IsGranted-4090, (tt, (IsGranted-100, (tt, (tt, tt)))))) refl

-- The end point addresses 0x8000, 0x9000 and 0xb000 after it.
stored_bytes :
    map (expected_store program (λ e. 0)) (0x8000 ∷ 0x9000 ∷ 0xb000 ∷ []) ≡ 74 ∷ 100 ∷ 0 ∷ []
stored_bytes = refl

-- A program that writes 10000 bytes, and then as many of which only the first page is there.
abbrev one_page : Calls
one_page = record calls { get_user_pages_fast = λ start nr write. pinned (7 ∷ []) }

probe_driver-Refused_example :
    (d' : Driver) × (probe_driver two_bars removed ≡ done d')
    × (session machine d'
          (λ bar. 0xf000_0000)
          (λ bar. 0xf000_ffff)
          (λ call. false)
          scatter
          (syscall_on h2c open_file
            ∷ syscall_on h2c (write_file 4090 10000 0x8000)
            ∷ h2c_write one_page ram byte_of 4090 10000 0x8000
            ∷ syscall_on h2c release_file
            ∷ [])
          blank
        ≡ bug)
unfolding base stored
probe_driver-Refused_example =
    probe_driver-Refused machine bus_of (λ bar. 0xf000_0000) (λ bar. 0xf000_ffff) (λ call. false)
      scatter two_bars
      (syscall_on h2c open_file ∷ syscall_on h2c (write_file 4090 10000 0x8000) ∷ [])
      (syscall_on h2c release_file ∷ []) blank one_page ram byte_of 4090 10000 0x8000 true
      (λ x. refl) removed-Reach removed-unbound refl refl (omega arith) (omega arith)
      (tt, (IsGranted-4090, tt)) refl
      (few_pages (pinned (7 ∷ []))
        (record {
          some_byte = omega arith;
          small = omega arith;
          in_memory = omega arith;
          memory = (refl, refl, refl);
        })
        refl (omega arith))

-- Nothing is held before the first program.
abbrev nothing_held : Held
nothing_held = record { pins = λ q. 0; entries = 0; coherent = 0; running = false }

probe_driver-Held_example :
    (d' : Driver) × (answers : List Answer) × (card' : Card) × (more : ℕ) × (probe_driver two_bars
        removed
      ≡ done d')
    × (session machine d'
          (λ bar. 0xf000_0000)
          (λ bar. 0xf000_ffff)
          (λ call. false)
          scatter
          program
          blank
        ≡ done (answers, card'))
    × (hold_all (asked answers) nothing_held ≡ done (with_coherent more nothing_held))
    × (desc_size * 2 ≤ more)
unfolding base
probe_driver-Held_example =
    probe_driver-Held machine bus_of (λ bar. 0xf000_0000) (λ bar. 0xf000_ffff) (λ call. false)
      scatter two_bars program blank nothing_held (λ x. refl) removed-Reach removed-unbound refl
      refl (omega arith) (omega arith) (tt, (IsGranted-4090, (tt, (IsGranted-100, (tt, (tt, tt))))))
      refl refl
