-- ===== src/Card/Carry.antt =====
-- A write on the card: the bytes of the user's buffer at the end point addresses from the file
-- position on.
use xpcie.Base.{
  Bool, ℕ, zero, suc, ◌+◌, ◌-◌, ◌/◌, ◌%◌, ◌^◌, ◌≤◌, ◌≡◌, ap, ◌∙◌, refl, true, false, ◌&&◌,
  Bool-cases, inl, inr, Option, some, List, [], ◌∷◌, map, get_or, min, ltb, leb, ◌==◌,
  if◌then◌else◌, update, ◌>>=◌, Run, done, oops, arith,
}
use xpcie.Platform.{Platform, u64}
use xpcie.Kernel.{Register, get_page, put_page, flush_page}
use xpcie.Desc.{Desc}
use xpcie.Mapper.Paged.{paged}
use xpcie.Engine.{transfer_start}
use xpcie.Engine.Run.{Device, play, play-append, device_step, transfer_start-little}
use xpcie.Transfer.Bus.{numbered}
use xpcie.Transfer.Walk.{at_bus, walk}
use xpcie.Write.{Written}
use xpcie.Write.Done.{write_events, Sent}
use xpcie.Registers.{register_address}
use xpcie.Driver.{Driver, covers}
use xpcie.Driver.Access.{accessible-Sent}
use xpcie.Card.{Card, carry, carry_runs, card_write}

-- `count` bytes stored from position `pos` on.
abbrev pub stored_at : (pos count : ℕ) (bytes : ℕ → ℕ) → (ℕ → ℕ) → ℕ → ℕ
stored_at pos count bytes store e =
    if leb pos e && ltb e (pos + count) then bytes (e - pos) else store e

-- The first byte, and the others.
stored_at-suc :
    (pos count e : ℕ) (f g : ℕ → ℕ) (store : ℕ → ℕ)
    → ((j : ℕ) → g j ≡ f (suc j))
    → stored_at (suc pos) count g (update store pos (f 0)) e ≡ stored_at pos (suc count) f store e
stored_at-suc pos count e f g store h = elim (Bool-cases (pos == e)) [
  | inl here ↦
      let low : leb (suc pos) e ≡ false = ground arith in
      let in_low : leb pos e ≡ true = ground arith in
      let in_high : ltb e (pos + suc count) ≡ true = ground arith in
      let first : e - pos ≡ 0 = ground arith in rw (here, low, in_low, in_high, first) refl
  | inr other ↦ rw other (elim (Bool-cases (ltb pos e)) [
    | inl behind ↦
        let low : leb (suc pos) e ≡ true = ground arith in
        let in_low : leb pos e ≡ true = ground arith in
        let next : e - pos ≡ suc (e - suc pos) = ground arith in
        let end : pos + suc count ≡ suc pos + count = omega arith in
        rw (low, in_low, next, end, h (e - suc pos)) refl
    | inr before ↦
        let low : leb (suc pos) e ≡ false = ground arith in
        let in_low : leb pos e ≡ false = ground arith in rw (low, in_low) refl
  ])
]

module _ (p : Platform) (bus_of : ℕ × ℕ → ℕ) (ram : ℕ → ℕ) (news : List ℕ) where
  open p use {page_size}

  -- Byte `j` of the buffer, at its page.
  abbrev pub byte_at : (off j : ℕ) → ℕ
  byte_at off j = ram (bus_of (get_or news ((off + j) / page_size) 0, (off + j) % page_size))

  carry-numbered :
      (ep off count e : ℕ) (store : ℕ → ℕ)
      → ep + count ≤ 2 ^ 64
      → carry ram (numbered ep (map bus_of (paged p news off count))) store e
        ≡ stored_at ep count (byte_at off) store e
  unfolding carry numbered paged
  carry-numbered ep off zero e store fits = ground arith
  carry-numbered ep off (suc count) e store fits =
      let small : u64 ep ≡ ep = omega arith in
      let next : (j : ℕ) → suc off + j ≡ off + suc j = λ j. omega arith in
      let here : off ≡ off + 0 = omega arith in
      carry-numbered (suc ep) (suc off) count e _ (omega arith)
      ∙ ap (λ t. stored_at (suc ep) count (byte_at (suc off)) (update store t (byte off)) e) small
      ∙ ap (λ t. stored_at (suc ep) count (byte_at (suc off)) (update store ep (byte t)) e) here
      ∙ stored_at-suc ep count e (byte_at off) (byte_at (suc off)) store (λ j. ap byte (next j))
    where
      byte : ℕ → ℕ
      byte a = ram (bus_of (get_or news (a / page_size) 0, a % page_size))

-- The calls of a write but for those on registers.
play-pages :
    (pages : List ℕ) (d : Device)
    → (play (map get_page pages) d ≡ d)
      × (play (map flush_page pages) d ≡ d)
      × (play (map put_page pages) d ≡ d)
unfolding play device_step
play-pages [] d = (refl, refl, refl)
play-pages (page ∷ pages) d = play-pages pages d

carry_runs-one :
    (p : Platform) (ram : ℕ → ℕ) (fuel : ℕ) (memory : ℕ → Option Desc) (bus adjacent : ℕ)
    (moves : List (ℕ × ℕ)) (store : ℕ → ℕ)
    → walk p true fuel memory bus ≡ some moves
    → carry_runs p ram fuel memory ((bus, adjacent) ∷ []) store ≡ done (carry ram moves store)
unfolding carry_runs
carry_runs-one p ram fuel memory bus adjacent moves store h = rw (carry_runs, h) refl

module _ (p : Platform) (little : (x : ℕ) → p.cpu_to_le32 x ≡ x) where
  play-write_events :
      (d : Device) (news : List ℕ) (nents bus num : ℕ)
      → play (write_events p news nents bus num) d ≡ play (transfer_start p bus num) d
  unfolding write_events play device_step
  play-write_events d news nents bus num =
      let gets = λ (x : Device). (play-pages news x).0 in
      let flushes = λ (x : Device). (play-pages news x).1 in
      let puts = λ (x : Device). (play-pages news x).2 in
      simp (play-append, gets, flushes, puts) refl

  module _ (bus_of : ℕ × ℕ → ℕ) (ram : ℕ → ℕ) (ep count off : ℕ) (news : List ℕ) (w : Written)
      (sent : Sent p bus_of ep count off news w) (fits : ep + count ≤ 2 ^ 64) where
    -- The runs of the engine that a write starts, from a stopped engine.
    play-Sent :
        (d : Device)
        → d.control_word % 2 ≡ 0
        → let out = play w.events (record d { runs = [] }) in
          (out.runs ≡ (w.desc_bus, min (w.desc_num - 1) 15) ∷ []) × (out.control_word ≡ 0)
    play-Sent d stopped =
        let (nents, calls) = sent.calls in
        let events : play w.events (record d { runs = [] })
            ≡ play (transfer_start p w.desc_bus w.desc_num) (record d { runs = [] }) =
          ap (λ es. play es (record d { runs = [] })) calls
          ∙ play-write_events (record d { runs = [] }) news nents w.desc_bus w.desc_num in
        let started =
          transfer_start-little p (record d { runs = [] }) w.desc_bus w.desc_num little sent.address
            stopped in
        (
          ap (λ (x : Device). x.runs) events ∙ started.0,
          ap (λ (x : Device). x.control_word) events ∙ started.1,
        )

    -- A write that is sent, with all registers mapped, on a card with a stopped engine: the card is
    -- stopped again, and holds the bytes of the buffer at the file position and what it held
    -- elsewhere.
    pub card_write-Sent :
        (d : Driver) (card : Card)
        → ((r : Register) → covers d.live (register_address d.bases r) ≡ true)
        → card.device.control_word % 2 ≡ 0
        → (card' : Card) × (card_write p d ram w card ≡ done card')
          × (card'.device.control_word ≡ 0)
          × ((e : ℕ)
              → card'.store e ≡ stored_at ep count (byte_at p bus_of ram news off) card.store e)
    unfolding card_write
    card_write-Sent d card covered stopped =
        let (runs, halted) = play-Sent card.device stopped in
        let memory = at_bus w.desc_bus w.desc_virt in
        let after = play w.events (record card.device { runs = [] }) in
        let writes : Run Card =
          carry_runs p ram w.desc_num memory after.runs card.store >>= λ store.
          done (record { device = after; store = store }) in
        (
          record {
            device = after;
            store = carry ram (numbered ep (map bus_of (paged p news off count))) card.store;
          },
          ap (λ (b : Bool). if b then writes else oops)
                (accessible-Sent p bus_of ep count off news w d sent covered)
              ∙ ap (λ r. r >>= λ store. done (record { device = after; store = store }))
                  (ap (λ rs. carry_runs p ram w.desc_num memory rs card.store) runs
                    ∙ carry_runs-one p ram w.desc_num memory w.desc_bus _ _ card.store
                        sent.transferred),
          halted,
          λ e. carry-numbered p bus_of ram news ep off count e card.store fits,
        )
