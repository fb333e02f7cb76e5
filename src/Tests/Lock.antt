-- ===== src/Tests/Lock.antt =====
-- A read-write lock and two threads: thread 0 increments, thread 1 waits to read and then reads.
use xpcie.Base.{
  update, ℕ, ◌+◌, ◌-◌, ◌^◌, ◌%◌, ◌<◌, ◌≡◌, refl, Bool, true, false, Bool-cases, inl, inr, Option,
  none, some, List, [], ◌∷◌, ◌==◌, if◌then◌else◌, arith,
}
use xpcie.Lock.{
  RwLock, Numeric, get, increase, idle, want, inside, raising, leaving, System, rw_lock_delete,
  constructed, call, write_lock, read_lock, load_up, store_up, load, release, Reach, start, later,
}
use xpcie.Lock.Sequential.{replay, IsSequential, history-IsSequential}
use xpcie.Lock.Progress.{Finish, Reach-Finish}

data Holders : Type 0 where
  shared : List ℕ → Holders
  exclusive : ℕ → Holders

abbrev mem : ℕ → List ℕ → Bool
mem j [] = false
mem j (x ∷ xs) = if x == j then true else mem j xs

abbrev without : ℕ → List ℕ → List ℕ
without i [] = []
without i (x ∷ xs) = if i == x then without i xs else x ∷ without i xs

abbrev reads : Holders → ℕ → Bool
reads (shared xs) j = mem j xs
reads (exclusive i) j = false

abbrev writes : Holders → ℕ → Bool
writes (shared xs) j = false
writes (exclusive i) j = i == j

abbrev lock_shared : ℕ → Holders → Option Holders
lock_shared i (shared xs) = some (shared (i ∷ xs))
lock_shared i (exclusive k) = none

abbrev lock_exclusive : ℕ → Holders → Option Holders
lock_exclusive i (shared []) = some (exclusive i)
lock_exclusive i (shared (x ∷ xs)) = none
lock_exclusive i (exclusive k) = none

abbrev unlock_any : ℕ → Holders → Holders
unlock_any i (shared xs) = shared (without i xs)
unlock_any i (exclusive k) = if i == k then shared [] else exclusive k

mem-without : (i j : ℕ) (xs : List ℕ) → mem j (without i xs) ≡ (if i == j then false else mem j xs)
mem-without i j [] = elim (Bool-cases (i == j)) [ inl h ↦ rw h refl | inr h ↦ rw h refl ]
mem-without i j (x ∷ xs) = ground (arith, mem-without i j xs)

lock_shared_lem :
    (i j : ℕ) (s s' : Holders)
    → lock_shared i s ≡ some s'
    → (writes s j ≡ false)
      × (writes s' j ≡ false)
      × (reads s' j ≡ (if i == j then true else reads s j))
lock_shared_lem i j (shared xs) (shared ys) h = (refl, refl, cc)
lock_shared_lem i j (shared xs) (exclusive k) h = cc
lock_shared_lem i j (exclusive k) s' h = cc

lock_exclusive_lem :
    (i j : ℕ) (s s' : Holders)
    → lock_exclusive i s ≡ some s'
    → (writes s j ≡ false) × (reads s j ≡ false) × (writes s' j ≡ (i == j)) × (reads s' j ≡ false)
lock_exclusive_lem i j (shared []) (shared ys) h = cc
lock_exclusive_lem i j (shared []) (exclusive k) h = (refl, refl, cc, refl)
lock_exclusive_lem i j (shared (x ∷ xs)) s' h = cc
lock_exclusive_lem i j (exclusive k) s' h = cc

unlock_any_lem :
    (i j : ℕ) (s : Holders)
    → (reads (unlock_any i s) j ≡ (if i == j then false else reads s j))
      × (writes (unlock_any i s) j ≡ (if i == j then false else writes s j))
unlock_any_lem i j (shared xs) = (mem-without i j xs, ground arith)
unlock_any_lem i j (exclusive k) = (ground arith, ground arith)

abbrev destroyed : Holders → Option Holders
destroyed (shared []) = some (shared [])
destroyed s = none

destroyed-free :
    (s : Holders)
    → ((j : ℕ) → (reads s j ≡ false) × (writes s j ≡ false))
    → (s' : Holders) × (destroyed s ≡ some s')
destroyed-free (shared []) free = (_, refl)
destroyed-free (shared (x ∷ xs)) free = absurd (ground (arith, (free x).0))
destroyed-free (exclusive k) free = absurd (ground (arith, (free k).1))

free_holders :
    (i : ℕ) (s : Holders)
    → ((j : ℕ) → (reads s j ≡ false) × (writes s j ≡ false))
    → ((s' : Holders) × (lock_shared i s ≡ some s'))
      × ((s' : Holders) × (lock_exclusive i s ≡ some s'))
free_holders i (shared []) free = ((_, refl), (_, refl))
free_holders i (shared (x ∷ xs)) free = absurd (ground (arith, (free x).0))
free_holders i (exclusive k) free = absurd (ground (arith, (free k).1))

abbrev rw_lock : RwLock
rw_lock = record {
  State = Holders;
  init = shared [];
  rdlock = lock_shared;
  wrlock = lock_exclusive;
  unlock = unlock_any;
  destroy = destroyed;
  reading = reads;
  writing = writes;
  init_lem = λ i. (refl, refl);
  rdlock_lem = lock_shared_lem;
  wrlock_lem = lock_exclusive_lem;
  unlock_lem = unlock_any_lem;
  free_lem = free_holders;
  destroy_lem = destroyed-free;
}

-- `unsigned int`
abbrev unsigned : Numeric
unsigned = record {
  Value = ℕ;
  null = 0;
  succ = λ n. (n + 1) % 2 ^ 32;
  pred = λ n. (n + (2 ^ 32 - 1)) % 2 ^ 32;
}

-- Both call, and thread 0 gets the lock and loads the value.
abbrev one_called : System rw_lock unsigned
one_called = record (constructed rw_lock unsigned) { pc = update (λ j. idle) 0 (want increase) }

abbrev called : System rw_lock unsigned
called = record one_called { pc = update one_called.pc 1 (want get) }

abbrev locked : System rw_lock unsigned
locked = record called { lock = exclusive 0; pc = update called.pc 0 (inside increase) }

abbrev raised : System rw_lock unsigned
raised = record locked { pc = update locked.pc 0 (raising 0) }

-- Thread 0 stores and returns, then thread 1 reads.
abbrev stored : System rw_lock unsigned
stored = record raised {
  value = 1;
  pc = update raised.pc 0 (leaving increase (some 1));
  history = (increase, some 1) ∷ [];
}

abbrev left : System rw_lock unsigned
left = record stored { lock = shared []; pc = update stored.pc 0 idle }

abbrev shared_lock : System rw_lock unsigned
shared_lock = record left { lock = shared (1 ∷ []); pc = update left.pc 1 (inside get) }

abbrev counted : System rw_lock unsigned
counted = record shared_lock {
  pc = update shared_lock.pc 1 (leaving get (some 1));
  history = (get, some 1) ∷ (increase, some 1) ∷ [];
}

raised-Reach : Reach rw_lock unsigned 2 raised
raised-Reach =
    later 0
      (later 0
        (later 1 (later 0 start (omega arith) (call increase refl)) (omega arith) (call get refl))
        (omega arith) (write_lock increase (exclusive 0) refl refl refl))
      (omega arith) (load_up refl)

counted-Reach : Reach rw_lock unsigned 2 counted
counted-Reach =
    later 1
      (later 1
        (later 0 (later 0 raised-Reach (omega arith) (store_up 0 refl)) (omega arith)
          (release increase (some 1) refl))
        (omega arith) (read_lock get (shared (1 ∷ [])) refl refl refl))
      (omega arith) (load refl)

history-IsSequential_example :
    (counted.value ≡ replay unsigned counted.history) × IsSequential unsigned counted.history
history-IsSequential_example = history-IsSequential rw_lock unsigned counted-Reach

Reach-Finish_example :
    (s' : System rw_lock unsigned) × Finish rw_lock unsigned 2 raised s'
    × ((j : ℕ) → j < 2 → s'.pc j ≡ idle)
    × ((l : Holders) × (rw_lock_delete rw_lock s'.lock ≡ some l))
Reach-Finish_example = Reach-Finish rw_lock unsigned raised-Reach
