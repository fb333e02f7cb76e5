-- ===== src/Lock.antt =====
-- `LockedValue` of app/Lock.h, a value behind the read-write lock `RWLock` of app/Lock.cpp, and the
-- threads that call its operations. The lock of pthread.h is a parameter with its documented laws; a
-- call of it that would wait is a step that cannot be taken. The error numbers of the pthread calls,
-- which the source does not look at, are not modelled: the calls do not fail.
pub mod Sides
pub mod Invariant
pub mod Sequential
pub mod Steps
pub mod Progress
use xpcie.Base.{
  ℕ, ◌<◌, ◌≡◌, Bool, true, false, Option, none, some, List, [], ◌∷◌, ◌==◌, if◌then◌else◌, update,
}

-- `pthread_rwlock_t`, for threads with numbers: the three calls (`none` where the caller waits), and
-- who holds the lock for reading and for writing.
pub record RwLock : Type 1 where
  pub State : Type 0
  pub init : State
  pub rdlock : ℕ → State → Option State
  pub wrlock : ℕ → State → Option State
  pub unlock : ℕ → State → State
  -- `none` where the lock must not be destroyed
  pub destroy : State → Option State
  pub reading : State → ℕ → Bool
  pub writing : State → ℕ → Bool
  pub init_lem : (i : ℕ) → (reading init i ≡ false) × (writing init i ≡ false)
  -- A reader waits for the writer, a writer for everybody.
  pub rdlock_lem :
      (i j : ℕ) (s s' : State)
      → rdlock i s ≡ some s'
      → (writing s j ≡ false)
        × (writing s' j ≡ false)
        × (reading s' j ≡ (if i == j then true else reading s j))
  pub wrlock_lem :
      (i j : ℕ) (s s' : State)
      → wrlock i s ≡ some s'
      → (writing s j ≡ false)
        × (reading s j ≡ false)
        × (writing s' j ≡ (i == j))
        × (reading s' j ≡ false)
  pub unlock_lem :
      (i j : ℕ) (s : State)
      → (reading (unlock i s) j ≡ (if i == j then false else reading s j))
        × (writing (unlock i s) j ≡ (if i == j then false else writing s j))
  -- Who asks for a lock that nobody holds gets it.
  pub free_lem :
      (i : ℕ) (s : State)
      → ((j : ℕ) → (reading s j ≡ false) × (writing s j ≡ false))
      → ((s' : State) × (rdlock i s ≡ some s')) × ((s' : State) × (wrlock i s ≡ some s'))
  -- A lock that nobody holds can be destroyed.
  pub destroy_lem :
      (s : State)
      → ((j : ℕ) → (reading s j ≡ false) × (writing s j ≡ false))
      → (s' : State) × (destroy s ≡ some s')

-- The values of `Type`, with `++` and `--`.
pub record Numeric : Type 1 where
  pub Value : Type 0
  pub null : Value
  pub succ : Value → Value
  pub pred : Value → Value

module _ (t : Numeric) where
  open t use {Value, succ, pred}

  -- The operations of `LockedValue`.
  pub data Op : Type 0 where
    set : Value → Op
    get increase decrease : Op

  -- Where a thread stands: outside, before the call of `ReadLock` or `WriteLock`, behind it, between
  -- the load and the store of `++_value` and `--_value`, and before `UnLock`, with the result.
  pub data Pc : Type 0 where
    idle : Pc
    want inside : Op → Pc
    raising lowering : Value → Pc
    leaving : Op → Option Value → Pc

  -- Whether an operation calls `WriteLock`.
  abbrev pub is_write : Op → Bool
  is_write get = false
  is_write op = true

module _ (r : RwLock) where
  open r use {State, init, rdlock, wrlock, unlock, destroy}

  -- `RWLock::RWLock`, `ReadLock`, `WriteLock` and `UnLock`. The result of the last three is 0
  -- whatever pthread.h answers, and it is left out.
  abbrev pub rw_lock_new : State
  rw_lock_new = init

  abbrev pub rw_read_lock : ℕ → State → Option State
  rw_read_lock i s = rdlock i s

  abbrev pub rw_write_lock : ℕ → State → Option State
  rw_write_lock i s = wrlock i s

  abbrev pub rw_unlock : ℕ → State → State
  rw_unlock i s = unlock i s

  -- `RWLock::~RWLock`, which the destructor of a `LockedValue` calls
  abbrev pub rw_lock_delete : State → Option State
  rw_lock_delete s = destroy s

module _ (r : RwLock) (t : Numeric) where
  open r use {State}
  open t use {Value, null, succ, pred}

  -- The lock, the value, where each thread stands, and the operations that took effect with their
  -- results, the latest first.
  pub record System : Type 0 where
    pub lock : State
    pub value : Value
    pub pc : ℕ → Pc t
    pub history : List (Op t × Option Value)

  -- After the constructor.
  abbrev pub constructed : System
  constructed = record { lock = rw_lock_new r; value = null; pc = λ i. idle; history = [] }

  -- One step of thread `i`; each touches the lock or the value once.
  pub data Move (i : ℕ) (s : System) : System → Type 0 where
    call : (op : Op t) → s.pc i ≡ idle → Move i s (record s { pc = update s.pc i (want op) })
    write_lock :
        (op : Op t) (l : State)
        → s.pc i ≡ want op
        → is_write t op ≡ true
        → rw_write_lock r i s.lock ≡ some l
        → Move i s (record s { lock = l; pc = update s.pc i (inside op) })
    read_lock :
        (op : Op t) (l : State)
        → s.pc i ≡ want op
        → is_write t op ≡ false
        → rw_read_lock r i s.lock ≡ some l
        → Move i s (record s { lock = l; pc = update s.pc i (inside op) })
    store :
        (x : Value)
        → s.pc i ≡ inside (set x)
        → Move i s (record s {
          value = x;
          pc = update s.pc i (leaving (set x) none);
          history = (set x, none) ∷ s.history;
        })
    load :
        s.pc i ≡ inside get
        → Move i s (record s {
          pc = update s.pc i (leaving get (some s.value));
          history = (get, some s.value) ∷ s.history;
        })
    load_up :
        s.pc i ≡ inside increase → Move i s (record s { pc = update s.pc i (raising s.value) })
    store_up :
        (v : Value)
        → s.pc i ≡ raising v
        → Move i s (record s {
          value = succ v;
          pc = update s.pc i (leaving increase (some (succ v)));
          history = (increase, some (succ v)) ∷ s.history;
        })
    load_down :
        s.pc i ≡ inside decrease → Move i s (record s { pc = update s.pc i (lowering s.value) })
    store_down :
        (v : Value)
        → s.pc i ≡ lowering v
        → Move i s (record s {
          value = pred v;
          pc = update s.pc i (leaving decrease (some (pred v)));
          history = (decrease, some (pred v)) ∷ s.history;
        })
    release :
        (op : Op t) (v : Option Value)
        → s.pc i ≡ leaving op v
        → Move i s (record s { lock = rw_unlock r i s.lock; pc = update s.pc i idle })

  -- `n` threads in any order.
  pub data Reach (n : ℕ) : System → Type 0 where
    start : Reach n constructed
    later : {s s' : System} (i : ℕ) → Reach n s → i < n → Move i s s' → Reach n s'
