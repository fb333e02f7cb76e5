-- ===== src/Gate/Mutex.antt =====
-- `CMutex` of app/Lock.cpp. The mutex of pthread.h is a parameter; its calls do not fail, and a call
-- that would wait is `none`.
use xpcie.Base.{
  ℕ, suc, ◌≡◌, ◌≢◌, ◌<◌, ◌≤◌, refl, Bool, true, false, Option, none, some, if◌then◌else◌, arith,
  Bool-cases, Option-cases, ◌⊎◌, inl, inr,
}
use xpcie.Gate.{
  Gate, Threads, Reach, Reach-free, Reach-alone, behind-some, behind-none, count_behind,
}

pub record PthreadMutex : Type 1 where
  pub State : Type 0
  pub init : State
  pub lock : State → Option State
  pub unlock : State → State
  -- `none` where the mutex must not be destroyed
  pub destroy : State → Option State
  pub locked : State → Bool
  pub locked-init : locked init ≡ false
  pub lock_lem : (s s' : State) → lock s ≡ some s' → (locked s ≡ false) × (locked s' ≡ true)
  pub lock-free : (s : State) → locked s ≡ false → (s' : State) × (lock s ≡ some s')
  pub destroy-unlocked : (s : State) → locked s ≡ false → (s' : State) × (destroy s ≡ some s')
  pub locked-unlock : (s : State) → locked s ≡ true → locked (unlock s) ≡ false

module _ (m : PthreadMutex) where
  open m use {
    State, init, lock, unlock, destroy, locked, locked-init, lock_lem, lock-free, locked-unlock,
  }

  -- `CMutex::CMutex`, `Lock` and `Unlock`
  abbrev pub mutex_new : State
  mutex_new = init

  abbrev pub mutex_lock : State → Option State
  mutex_lock s = lock s

  abbrev pub mutex_unlock : State → State
  mutex_unlock s = unlock s

  -- `CMutex::~CMutex`
  abbrev pub mutex_delete : State → Option State
  mutex_delete s = destroy s

  abbrev pub places : State → ℕ
  places s = if locked s then 0 else 1

  pub places-lock : (s s' : State) → mutex_lock s ≡ some s' → places s ≡ suc (places s')
  places-lock s s' h = ground (arith, lock_lem s s' h)

  pub places-unlock : (s : State) → places s < 1 → places (mutex_unlock s) ≡ suc (places s)
  places-unlock s h = elim (Bool-cases (locked s)) [
    | inl taken ↦ rw (taken, locked-unlock s taken) refl
    | inr open_ ↦ absurd (ground arith)
  ]

  pub lock-places : (s : State) → 0 < places s → (s' : State) × (mutex_lock s ≡ some s')
  lock-places s h = lock-free s (ground arith)

  abbrev pub mutex_gate : Gate
  mutex_gate = record {
    State = State;
    enter = mutex_lock;
    leave = mutex_unlock;
    free = places;
    bound = 1;
    free-enter = places-lock;
    free-leave = places-unlock;
    enter-free = lock-places;
  }

  places-new : places mutex_new ≡ 1
  places-new = rw locked-init refl

  lock-locked : (s : State) → locked s ≡ true → mutex_lock s ≡ none
  lock-locked s taken = elim (Option-cases (lock s)) [
    | inl waits ↦ waits
    | inr (s', got) ↦ absurd (cc (taken, (lock_lem s s' got).0))
  ]

  -- In every state that threads reach by calling `Lock` and, behind it, `Unlock` of a new `CMutex`,
  -- in any order: either one thread is behind `Lock` and no other, and whoever calls `Lock` waits;
  -- or nobody is behind it, and whoever calls `Lock` gets in, and the destructor can destroy the
  -- mutex.
  pub mutex_lock-alone :
      {n : ℕ} {s : Threads mutex_gate}
      → Reach mutex_gate n mutex_new s
      → ((i : ℕ) × (i < n)
          × (s.behind i ≡ true)
          × ((j : ℕ) → j < n → i ≢ j → s.behind j ≡ false)
          × (mutex_lock s.gate ≡ none))
        ⊎ (((j : ℕ) → j < n → s.behind j ≡ false)
            × ((l : State) × (mutex_lock s.gate ≡ some l))
            × ((l : State) × (mutex_delete s.gate ≡ some l)))
  mutex_lock-alone {n} {s} reach =
      let fits : places mutex_new ≤ 1 = omega (arith, places-new) in
      let all = Reach-free mutex_gate fits reach in
      elim (Bool-cases (locked s.gate)) [
        | inl taken ↦
            let (i, lt, here) =
              behind-some mutex_gate n s (ground (arith, all, places-new, taken)) in
            inl (
              i,
              lt,
              here,
              λ j hj other. Reach-alone mutex_gate i j fits fits reach lt hj other here,
              lock-locked s.gate taken,
            )
        | inr open_ ↦
            let nobody : count_behind mutex_gate n s ≡ 0 = ground (arith, all, places-new, open_) in
            inr (
              λ j hj. behind-none mutex_gate n s j nobody hj,
              lock-free s.gate open_,
              m.destroy-unlocked s.gate open_,
            )
      ]
