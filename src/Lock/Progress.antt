-- ===== src/Lock/Progress.antt =====
-- No deadlock: whatever the threads have called, they can take steps until each call has returned.
use xpcie.Base.{
  update, total, total-le, total-update, ℕ, zero, suc, ◌<◌, ◌≤◌, ◌≡◌, ap, ◌∙◌, sym, refl, Bool,
  true, false, some, ◌||◌, Bool-cases, ltb, ◌⊎◌, inl, inr, ◌==◌, if◌then◌else◌, arith,
}
use xpcie.Lock.{
  RwLock, Numeric, set, get, increase, decrease, Pc, idle, want, inside, raising, lowering, leaving,
  is_write, System, rw_lock_delete, Move, call, write_lock, read_lock, store, load, load_up,
  store_up, load_down, store_down, release, Reach, start, later,
}
use xpcie.Lock.Invariant.{Reach-Inv}
use xpcie.Lock.Sides.{in_write, in_read}
use xpcie.Lock.Steps.{steps, steps-idle, holder}

module _ (r : RwLock) (t : Numeric) where
  open r use {State, rdlock, wrlock, reading, writing, free_lem}
  open t use {succ, pred}

  -- Whether a step is one of a call that was made before.
  abbrev goes_on : {i : ℕ} {s s' : System r t} → Move r t i s s' → Bool
  goes_on (call op e) = false
  goes_on move = true

  -- `n` threads go on in any order and call nothing new.
  pub data Finish (n : ℕ) : System r t → System r t → Type 0 where
    finished : {s : System r t} → Finish n s s
    next :
        {s s' s'' : System r t} (i : ℕ) (move : Move r t i s s')
        → i < n
        → goes_on move ≡ true
        → Finish n s' s''
        → Finish n s s''

  -- A step of a call in progress, after which fewer steps are left.
  Step : ℕ → System r t → Type 0
  Step i s =
      (p : Pc t) × (s' : System r t) × (move : Move r t i s s') × (goes_on move ≡ true)
      × (s'.pc ≡ update s.pc i p)
      × (steps t p < steps t (s.pc i))

  -- Behind the lock each step can be taken.
  holder-Step :
      (i : ℕ) (s : System r t) (p : Pc t)
      → s.pc i ≡ p
      → (in_write t p || in_read t p) ≡ true
      → Step i s
  unfolding Step
  holder-Step i s idle e h = cc
  holder-Step i s (want op) e h = cc
  holder-Step i s (inside (set x)) e h =
      (_, _, store x e, refl, refl, omega (arith, ap (steps t) e))
  holder-Step i s (inside get) e h = (_, _, load e, refl, refl, omega (arith, ap (steps t) e))
  holder-Step i s (inside increase) e h =
      (_, _, load_up e, refl, refl, omega (arith, ap (steps t) e))
  holder-Step i s (inside decrease) e h =
      (_, _, load_down e, refl, refl, omega (arith, ap (steps t) e))
  holder-Step i s (raising v) e h = (_, _, store_up v e, refl, refl, omega (arith, ap (steps t) e))
  holder-Step i s (lowering v) e h =
      (_, _, store_down v e, refl, refl, omega (arith, ap (steps t) e))
  holder-Step i s (leaving op v) e h =
      (_, _, release op v e, refl, refl, omega (arith, ap (steps t) e))

  -- When nobody holds the lock, who waits gets it.
  waiter-Step :
      (i : ℕ) (s : System r t) (p : Pc t)
      → s.pc i ≡ p
      → ((j : ℕ) → (reading s.lock j ≡ false) × (writing s.lock j ≡ false))
      → (in_write t p || in_read t p) ≡ false
      → (p ≡ idle) ⊎ Step i s
  unfolding Step
  waiter-Step i s idle e free h = inl refl
  waiter-Step i s (want op) e free h = elim (Bool-cases (is_write t op)) [
    | inl w ↦
        let got = (free_lem i s.lock free).1 in
        inr (_, _, write_lock op got.0 e w got.1, refl, refl, omega (arith, ap (steps t) e))
    | inr w ↦
        let got = (free_lem i s.lock free).0 in
        inr (_, _, read_lock op got.0 e w got.1, refl, refl, omega (arith, ap (steps t) e))
  ]
  waiter-Step i s (inside (set x)) e free h = cc
  waiter-Step i s (inside get) e free h = cc
  waiter-Step i s (inside increase) e free h = cc
  waiter-Step i s (inside decrease) e free h = cc
  waiter-Step i s (raising v) e free h = cc
  waiter-Step i s (lowering v) e free h = cc
  waiter-Step i s (leaving (set x) v) e free h = cc
  waiter-Step i s (leaving get v) e free h = cc
  waiter-Step i s (leaving increase v) e free h = cc
  waiter-Step i s (leaving decrease v) e free h = cc

  Move-update :
      {i : ℕ} {s s' : System r t} → Move r t i s s' → (p : Pc t) × (s'.pc ≡ update s.pc i p)
  Move-update (call op e) = (_, refl)
  Move-update (write_lock op l e w got) = (_, refl)
  Move-update (read_lock op l e w got) = (_, refl)
  Move-update (store x e) = (_, refl)
  Move-update (load e) = (_, refl)
  Move-update (load_up e) = (_, refl)
  Move-update (store_up v e) = (_, refl)
  Move-update (load_down e) = (_, refl)
  Move-update (store_down v e) = (_, refl)
  Move-update (release op v e) = (_, refl)

  -- The threads from `n` on never call.
  Reach-idle : {n : ℕ} {s : System r t} → Reach r t n s → (j : ℕ) → n ≤ j → s.pc j ≡ idle
  Reach-idle start j le = refl
  Reach-idle (later {s} i reach lt move) j le =
      let other : (i == j) ≡ false = ground arith in
      let moved = Move-update move in
      ap (λ (pc : ℕ → Pc t). pc j) moved.1
      ∙ ap (λ b. if b then moved.0 else s.pc j) other
      ∙ Reach-idle reach j le

  -- With a free lock: the first thread that is not outside can take a step.
  waiters-Step :
      (n : ℕ) (s : System r t)
      → ((j : ℕ) → (reading s.lock j ≡ false) × (writing s.lock j ≡ false))
      → ((j : ℕ) → j < n → (in_write t (s.pc j) || in_read t (s.pc j)) ≡ false)
      → ((j : ℕ) → j < n → s.pc j ≡ idle) ⊎ ((i : ℕ) × (i < n) × Step i s)
  waiters-Step zero s free out = inl (λ j lt. absurd (omega arith))
  waiters-Step (suc n) s free out = elim (waiters-Step n s free (λ j lt. out j (omega arith))) [
    | inr (i, lt, step) ↦ inr (i, omega arith, step)
    | inl below ↦ elim (waiter-Step n s (s.pc n) refl free (out n (omega arith))) [
      | inr step ↦ inr (n, omega arith, step)
      | inl e ↦ inl (λ j lt. last j lt below e)
    ]
  ]
    where
      last : (j : ℕ) → j < suc n → ((j : ℕ) → j < n → s.pc j ≡ idle) → s.pc n ≡ idle → s.pc j ≡ idle
      last j lt below e = elim (Bool-cases (j == n)) [
        | inl same ↦ let here : j ≡ n = ground arith in ap s.pc here ∙ e
        | inr other ↦ below j (ground arith)
      ]

  nobody-free :
      {n : ℕ} {s : System r t}
      → Reach r t n s
      → ((j : ℕ) → j < n → (in_write t (s.pc j) || in_read t (s.pc j)) ≡ false)
      → (j : ℕ) → (reading s.lock j ≡ false) × (writing s.lock j ≡ false)
  nobody-free {n} {s} reach out j =
      let inv = Reach-Inv r t reach in
      let none_holds : (in_write t (s.pc j) || in_read t (s.pc j)) ≡ false = here in
      (
        sym (inv.readers j) ∙ (or_false (in_write t (s.pc j)) (in_read t (s.pc j)) none_holds).1,
        sym (inv.writers j) ∙ (or_false (in_write t (s.pc j)) (in_read t (s.pc j)) none_holds).0,
      )
    where
      or_false : (a b : Bool) → (a || b) ≡ false → (a ≡ false) × (b ≡ false)
      or_false true b h = cc
      or_false false b h = (refl, h)

      here : (in_write t (s.pc j) || in_read t (s.pc j)) ≡ false
      here = elim (Bool-cases (ltb j n)) [
        | inl lt ↦ out j (ground arith)
        | inr ge ↦ ap (λ p. in_write t p || in_read t p) (Reach-idle reach j (ground arith))
      ]

  -- While a call is in progress there is a step of such a call.
  Reach-Step :
      {n : ℕ} {s : System r t}
      → Reach r t n s
      → ((j : ℕ) → j < n → s.pc j ≡ idle) ⊎ ((i : ℕ) × (i < n) × Step i s)
  Reach-Step {n} {s} reach = elim (holder t n s.pc) [
    | inl (i, lt, h) ↦ inr (i, lt, holder-Step i s (s.pc i) refl h)
    | inr nobody ↦ waiters-Step n s (nobody-free reach nobody) nobody
  ]

  -- With every call returned, the lock can be destroyed.
  idle-rw_lock_delete :
      {n : ℕ} {s : System r t}
      → Reach r t n s
      → ((j : ℕ) → j < n → s.pc j ≡ idle)
      → (l : State) × (rw_lock_delete r s.lock ≡ some l)
  idle-rw_lock_delete {n} {s} reach out =
      r.destroy_lem s.lock
        (nobody-free reach λ j lt. ap (λ p. in_write t p || in_read t p) (out j lt))

  Reach-Finish_within :
      {n : ℕ} (k : ℕ) {s : System r t}
      → Reach r t n s
      → total (steps t) n s.pc ≤ k
      → (s' : System r t) × Finish n s s'
        × ((j : ℕ) → j < n → s'.pc j ≡ idle)
        × ((l : State) × (rw_lock_delete r s'.lock ≡ some l))
  unfolding Step
  Reach-Finish_within {n} zero {s} reach le =
      let out = λ (j : ℕ) (lt : j < n).
        steps-idle t (s.pc j) (omega (arith, total-le (steps t) n s.pc j lt)) in
      (s, finished, out, idle-rw_lock_delete reach out)
  Reach-Finish_within {n} (suc k) {s} reach le = elim (Reach-Step reach) [
    | inl idle_all ↦ (s, finished, idle_all, idle-rw_lock_delete reach idle_all)
    | inr (i, lt, (p, s', move, on, pc, less)) ↦
        let rest =
          Reach-Finish_within k (later i reach lt move)
            (omega (arith, ap (total (steps t) n) pc, total-update (steps t) n i s.pc p lt)) in
        (rest.0, next i move lt on rest.1, rest.2, rest.3)
  ]

  -- From every state that `n` threads reach by calling the operations of a `LockedValue`, they can
  -- take steps of the calls in progress alone until each call has returned, if a lock that nobody
  -- holds is given to whoever asks: there is no deadlock. Then nobody holds the lock, and the
  -- destructor can destroy it.
  pub Reach-Finish :
      {n : ℕ} {s : System r t}
      → Reach r t n s
      → (s' : System r t) × Finish n s s'
        × ((j : ℕ) → j < n → s'.pc j ≡ idle)
        × ((l : State) × (rw_lock_delete r s'.lock ≡ some l))
  Reach-Finish {n} {s} reach = Reach-Finish_within (total (steps t) n s.pc) reach (omega arith)
