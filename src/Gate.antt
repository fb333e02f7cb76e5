-- ===== src/Gate.antt =====
-- Threads that pass a gate, such as a mutex or a semaphore, in any order: the interface that the
-- classes of app/Lock.cpp fill, and what holds of it.
pub mod Mutex
pub mod Semaphore
use xpcie.Base.{
  ℕ, zero, suc, ◌+◌, ◌<◌, ◌≤◌, ◌≡◌, ◌≢◌, ap, ◌∙◌, refl, Bool, true, false, Option, some,
  if◌then◌else◌, update, total, total-le, total-two, total-update, Bool-cases, ◌⊎◌, inl, inr, ◌==◌,
  arith,
}

-- How many may still enter, which is at most `bound`; `none` where a thread that enters waits.
pub record Gate : Type 1 where
  pub State : Type 0
  pub enter : State → Option State
  pub leave : State → State
  pub free : State → ℕ
  pub bound : ℕ
  pub free-enter : (s s' : State) → enter s ≡ some s' → free s ≡ suc (free s')
  pub free-leave : (s : State) → free s < bound → free (leave s) ≡ suc (free s)
  -- Nobody waits for nothing.
  pub enter-free : (s : State) → 0 < free s → (s' : State) × (enter s ≡ some s')

module _ (g : Gate) where
  open g use {State, enter, leave, free, bound, free-enter, free-leave, enter-free}

  -- The gate, and which threads are behind it.
  pub record Threads : Type 0 where
    pub gate : State
    pub behind : ℕ → Bool

  pub data Step (i : ℕ) (s : Threads) : Threads → Type 0 where
    enters :
        (l : State)
        → s.behind i ≡ false
        → enter s.gate ≡ some l
        → Step i s (record { gate = l; behind = update s.behind i true })
    leaves :
        s.behind i ≡ true
        → Step i s (record { gate = leave s.gate; behind = update s.behind i false })

  -- `n` threads in any order, from a gate with nobody behind it.
  pub data Reach (n : ℕ) (first : State) : Threads → Type 0 where
    start : Reach n first (record { gate = first; behind = λ i. false })
    later : {s s' : Threads} (i : ℕ) → Reach n first s → i < n → Step i s s' → Reach n first s'

  abbrev pub one : Bool → ℕ
  one b = if b then 1 else 0

  -- The number of threads behind the gate.
  abbrev pub count_behind : ℕ → Threads → ℕ
  count_behind n s = total one n s.behind

  total-none : (n : ℕ) → total one n (λ i. false) ≡ 0
  total-none zero = refl
  total-none (suc n) = omega (arith, total-none n)

  -- Somebody is behind the gate if the number is not 0.
  pub behind-some :
      (n : ℕ) (s : Threads) → 0 < count_behind n s → (i : ℕ) × (i < n) × (s.behind i ≡ true)
  behind-some zero s h = absurd (omega arith)
  behind-some (suc n) s h = elim (Bool-cases (s.behind n)) [
    | inl here ↦ (n, omega arith, here)
    | inr out ↦
        let (i, lt, there) = behind-some n s (omega (arith, ap one out)) in (i, omega arith, there)
  ]

  pub behind-none :
      (n : ℕ) (s : Threads) (i : ℕ) → count_behind n s ≡ 0 → i < n → s.behind i ≡ false
  behind-none n s i none_there lt = elim (Bool-cases (s.behind i)) [
    | inl there ↦ absurd (omega (arith, total-le one n s.behind i lt, ap one there))
    | inr out ↦ out
  ]

  Step-free :
      {n i : ℕ} {s s' : Threads} (first : State)
      → i < n
      → free first ≤ bound
      → Step i s s'
      → free s.gate + count_behind n s ≡ free first
      → free s'.gate + count_behind n s' ≡ free first
  Step-free {n} {i} {s} first lt fits (enters l e got) h =
      omega (arith, free-enter s.gate l got, total-update one n i s.behind true lt, ap one e)
  Step-free {n} {i} {s} first lt fits (leaves e) h =
      let room : free s.gate < bound = omega (arith, total-le one n s.behind i lt, ap one e) in
      omega (arith, free-leave s.gate room, total-update one n i s.behind false lt, ap one e)

  pub Reach-free :
      {n : ℕ} {first : State} {s : Threads}
      → free first ≤ bound
      → Reach n first s
      → free s.gate + count_behind n s ≡ free first
  Reach-free {n} fits start = omega (arith, total-none n)
  Reach-free {n} {first} fits (later i reach lt step) =
      Step-free first lt fits step (Reach-free fits reach)

  -- Either as many are behind the gate as may be, or whoever asks gets in.
  pub Reach-enters :
      {n : ℕ} {first : State} {s : Threads}
      → free first ≤ bound
      → Reach n first s
      → (count_behind n s ≡ free first) ⊎ ((l : State) × (enter s.gate ≡ some l))
  Reach-enters {n} {first} {s} fits reach = elim (Bool-cases (free s.gate == 0)) [
    | inl full ↦ inl (ground (arith, Reach-free fits reach))
    | inr room ↦ inr (enter-free s.gate (ground arith))
  ]

  -- With room for one, the thread behind the gate is alone.
  pub Reach-alone :
      {n : ℕ} {first : State} {s : Threads} (i j : ℕ)
      → free first ≤ bound
      → free first ≤ 1
      → Reach n first s
      → i < n
      → j < n
      → i ≢ j
      → s.behind i ≡ true
      → s.behind j ≡ false
  Reach-alone {n} {first} {s} i j fits single reach hi hj other here =
      let two = total-two one n s.behind i j hi hj other in
      let all = Reach-free fits reach in
      elim (Bool-cases (s.behind j)) [
        | inl there ↦ absurd (omega (arith, two, all, ap one here, ap one there))
        | inr out ↦ out
      ]

  Step-keeps :
      {i : ℕ} {s s' : Threads} (P : State → Type 0)
      → ((l l' : State) → enter l ≡ some l' → P l → P l')
      → ((l : State) → P l → P (leave l))
      → Step i s s'
      → P s.gate
      → P s'.gate
  Step-keeps {i} {s} P entered left (enters l e got) h = entered s.gate l got h
  Step-keeps {i} {s} P entered left (leaves e) h = left s.gate h

  -- What each call at the gate keeps, holds in every state.
  pub Reach-keeps :
      {n : ℕ} {first : State} {s : Threads} (P : State → Type 0)
      → ((l l' : State) → enter l ≡ some l' → P l → P l')
      → ((l : State) → P l → P (leave l))
      → P first
      → Reach n first s
      → P s.gate
  Reach-keeps P entered left at_first start = at_first
  Reach-keeps P entered left at_first (later i reach lt step) =
      Step-keeps P entered left step (Reach-keeps P entered left at_first reach)
