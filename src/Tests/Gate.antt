-- ===== src/Tests/Gate.antt =====
-- A mutex that two threads take in turn, and named semaphores that one process makes and another
-- opens.
use xpcie.Base.{
  ℕ, suc, ◌+◌, ◌-◌, ◌*◌, ◌<◌, ◌≤◌, ◌≡◌, ◌≢◌, refl, ap, Bool, true, false, Bool-cases, inl, inr,
  Option, none, some, List, [], ◌∷◌, ◌==◌, ltb, if◌then◌else◌, update, arith, ◌⊎◌,
}
use xpcie.Gate.{Threads, Reach, start, later, enters, leaves, count_behind}
use xpcie.Gate.Mutex.{
  PthreadMutex, mutex_gate, mutex_new, mutex_lock, mutex_delete, mutex_lock-alone,
}
use xpcie.Gate.Semaphore.{
  NamedSemaphores, semaphore_gate, semaphore_new, asserted, semaphore_wait, semaphore_get_value,
  semaphore_new-count, semaphore_delete-count, kept_value,
}

abbrev take_free : Bool → Option Bool
take_free false = some true
take_free true = none

take_free_lem : (s s' : Bool) → take_free s ≡ some s' → (s ≡ false) × (s' ≡ true)
take_free_lem false s' h = (refl, ground arith)
take_free_lem true s' h = cc

take_free-free : (s : Bool) → s ≡ false → (s' : Bool) × (take_free s ≡ some s')
take_free-free false h = (true, refl)
take_free-free true h = cc

abbrev flag : PthreadMutex
flag = record {
  State = Bool;
  init = false;
  lock = take_free;
  unlock = λ s. false;
  destroy = λ s. if s then none else some false;
  locked = λ s. s;
  locked-init = refl;
  lock_lem = take_free_lem;
  lock-free = take_free-free;
  destroy-unlocked = λ s h. (false, ap (λ (b : Bool). if b then none else some false) h);
  locked-unlock = λ s h. refl;
}

-- Thread 0 has passed, and thread 1 has locked the mutex after it.
abbrev second_in : Threads (mutex_gate flag)
second_in = record {
  gate = true;
  behind = update (update (update (λ i. false) 0 true) 0 false) 1 true;
}

second_in-Reach : Reach (mutex_gate flag) 2 (mutex_new flag) second_in
second_in-Reach =
    later 1
      (later 0 (later 0 start (omega arith) (enters true refl refl)) (omega arith) (leaves refl))
      (omega arith) (enters true refl refl)

mutex_lock-alone_example :
    ((i : ℕ) × (i < 2)
      × (second_in.behind i ≡ true)
      × ((j : ℕ) → j < 2 → i ≢ j → second_in.behind j ≡ false)
      × (mutex_lock flag second_in.gate ≡ none))
    ⊎ (((j : ℕ) → j < 2 → second_in.behind j ≡ false)
        × ((l : Bool) × (mutex_lock flag second_in.gate ≡ some l))
        × ((l : Bool) × (mutex_delete flag second_in.gate ≡ some l)))
mutex_lock-alone_example = mutex_lock-alone flag second_in-Reach

-- The values of semaphores, numbered by their names, and which of them there are.
record Values : Type 0 where
  value : ℕ → ℕ
  made : ℕ → Bool

abbrev number : List ℕ → ℕ
number [] = 0
number (c ∷ name) = c + 256 * number name

abbrev largest : ℕ
largest = 2147483647

abbrev capped : ℕ → ℕ
capped v = if ltb v largest then v else largest

abbrev value_of : ℕ → Values → ℕ
value_of sem s = capped (s.value sem)

abbrev open_named : (name : List ℕ) (mode value : ℕ) → Values → Option (ℕ × Values)
open_named name mode value s =
    if s.made (number name)
    then some (number name, s)
    else if ltb largest value
    then none
    else some (
      number name,
      record {
        value = update s.value (number name) value;
        made = update s.made (number name) true;
      },
    )

abbrev value_in : ℕ → Option Values → ℕ
value_in sem none = 0
value_in sem (some s) = value_of sem s

abbrev take_one : ℕ → Values → Option Values
take_one sem s =
    if value_of sem s == 0
    then none
    else some (record s { value = update s.value sem (value_of sem s - 1) })

abbrev put_one : ℕ → Values → Values
put_one sem s = record s { value = update s.value sem (suc (value_of sem s)) }

abbrev number_in : Option (ℕ × Values) → ℕ
number_in none = 0
number_in (some (sem, s)) = sem

abbrev value_opened : Option (ℕ × Values) → ℕ
value_opened none = 0
value_opened (some (sem, s)) = value_of sem s

abbrev named_of : List ℕ → Values → Option ℕ
named_of name s = if s.made (number name) then some (number name) else none

abbrev named_opened : List ℕ → Option (ℕ × Values) → Option ℕ
named_opened name none = none
named_opened name (some (sem, s)) = named_of name s

abbrev named_in : List ℕ → Option Values → Option ℕ
named_in name none = none
named_in name (some s) = named_of name s

open_named_lem :
    (name : List ℕ) (mode value : ℕ) (s s' : Values) (sem : ℕ)
    → open_named name mode value s ≡ some (sem, s')
    → (value_of sem s' ≡ kept_value (named_of name s) (λ m. value_of m s) value)
      × (named_of name s' ≡ some sem)
open_named_lem name mode value s s' sem h =
    let sem_eq = ap number_in h in
    let value_eq = ap value_opened h in
    let named_eq = ap (named_opened name) h in
    elim (Bool-cases (s.made (number name))) [
      | inl there ↦ (
        ground (arith, sem_eq, value_eq, ap (λ k. value_of k s) sem_eq),
        ground (arith, named_eq, sem_eq),
      )
      | inr fresh ↦ (ground (arith, sem_eq, value_eq), ground (arith, named_eq, sem_eq))
    ]

value_of-le : (sem : ℕ) (s : Values) → value_of sem s ≤ largest
value_of-le sem s = ground arith

take_one_lem :
    (sem : ℕ) (s s' : Values) → take_one sem s ≡ some s' → value_of sem s ≡ suc (value_of sem s')
take_one_lem sem s s' h = elim (Bool-cases (value_of sem s == 0)) [
  | inl empty ↦ absurd (ground arith)
  | inr full ↦ ground (arith, ap (value_in sem) h)
]

take_one-free :
    (sem : ℕ) (s : Values) → 0 < value_of sem s → (s' : Values) × (take_one sem s ≡ some s')
take_one-free sem s h = elim (Bool-cases (value_of sem s == 0)) [
  | inl empty ↦ absurd (ground arith)
  | inr full ↦ (record s { value = update s.value sem (value_of sem s - 1) }, rw full refl)
]

put_one_lem :
    (sem : ℕ) (s : Values)
    → value_of sem s < largest
    → value_of sem (put_one sem s) ≡ suc (value_of sem s)
put_one_lem sem s h = ground arith

take_one-named :
    (name : List ℕ) (sem : ℕ) (s s' : Values)
    → take_one sem s ≡ some s'
    → named_of name s' ≡ named_of name s
take_one-named name sem s s' h = elim (Bool-cases (value_of sem s == 0)) [
  | inl empty ↦ absurd (ground arith)
  | inr full ↦ ground (arith, ap (named_in name) h)
]

abbrev values : NamedSemaphores
values = record {
  State = Values;
  sem_open = open_named;
  sem_wait = take_one;
  sem_post = put_one;
  sem_getvalue = value_of;
  sem_close = λ sem s. s;
  named = named_of;
  sem_value_max = largest;
  sem_open_lem = open_named_lem;
  sem_getvalue-le = value_of-le;
  sem_wait_lem = take_one_lem;
  sem_wait-free = take_one-free;
  sem_post_lem = put_one_lem;
  named-wait = take_one-named;
  named-post = λ name sem s. refl;
  named-close = λ name sem s. refl;
  sem_getvalue-close = λ m sem s. refl;
}

abbrev name : List ℕ
name = 47 ∷ 115 ∷ []

-- Another process made the semaphore with the value 1.
abbrev there_already : Values
there_already = record {
  value = update (λ k. 0) (number name) 1;
  made = update (λ k. false) (number name) true;
}

abbrev taken : Threads (semaphore_gate values (number name))
taken = record {
  gate = record { value = update there_already.value (number name) 0; made = there_already.made };
  behind = update (λ i. false) 1 true;
}

taken-Reach : Reach (semaphore_gate values (number name)) 2 there_already taken
taken-Reach = later 1 start (omega arith) (enters taken.gate refl refl)

semaphore_new-count_example :
    (semaphore_get_value values (number name) taken.gate
        + count_behind (semaphore_gate values (number name)) 2 taken
      ≡ 1)
    × ((count_behind (semaphore_gate values (number name)) 2 taken ≡ 1)
        ⊎ ((l : Values) × (semaphore_wait values (number name) taken.gate ≡ some l)))
unfolding semaphore_new asserted
semaphore_new-count_example =
    semaphore_new-count values 5 name there_already there_already (number name) refl taken-Reach

-- The object is destroyed while thread 1 is behind `wait`, and made again with the value 5.
semaphore_delete-count_example :
    semaphore_get_value values (number name) taken.gate
      + count_behind (semaphore_gate values (number name)) 2 taken
    ≡ 1
unfolding semaphore_new asserted
semaphore_delete-count_example =
    semaphore_delete-count values 5 name there_already there_already (number name) refl taken-Reach
      5 taken.gate (number name) refl
