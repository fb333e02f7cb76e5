-- ===== src/Gate/Semaphore.antt =====
-- `PosixSemaphore` of app/Lock.cpp. The named semaphores of semaphore.h are a parameter; a wait that
-- would block is `none`. The calls on an open semaphore do not fail.
use xpcie.Base.{
  ℕ, suc, ◌+◌, ◌≤◌, ◌<◌, ◌≡◌, ◌∙◌, ap, Option, none, some, List, ◌⊎◌, inl, inr, Run, done, bug,
}
use xpcie.Gate.{Gate, Threads, Reach, Reach-free, Reach-enters, Reach-keeps, count_behind}

-- The value of a semaphore that a name stands for, or else the one that is given.
abbrev pub kept_value : Option ℕ → (value_of : ℕ → ℕ) → (given : ℕ) → ℕ
kept_value none value_of given = given
kept_value (some sem) value_of given = value_of sem

-- A semaphore is its number, and `named` gives the one that a name stands for.
pub record NamedSemaphores : Type 1 where
  pub State : Type 0
  pub sem_open : (name : List ℕ) (mode value : ℕ) → State → Option (ℕ × State)
  pub sem_wait : ℕ → State → Option State
  pub sem_post : ℕ → State → State
  pub sem_getvalue : ℕ → State → ℕ
  pub sem_close : ℕ → State → State
  pub named : List ℕ → State → Option ℕ
  pub sem_value_max : ℕ
  -- A semaphore that exists keeps its value.
  pub sem_open_lem :
      (name : List ℕ) (mode value : ℕ) (s s' : State) (sem : ℕ)
      → sem_open name mode value s ≡ some (sem, s')
      → (sem_getvalue sem s' ≡ kept_value (named name s) (λ m. sem_getvalue m s) value)
        × (named name s' ≡ some sem)
  pub sem_getvalue-le : (sem : ℕ) (s : State) → sem_getvalue sem s ≤ sem_value_max
  pub sem_wait_lem :
      (sem : ℕ) (s s' : State)
      → sem_wait sem s ≡ some s'
      → sem_getvalue sem s ≡ suc (sem_getvalue sem s')
  pub sem_wait-free :
      (sem : ℕ) (s : State) → 0 < sem_getvalue sem s → (s' : State) × (sem_wait sem s ≡ some s')
  pub sem_post_lem :
      (sem : ℕ) (s : State)
      → sem_getvalue sem s < sem_value_max
      → sem_getvalue sem (sem_post sem s) ≡ suc (sem_getvalue sem s)
  -- Names are for `sem_open` and `sem_unlink`; to close a semaphore does not change it.
  pub named-wait :
      (name : List ℕ) (sem : ℕ) (s s' : State)
      → sem_wait sem s ≡ some s'
      → named name s' ≡ named name s
  pub named-post :
      (name : List ℕ) (sem : ℕ) (s : State) → named name (sem_post sem s) ≡ named name s
  pub named-close :
      (name : List ℕ) (sem : ℕ) (s : State) → named name (sem_close sem s) ≡ named name s
  pub sem_getvalue-close :
      (m sem : ℕ) (s : State) → sem_getvalue m (sem_close sem s) ≡ sem_getvalue m s

-- `O_RDWR`, which the constructor passes as the mode
abbrev pub o_rdwr : ℕ
o_rdwr = 2

-- `assert` of a pointer, which is NULL for `none`
unfoldable pub asserted : {A : Type 0} → Option A → Run A
asserted none = bug
asserted (some a) = done a

asserted-some : {A : Type 0} (o : Option A) (a : A) → asserted o ≡ done a → o ≡ some a
unfolding asserted
asserted-some none a h = cc
asserted-some (some b) a h = cc

module _ (n : NamedSemaphores) where
  open n use {State, sem_open, sem_wait, sem_post, sem_getvalue, sem_value_max, sem_close, named}

  -- `PosixSemaphore::PosixSemaphore`; the failed `assert` is a `bug`.
  unfoldable pub semaphore_new : (i_value : ℕ) (name : List ℕ) → State → Run (ℕ × State)
  semaphore_new i_value name s = asserted (sem_open name o_rdwr i_value s)

  -- `PosixSemaphore::~PosixSemaphore`
  abbrev pub semaphore_delete : (p_sem : ℕ) → State → State
  semaphore_delete p_sem s = sem_close p_sem s

  -- `wait`, `post` and `getValue`; the result 0 of the first two is left out.
  abbrev pub semaphore_wait : (p_sem : ℕ) → State → Option State
  semaphore_wait p_sem s = sem_wait p_sem s

  abbrev pub semaphore_post : (p_sem : ℕ) → State → State
  semaphore_post p_sem s = sem_post p_sem s

  abbrev pub semaphore_get_value : (p_sem : ℕ) → State → ℕ
  semaphore_get_value p_sem s = sem_getvalue p_sem s

  abbrev pub semaphore_gate : (p_sem : ℕ) → Gate
  semaphore_gate p_sem = record {
    State = State;
    enter = semaphore_wait p_sem;
    leave = semaphore_post p_sem;
    free = semaphore_get_value p_sem;
    bound = sem_value_max;
    free-enter = n.sem_wait_lem p_sem;
    free-leave = n.sem_post_lem p_sem;
    enter-free = n.sem_wait-free p_sem;
  }

  -- How many threads may be behind `wait` when a constructor that was given `i_value` ended.
  abbrev pub places : (name : List ℕ) → State → (i_value : ℕ) → ℕ
  places name s i_value = kept_value (named name s) (λ m. semaphore_get_value m s) i_value

  semaphore_new-places :
      (i_value : ℕ) (name : List ℕ) (s first : State) (p_sem : ℕ)
      → semaphore_new i_value name s ≡ done (p_sem, first)
      → (semaphore_get_value p_sem first ≡ places name s i_value) × (named name first ≡ some p_sem)
  unfolding semaphore_new
  semaphore_new-places i_value name s first p_sem opened =
      n.sem_open_lem name o_rdwr i_value s first p_sem
        (asserted-some (sem_open name o_rdwr i_value s) (p_sem, first) opened)

  -- When `PosixSemaphore` opens the semaphore of a name, in every state that threads reach by
  -- calling `wait` and, behind it, `post`, in any order, the value of the semaphore and the number
  -- of threads behind `wait` make up one number: the given value if there was no semaphore of that
  -- name, else the value that it has, whatever value is given. Either so many are behind `wait`, or
  -- whoever calls it gets in.
  pub semaphore_new-count :
      {k : ℕ} (i_value : ℕ) (name : List ℕ) (s first : State) (p_sem : ℕ)
      → semaphore_new i_value name s ≡ done (p_sem, first)
      → {t : Threads (semaphore_gate p_sem)} → Reach (semaphore_gate p_sem) k first t
      → (semaphore_get_value p_sem t.gate + count_behind (semaphore_gate p_sem) k t
          ≡ places name s i_value)
        × ((count_behind (semaphore_gate p_sem) k t ≡ places name s i_value)
            ⊎ ((l : State) × (semaphore_wait p_sem t.gate ≡ some l)))
  semaphore_new-count i_value name s first p_sem opened reach =
      let (value, _) = semaphore_new-places i_value name s first p_sem opened in
      let fits = n.sem_getvalue-le p_sem first in
      (
        Reach-free (semaphore_gate p_sem) fits reach ∙ value,
        elim (Reach-enters (semaphore_gate p_sem) fits reach) [
          | inl full ↦ inl (full ∙ value)
          | inr room ↦ inr room
        ],
      )

  -- A thread that is behind `wait` when the object is destroyed takes its place along: if the
  -- constructor is called again for the same name, with any value, the value of the semaphore and the
  -- number of threads that were behind `wait` make up the same number as before.
  pub semaphore_delete-count :
      {k : ℕ} (i_value : ℕ) (name : List ℕ) (s first : State) (p_sem : ℕ)
      → semaphore_new i_value name s ≡ done (p_sem, first)
      → {t : Threads (semaphore_gate p_sem)} → Reach (semaphore_gate p_sem) k first t
      → (i_value' : ℕ) (second : State) (p_sem' : ℕ)
      → semaphore_new i_value' name (semaphore_delete p_sem t.gate) ≡ done (p_sem', second)
      → semaphore_get_value p_sem' second + count_behind (semaphore_gate p_sem) k t
        ≡ places name s i_value
  semaphore_delete-count {k} i_value name s first p_sem opened {t} reach i_value' second p_sem'
        again =
      let (_, stands) = semaphore_new-places i_value name s first p_sem opened in
      let still =
        Reach-keeps (semaphore_gate p_sem) (λ l. named name l ≡ some p_sem)
          (λ l l' got e. n.named-wait name p_sem l l' got ∙ e)
          (λ l e. n.named-post name p_sem l ∙ e) stands reach in
      let closed = n.named-close name p_sem t.gate ∙ still in
      let (value, _) =
        semaphore_new-places i_value' name (semaphore_delete p_sem t.gate) second p_sem' again in
      let kept =
        value
        ∙ ap
            (λ o.
              kept_value o (λ m. semaphore_get_value m (semaphore_delete p_sem t.gate)) i_value')
            closed
        ∙ n.sem_getvalue-close p_sem p_sem t.gate in
      ap (λ v. v + count_behind (semaphore_gate p_sem) k t) kept
      ∙ (semaphore_new-count i_value name s first p_sem opened reach).0
