-- ===== src/Lock/Sequential.antt =====
-- The operations take effect one after the other: each result is the one that the operation has on
-- the value that the operations before it left, and no update is lost.
use mathlib.Core.Path.{subst}
use xpcie.Base.{ℕ, ◌≡◌, ap, ◌∙◌, sym, refl, List, [], ◌∷◌, Option, none, some}
use xpcie.Lock.{
  RwLock, Numeric, Op, set, get, increase, decrease, System, Move, call, write_lock, read_lock,
  store, load, load_up, store_up, load_down, store_down, release, Reach, start, later,
}
use xpcie.Lock.Invariant.{Inv, Reach-Inv}
use xpcie.Lock.Sides.{Fresh}

module _ (t : Numeric) where
  open t use {Value, null, succ, pred}

  -- The operations by themselves: the value after, and the result.
  abbrev pub apply : Op t → Value → Value
  apply (set x) v = x
  apply get v = v
  apply increase v = succ v
  apply decrease v = pred v

  abbrev pub answer : Op t → Value → Option Value
  answer (set x) v = none
  answer get v = some v
  answer increase v = some (succ v)
  answer decrease v = some (pred v)

  -- The value after the operations of a history, the latest first.
  abbrev pub replay : List (Op t × Option Value) → Value
  replay [] = null
  replay ((op, v) ∷ history) = apply op (replay history)

  abbrev pub IsSequential : List (Op t × Option Value) → Type 0
  IsSequential [] = Unit
  IsSequential ((op, v) ∷ history) = (v ≡ answer op (replay history)) × IsSequential history

module _ (r : RwLock) (t : Numeric) where
  open t use {Value, succ, pred}

  abbrev Explained : System r t → Type 0
  Explained s = (s.value ≡ replay t s.history) × IsSequential t s.history

  Move-Explained :
      {i : ℕ} {s s' : System r t} → Move r t i s s' → Inv r t s → Explained s → Explained s'
  Move-Explained (call op e) inv (v, h) = (v, h)
  Move-Explained (write_lock op l e w got) inv (v, h) = (v, h)
  Move-Explained (read_lock op l e w got) inv (v, h) = (v, h)
  Move-Explained (store x e) inv (v, h) = (refl, (refl, h))
  Move-Explained (load e) inv (v, h) = (v, (ap (λ y. some y) v, h))
  Move-Explained (load_up e) inv (v, h) = (v, h)
  Move-Explained {i} {s} (store_up x e) inv (v, h) =
      let now : x ≡ replay t s.history = sym (subst (Fresh t s.value) e (inv.fresh i)) ∙ v in
      (ap succ now, (ap (λ y. some (succ y)) now, h))
  Move-Explained (load_down e) inv (v, h) = (v, h)
  Move-Explained {i} {s} (store_down x e) inv (v, h) =
      let now : x ≡ replay t s.history = sym (subst (Fresh t s.value) e (inv.fresh i)) ∙ v in
      (ap pred now, (ap (λ y. some (pred y)) now, h))
  Move-Explained (release op x e) inv (v, h) = (v, h)

  -- In every state that threads reach by calling the operations of a `LockedValue`, in any order of
  -- their accesses to the lock and to the value, the value is what the operations that took effect
  -- leave one after the other, and the result of each is the one that it has on the value that those
  -- before it left: no increment or decrement is lost.
  pub history-IsSequential :
      {n : ℕ} {s : System r t}
      → Reach r t n s
      → (s.value ≡ replay t s.history) × IsSequential t s.history
  history-IsSequential start = (refl, tt)
  history-IsSequential (later i reach lt move) =
      Move-Explained move (Reach-Inv r t reach) (history-IsSequential reach)
