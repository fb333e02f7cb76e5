-- ===== src/Lock/Invariant.antt =====
-- Who is behind the lock: in every reachable state a thread that writes is alone.
use mathlib.Core.Path.{subst}
use xpcie.Base.{
  update, update-all, some, none, ℕ, ◌≡◌, ◌≢◌, ap, ◌∙◌, sym, refl, List, Option, true, false, ◌⊎◌,
  inl, inr, ◌==◌, if◌then◌else◌, arith,
}
use xpcie.Lock.{
  RwLock, Numeric, Op, set, get, increase, decrease, Pc, idle, want, inside, raising, lowering,
  leaving, is_write, System, constructed, Move, call, write_lock, read_lock, store, load, load_up,
  store_up, load_down, store_down, release, Reach, start, later,
}
use xpcie.Lock.Sides.{in_write, in_read, Fresh, outside-Fresh, write-not_read, not_write-read}

eq_refl : (n : ℕ) → (n == n) ≡ true
eq_refl n = ground arith

module _ (r : RwLock) (t : Numeric) where
  open r use {
    State, rdlock, wrlock, unlock, reading, writing, init_lem, rdlock_lem, wrlock_lem, unlock_lem,
  }
  open t use {Value}

  pub record Inv (s : System r t) : Type 0 where
    pub writers : (i : ℕ) → in_write t (s.pc i) ≡ writing s.lock i
    pub readers : (i : ℕ) → in_read t (s.pc i) ≡ reading s.lock i
    pub one_writer : (i j : ℕ) → writing s.lock i ≡ true → writing s.lock j ≡ true → i ≡ j
    pub no_reader : (i j : ℕ) → writing s.lock i ≡ true → reading s.lock j ≡ false
    pub fresh : (i : ℕ) → Fresh t s.value (s.pc i)

  constructed-Inv : Inv (constructed r t)
  constructed-Inv = record {
    writers = λ i. sym (init_lem i).1;
    readers = λ i. sym (init_lem i).0;
    one_writer = λ i j h k. cc (init_lem i).1;
    no_reader = λ i j h. (init_lem j).0;
    fresh = λ i. tt;
  }

  -- A step that leaves the lock: the thread stays on its side of the lock.
  module _ (i : ℕ) (s : System r t) (inv : Inv s) where
    -- The thread that writes is the only one.
    alone : (j : ℕ) → in_write t (s.pc i) ≡ true → (i == j) ≡ false → in_write t (s.pc j) ≡ false
    alone j h other = ground (arith, inv.writers i, inv.writers j, inv.one_writer i j)

    same_side :
        (p : Pc t) (x : Value) (h : List (Op t × Option Value))
        → in_write t p ≡ in_write t (s.pc i)
        → in_read t p ≡ in_read t (s.pc i)
        → Fresh t x p
        → (x ≡ s.value) ⊎ (in_write t (s.pc i) ≡ true)
        → Inv (record s { value = x; pc = update s.pc i p; history = h })
    same_side p x h w rd f change = record {
      writers =
          update-all s.pc i p (λ j q. in_write t q ≡ writing s.lock j) (w ∙ inv.writers i)
            (λ j other. inv.writers j);
      readers =
          update-all s.pc i p (λ j q. in_read t q ≡ reading s.lock j) (rd ∙ inv.readers i)
            (λ j other. inv.readers j);
      one_writer = inv.one_writer;
      no_reader = inv.no_reader;
      fresh = update-all s.pc i p (λ j q. Fresh t x q) f (λ j other. still j other change);
    }
      where
        still :
            (j : ℕ)
            → (i == j) ≡ false
            → (x ≡ s.value) ⊎ (in_write t (s.pc i) ≡ true)
            → Fresh t x (s.pc j)
        still j other (inl e) = subst (λ y. Fresh t y (s.pc j)) (sym e) (inv.fresh j)
        still j other (inr w) = outside-Fresh t x (s.pc j) (alone j w other)

    -- The calls of the lock.
    write_locked :
        (op : Op t) (l : State)
        → is_write t op ≡ true
        → wrlock i s.lock ≡ some l
        → Inv (record s { lock = l; pc = update s.pc i (inside op) })
    write_locked op l w got =
        let law = λ (j : ℕ). wrlock_lem i j s.lock l got in
        record {
          writers =
              update-all s.pc i (inside op) (λ j q. in_write t q ≡ writing l j)
                (w ∙ sym ((law i).2 ∙ eq_refl i))
                (λ j other. inv.writers j ∙ (law j).0 ∙ sym ((law j).2 ∙ other));
          readers =
              update-all s.pc i (inside op) (λ j q. in_read t q ≡ reading l j)
                (write-not_read t op w ∙ sym (law i).3)
                (λ j other. inv.readers j ∙ (law j).1 ∙ sym (law j).3);
          one_writer = λ a b ha hb. ground (arith, law a, law b);
          no_reader = λ a b h. (law b).3;
          fresh =
              update-all s.pc i (inside op) (λ j q. Fresh t s.value q) tt (λ j other. inv.fresh j);
        }

    read_locked :
        (op : Op t) (l : State)
        → is_write t op ≡ false
        → rdlock i s.lock ≡ some l
        → Inv (record s { lock = l; pc = update s.pc i (inside op) })
    read_locked op l w got =
        let law = λ (j : ℕ). rdlock_lem i j s.lock l got in
        record {
          writers =
              update-all s.pc i (inside op) (λ j q. in_write t q ≡ writing l j) (w ∙ sym (law i).1)
                (λ j other. inv.writers j ∙ (law j).0 ∙ sym (law j).1);
          readers =
              update-all s.pc i (inside op) (λ j q. in_read t q ≡ reading l j)
                (not_write-read t op w
                  ∙ sym ((law i).2 ∙ ap (λ b. if b then true else reading s.lock i) (eq_refl i)))
                (λ j other.
                  inv.readers j
                  ∙ sym ((law j).2 ∙ ap (λ b. if b then true else reading s.lock j) other));
          one_writer = λ a b ha hb. cc ((law a).1);
          no_reader = λ a b h. cc ((law a).1);
          fresh =
              update-all s.pc i (inside op) (λ j q. Fresh t s.value q) tt (λ j other. inv.fresh j);
        }

    released : Inv (record s { lock = unlock i s.lock; pc = update s.pc i idle })
    released =
        let law = λ (j : ℕ). unlock_lem i j s.lock in
        record {
          writers =
              update-all s.pc i idle (λ j q. in_write t q ≡ writing (unlock i s.lock) j)
                (sym ((law i).1 ∙ ap (λ b. if b then false else writing s.lock i) (eq_refl i)))
                (λ j other.
                  inv.writers j
                  ∙ sym ((law j).1 ∙ ap (λ b. if b then false else writing s.lock j) other));
          readers =
              update-all s.pc i idle (λ j q. in_read t q ≡ reading (unlock i s.lock) j)
                (sym ((law i).0 ∙ ap (λ b. if b then false else reading s.lock i) (eq_refl i)))
                (λ j other.
                  inv.readers j
                  ∙ sym ((law j).0 ∙ ap (λ b. if b then false else reading s.lock j) other));
          one_writer =
              λ a b ha hb. inv.one_writer a b (ground (arith, law a)) (ground (arith, law b));
          no_reader = λ a b h. ground (arith, law a, law b, inv.no_reader a b);
          fresh = update-all s.pc i idle (λ j q. Fresh t s.value q) tt (λ j other. inv.fresh j);
        }

  -- The position of the mover, put in for its equation.
  module _ (i : ℕ) (s : System r t) (inv : Inv s) (p : Pc t) (here : s.pc i ≡ p) where
    stays :
        (q : Pc t) (x : Value) (h : List (Op t × Option Value))
        → in_write t q ≡ in_write t p
        → in_read t q ≡ in_read t p
        → Fresh t x q
        → (x ≡ s.value) ⊎ (in_write t p ≡ true)
        → Inv (record s { value = x; pc = update s.pc i q; history = h })
    stays q x h w rd f change =
        same_side i s inv q x h (w ∙ ap (in_write t) (sym here)) (rd ∙ ap (in_read t) (sym here)) f
          (side change)
      where
        side : (x ≡ s.value) ⊎ (in_write t p ≡ true) → (x ≡ s.value) ⊎ (in_write t (s.pc i) ≡ true)
        side (inl e) = inl e
        side (inr e) = inr (ap (in_write t) here ∙ e)

  pub Move-Inv : {i : ℕ} {s s' : System r t} → Move r t i s s' → Inv s → Inv s'
  Move-Inv {i} {s} (call op e) inv =
      stays i s inv idle e (want op) s.value s.history refl refl tt (inl refl)
  Move-Inv {i} {s} (write_lock op l e w got) inv = write_locked i s inv op l w got
  Move-Inv {i} {s} (read_lock op l e w got) inv = read_locked i s inv op l w got
  Move-Inv {i} {s} (store x e) inv =
      stays i s inv (inside (set x)) e (leaving (set x) none) x _ refl refl tt (inr refl)
  Move-Inv {i} {s} (load e) inv =
      stays i s inv (inside get) e (leaving get (some s.value)) s.value _ refl refl tt (inl refl)
  Move-Inv {i} {s} (load_up e) inv =
      stays i s inv (inside increase) e (raising s.value) s.value s.history refl refl refl
        (inl refl)
  Move-Inv {i} {s} (store_up v e) inv =
      stays i s inv (raising v) e (leaving increase (some (t.succ v))) (t.succ v) _ refl refl tt
        (inr refl)
  Move-Inv {i} {s} (load_down e) inv =
      stays i s inv (inside decrease) e (lowering s.value) s.value s.history refl refl refl
        (inl refl)
  Move-Inv {i} {s} (store_down v e) inv =
      stays i s inv (lowering v) e (leaving decrease (some (t.pred v))) (t.pred v) _ refl refl tt
        (inr refl)
  Move-Inv {i} {s} (release op v e) inv = released i s inv

  pub Reach-Inv : {n : ℕ} {s : System r t} → Reach r t n s → Inv s
  Reach-Inv start = constructed-Inv
  Reach-Inv (later i reach lt move) = Move-Inv move (Reach-Inv reach)

  -- In every state that threads reach by calling the operations of a `LockedValue`, while a thread
  -- is behind `WriteLock` no other thread is behind `WriteLock` or `ReadLock`.
  mutual_exclusion :
      {n : ℕ} {s : System r t}
      → Reach r t n s
      → (i j : ℕ) → in_write t (s.pc i) ≡ true
      → i ≢ j
      → (in_write t (s.pc j) ≡ false) × (in_read t (s.pc j) ≡ false)
  mutual_exclusion {n} {s} reach i j w other =
      let inv = Reach-Inv reach in
      let other_test : (i == j) ≡ false = ground arith in
      (alone i s inv j w other_test, inv.readers j ∙ inv.no_reader i j (sym (inv.writers i) ∙ w))
