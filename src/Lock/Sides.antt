-- ===== src/Lock/Sides.antt =====
-- On which side of the lock a thread is, from where it is in its call (app/Lock.h, LockedValue).
use xpcie.Base.{◌≡◌, refl, Bool, true, false}
use xpcie.Lock.{
  Numeric, Op, set, get, increase, decrease, Pc, idle, want, inside, raising, lowering, leaving,
  is_write,
}

module _ (t : Numeric) where
  open t use {Value}

  -- Whether a thread is behind `WriteLock`, or behind `ReadLock`.
  abbrev pub in_write : Pc t → Bool
  in_write idle = false
  in_write (want op) = false
  in_write (inside op) = is_write t op
  in_write (raising v) = true
  in_write (lowering v) = true
  in_write (leaving op v) = is_write t op

  abbrev pub in_read : Pc t → Bool
  in_read (inside get) = true
  in_read (leaving get v) = true
  in_read pc = false

  -- What a thread has loaded is the value.
  abbrev pub Fresh : Value → Pc t → Type 0
  Fresh x (raising v) = x ≡ v
  Fresh x (lowering v) = x ≡ v
  Fresh x pc = Unit

  pub outside-Fresh : (x : Value) (pc : Pc t) → in_write pc ≡ false → Fresh x pc
  outside-Fresh x idle h = tt
  outside-Fresh x (want op) h = tt
  outside-Fresh x (inside op) h = tt
  outside-Fresh x (raising v) h = cc
  outside-Fresh x (lowering v) h = cc
  outside-Fresh x (leaving op v) h = tt

  pub write-not_read : (op : Op t) → is_write t op ≡ true → in_read (inside op) ≡ false
  write-not_read (set x) h = refl
  write-not_read get h = cc
  write-not_read increase h = refl
  write-not_read decrease h = refl

  pub not_write-read : (op : Op t) → is_write t op ≡ false → in_read (inside op) ≡ true
  not_write-read (set x) h = cc
  not_write-read get h = refl
  not_write-read increase h = cc
  not_write-read decrease h = cc
