-- ===== src/Lock/Steps.antt =====
-- How many steps the calls in progress of `LockedValue` need, and who is behind the lock.
use xpcie.Base.{
  ℕ, zero, suc, ◌<◌, ◌≡◌, ap, ◌∙◌, refl, true, false, ◌||◌, Bool-cases, ◌⊎◌, inl, inr, ◌==◌, arith,
}
use xpcie.Lock.{Numeric, Pc, idle, want, inside, raising, lowering, leaving}
use xpcie.Lock.Sides.{in_write, in_read}

module _ (t : Numeric) where
  -- How many steps a thread needs at most until its call returns.
  abbrev pub steps : Pc t → ℕ
  steps idle = 0
  steps (want op) = 4
  steps (inside op) = 3
  steps (raising v) = 2
  steps (lowering v) = 2
  steps (leaving op v) = 1

  pub steps-idle : (p : Pc t) → steps p ≡ 0 → p ≡ idle
  steps-idle idle h = refl
  steps-idle (want op) h = absurd (omega arith)
  steps-idle (inside op) h = absurd (omega arith)
  steps-idle (raising v) h = absurd (omega arith)
  steps-idle (lowering v) h = absurd (omega arith)
  steps-idle (leaving op v) h = absurd (omega arith)

  -- A thread that holds the lock or none does.
  pub holder :
      (n : ℕ) (pc : ℕ → Pc t)
      → ((j : ℕ) × (j < n) × ((in_write t (pc j) || in_read t (pc j)) ≡ true))
        ⊎ ((j : ℕ) → j < n → (in_write t (pc j) || in_read t (pc j)) ≡ false)
  holder zero pc = inr (λ j lt. absurd (omega arith))
  holder (suc n) pc = elim (holder n pc) [
    | inl (j, lt, h) ↦ inl (j, omega arith, h)
    | inr none_holds ↦ elim (Bool-cases (in_write t (pc n) || in_read t (pc n))) [
      | inl h ↦ inl (n, omega arith, h)
      | inr h ↦ inr (λ j lt. last j lt none_holds h)
    ]
  ]
    where
      last :
          (j : ℕ)
          → j < suc n
          → ((j : ℕ) → j < n → (in_write t (pc j) || in_read t (pc j)) ≡ false)
          → (in_write t (pc n) || in_read t (pc n)) ≡ false
          → (in_write t (pc j) || in_read t (pc j)) ≡ false
      last j lt below h = elim (Bool-cases (j == n)) [
        | inl same ↦
            let e : j ≡ n = ground arith in ap (λ k. in_write t (pc k) || in_read t (pc k)) e ∙ h
        | inr other ↦ below j (ground arith)
      ]
