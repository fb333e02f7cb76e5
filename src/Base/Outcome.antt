-- ===== src/Base/Outcome.antt =====
-- How a call of the driver ends: with a result, in a BUG_ON, or in an access to memory that is
-- not there, through NULL or past the end of an array.
use mathlib.Core.Path.{◌≡◌, refl}
use mathlib.Core.Bool.{Bool, true, false}
use mathlib.Core.List.{List, [], ◌∷◌}
use Prim.Native.Nat.{ℕ, zero, suc}

pub data Run {ℓ} (A : Type ℓ) : Type ℓ where
  done : A → Run A
  bug : Run A
  oops : Run A

infixl 5 ◌>>=◌ ◌>>◌
abbrev pub ◌>>=◌ {ℓ κ} : {A : Type ℓ} {B : Type κ} → Run A → (A → Run B) → Run B
done a >>= f = f a
bug >>= f = bug
oops >>= f = oops

abbrev pub ◌>>◌ {ℓ} : {B : Type ℓ} → Run (Unit {0}) → Run B → Run B
m >> k = m >>= λ _. k

-- `BUG_ON(b)`
abbrev pub bug_on : Bool → Run (Unit {0})
bug_on true = bug
bug_on false = done tt

pub >>=-assoc {ℓ κ μ} :
    {A : Type ℓ} {B : Type κ} {C : Type μ} (m : Run A) (f : A → Run B) (g : B → Run C)
    → ((m >>= f) >>= g) ≡ (m >>= λ a. f a >>= g)
>>=-assoc (done a) f g = refl
>>=-assoc bug f g = refl
>>=-assoc oops f g = refl

-- Inversion of a call that ended with a result.
pub >>=-eq-done {ℓ κ} :
    {A : Type ℓ} {B : Type κ} (m : Run A) (f : A → Run B) {b : B}
    → (m >>= f) ≡ done b
    → (a : A) × (m ≡ done a) × (f a ≡ done b)
>>=-eq-done (done a) f h = (a, refl, h)
>>=-eq-done bug f h = cc
>>=-eq-done oops f h = cc

-- A call on the element at an index of an array.
abbrev pub update_at {ℓ} : {A : Type ℓ} → List A → ℕ → (A → Run A) → Run (List A)
update_at [] i f = oops
update_at (x ∷ xs) zero f = do y ← f x; done (y ∷ xs)
update_at (x ∷ xs) (suc i) f = do ys ← update_at xs i f; done (x ∷ ys)
