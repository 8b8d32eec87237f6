-- ===== src/Base/Outcome.antt =====
-- How a call of the program ends. An assert of the source that fails aborts the process, an
-- exception that no handler catches ends it, a read outside the memory that the model is given is a
-- fault, and so is a function that has to return a value and comes to its end without a return.
use mathlib.Core.Path.{◌≡◌, refl}
use mathlib.Core.Bool.{Bool, true, false}
use bootcamp.Base.Tests.{if◌then◌else◌}

pub data Error : Type 0 where
  assertion exception out_of_bounds missing_return : Error

pub data Result {ℓ} (A : Type ℓ) : Type ℓ where
  ok : A → Result A
  err : Error → Result A

-- One call after another.
infixl 5 ◌>>=◌ ◌>>◌
abbrev pub ◌>>=◌ {ℓ κ} : {A : Type ℓ} {B : Type κ} → Result A → (A → Result B) → Result B
◌>>=◌ (ok x) next = next x
◌>>=◌ (err why) next = err why

abbrev pub ◌>>◌ {κ} : {B : Type κ} → Result (Unit {0}) → Result B → Result B
first >> second = first >>= λ _. second

-- assert (holds);
abbrev pub assert : Bool → Result (Unit {0})
assert holds = if holds then ok tt else err assertion

-- A sequence that returns: its first call did, and the second on what that returned.
pub bind-ok {ℓ κ} :
    {A : Type ℓ} {B : Type κ} (next : A → Result B) (r : Result A) (y : B)
    → r >>= next ≡ ok y
    → (x : A) × (next x ≡ ok y) × (r ≡ ok x)
bind-ok next (ok x) y e = (x, e, refl)
bind-ok next (err why) y e = cc

-- The call returns, and its result satisfies the predicate: total correctness.
abbrev pub Returns {ℓ} : {A : Type ℓ} → (A → Type 0) → Result A → Type 0
Returns P (ok a) = P a
Returns P (err e) = ⊥

module _ {ℓ} {A : Type ℓ} (P : A → Type 0) where
  pub Returns-if :
      (b : Bool) (x y : Result A)
      → (b ≡ true → Returns P x)
      → (b ≡ false → Returns P y)
      → Returns P (if b then x else y)
  Returns-if true x y f g = f refl
  Returns-if false x y f g = g refl

  pub Returns-weaken :
      (Q : A → Type 0) (r : Result A) → ((a : A) → P a → Q a) → Returns P r → Returns Q r
  Returns-weaken Q (ok a) f h = f a h
  Returns-weaken Q (err e) f h = h

  pub Returns-bind {κ} :
      {B : Type κ} (Q : B → Type 0) (r : Result A) (f : A → Result B)
      → Returns P r
      → ((a : A) → P a → Returns Q (f a))
      → Returns Q (r >>= f)
  Returns-bind Q (ok a) f h next = next a h
  Returns-bind Q (err e) f h next = absurd h

  -- What such a call returns.
  pub Returns-ok : (r : Result A) → Returns P r → (a : A) × (r ≡ ok a) × P a
  Returns-ok (ok a) h = (a, refl, h)
  Returns-ok (err e) h = absurd h

-- Calls that go on in the same way end in the same way.
pub bind-ext {ℓ κ} :
    {A : Type ℓ} {B : Type κ} (r : Result A) (f g : A → Result B)
    → ((x : A) → f x ≡ g x)
    → r >>= f ≡ r >>= g
bind-ext (ok x) f g h = h x
bind-ext (err why) f g h = refl
