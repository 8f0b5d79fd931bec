-- ===== src/Common/Ensures.antt =====
-- Postconditions of runs: what a normal return satisfies. A run that ends otherwise returns
-- nothing. The family has a rule for each way to put runs together.
use projet_s5_prog.Common.{
  Bool, Outcome, ap, assertion, exit_program, false, fault, if◌then◌else◌, ok, refl, subst, true,
  ◌>>=◌, ◌≡◌, ◌≢◌,
}

pub data Ensures {ℓ κ} {A : Type ℓ} (P : A → Type κ) : Outcome A → Type (ℓ ⊔ κ) where
  returns : {a : A} → P a → Ensures P (ok a)
  faults : Ensures P fault
  asserts : Ensures P assertion
  exits : Ensures P exit_program

module _ {ℓ κ} {A : Type ℓ} (P : A → Type κ) where
  -- The same by recursion on the result, which the tactics compute with.
  abbrev pub Holds : Outcome A → Type κ
  Holds (ok a) = P a
  Holds fault = Unit
  Holds assertion = Unit
  Holds exit_program = Unit

  pub Ensures-Holds : (o : Outcome A) → Holds o → Ensures P o
  Ensures-Holds (ok a) h = returns h
  Ensures-Holds fault h = faults
  Ensures-Holds assertion h = asserts
  Ensures-Holds exit_program h = exits

module _ {ℓ κ} {A : Type ℓ} {P : A → Type κ} where
  pub Holds-Ensures : {o : Outcome A} → Ensures P o → Holds P o
  Holds-Ensures (returns h) = h
  Holds-Ensures faults = tt
  Holds-Ensures asserts = tt
  Holds-Ensures exits = tt

  -- What holds of the value that a run is known to return.
  pub Ensures-ok : {o : Outcome A} {a : A} → Ensures P o → o ≡ ok a → P a
  Ensures-ok h e = subst (Holds P) e (Holds-Ensures h)

  pub if-Ensures :
      (b : Bool) (x y : Outcome A) → Ensures P x → Ensures P y → Ensures P (if b then x else y)
  if-Ensures true x y h g = h
  if-Ensures false x y h g = g

pub bind-Ensures {ℓ κ μ ν} :
    {A : Type ℓ} {B : Type κ} {Q : A → Type μ} {P : B → Type ν} {o : Outcome A} {f : A → Outcome B}
    → Ensures Q o
    → ((a : A) → Q a → Ensures P (f a))
    → Ensures P (o >>= f)
bind-Ensures (returns {a} h) k = k a h
bind-Ensures faults k = faults
bind-Ensures asserts k = asserts
bind-Ensures exits k = exits

-- A weaker postcondition.
pub weaken-Ensures {ℓ κ μ} :
    {A : Type ℓ} {Q : A → Type κ} {P : A → Type μ} {o : Outcome A}
    → Ensures Q o
    → ((a : A) → Q a → P a)
    → Ensures P o
weaken-Ensures (returns {a} h) k = returns (k a h)
weaken-Ensures faults k = faults
weaken-Ensures asserts k = asserts
weaken-Ensures exits k = exits

-- The same where the run can fault, but fails no assertion and does not end the program.
pub data Safe {ℓ κ} {A : Type ℓ} (P : A → Type κ) : Outcome A → Type (ℓ ⊔ κ) where
  finishes : {a : A} → P a → Safe P (ok a)
  breaks : Safe P fault

module _ {ℓ κ} {A : Type ℓ} {P : A → Type κ} where
  pub Safe-Ensures : {o : Outcome A} → Safe P o → Ensures P o
  Safe-Ensures (finishes h) = returns h
  Safe-Ensures breaks = faults

  pub Ensures-Safe : {o : Outcome A} → Ensures P o → o ≢ assertion → o ≢ exit_program → Safe P o
  Ensures-Safe (returns h) n m = finishes h
  Ensures-Safe faults n m = breaks
  Ensures-Safe asserts n m = absurd (n refl)
  Ensures-Safe exits n m = absurd (m refl)

  pub Safe-ne-assertion : {o : Outcome A} → Safe P o → o ≢ assertion
  Safe-ne-assertion (finishes h) = cc
  Safe-ne-assertion breaks = cc

  pub if-Safe : (b : Bool) (x y : Outcome A) → Safe P x → Safe P y → Safe P (if b then x else y)
  if-Safe true x y h g = h
  if-Safe false x y h g = g

-- The same where each branch knows the test.
pub if-Safe_under {ℓ κ} :
    {A : Type ℓ} {P : A → Type κ} (b : Bool) (x y : Outcome A)
    → (b ≡ true → Safe P x)
    → (b ≡ false → Safe P y)
    → Safe P (if b then x else y)
if-Safe_under true x y h g = h refl
if-Safe_under false x y h g = g refl

pub bind-Safe {ℓ κ μ ν} :
    {A : Type ℓ} {B : Type κ} {Q : A → Type μ} {P : B → Type ν} {o : Outcome A} {f : A → Outcome B}
    → Safe Q o
    → ((a : A) → Q a → Safe P (f a))
    → Safe P (o >>= f)
bind-Safe (finishes {a} h) k = k a h
bind-Safe breaks k = breaks

-- A run whose first part is known.
pub bind-ok {ℓ κ} :
    {A : Type ℓ} {B : Type κ} {o : Outcome A} {a : A} (f : A → Outcome B)
    → o ≡ ok a
    → (o >>= f) ≡ f a
bind-ok f e = ap (λ r. r >>= f) e

-- Every run, with nothing claimed of its value.
pub some_result {ℓ} : {A : Type ℓ} (o : Outcome A) → Ensures {ℓ, 0} (λ a. Unit) o
some_result (ok a) = returns tt
some_result fault = faults
some_result assertion = asserts
some_result exit_program = exits
