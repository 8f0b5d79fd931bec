-- ===== src/Common/Effects.antt =====
-- What a run of C code comes to. `fault` stands for behaviour that C leaves undefined: an access
-- outside an array, a shift by 32 or more, a value that was never set. `assertion` is a failed
-- `assert`, and `exit_program` is `exit(0)`.

pub data Outcome {ℓ} (A : Type ℓ) : Type ℓ where
  ok : A → Outcome A
  fault assertion exit_program : Outcome A

infixl 5 ◌>>=◌
abbrev pub ◌>>=◌ {ℓ κ} : {A : Type ℓ} {B : Type κ} → Outcome A → (A → Outcome B) → Outcome B
ok a >>= f = f a
fault >>= f = fault
assertion >>= f = assertion
exit_program >>= f = exit_program
