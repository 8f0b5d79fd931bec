-- ===== src/Names/Lookup.antt =====
-- The search of send_irq.c for a name among those of arm_constants.c.
use mathlib.Core.Option.{some-injective}
use native.Mathlib.Decide.{ℕ_discrete}
use projet_s5_prog.Common.{
  Bool-cases, List, Option, Outcome, ap, arith, assertion, exit_program, false, fault, inl, inr,
  ltb, none, ok, refl, some, suc, sym, true, u8, zero, ℕ, ◌+◌, ◌<◌, ◌∙◌, ◌≡◌, ◌≢◌, ◌≤◌, ◌⊎◌,
}
use projet_s5_prog.Debug.{is_equal, strcmp}
use projet_s5_prog.Debug.Order.{is_equal-strcmp, strcmp-same}
use projet_s5_prog.Names.{arm_get_exception_name, chosen_irq, find_irq, looked_up}

-- What the search gives: the number of an exception with this name, or the end of the program
-- where no exception has it.
abbrev pub Chosen : List ℕ → Outcome ℕ → Type 0
Chosen name (ok number) = (1 ≤ number) × (number < 8) × (arm_get_exception_name number ≡ some name)
Chosen name exit_program = (number : ℕ) → arm_get_exception_name number ≢ some name
Chosen name fault = ⊥
Chosen name assertion = ⊥

nameless : (number : ℕ) → arm_get_exception_name number ≡ none → (number ≡ 0) ⊎ (8 ≤ number)
unfolding arm_get_exception_name
nameless number e = ground (arith, e)

no_name : (number : ℕ) → 8 ≤ number → arm_get_exception_name number ≡ none
unfolding arm_get_exception_name
no_name number h = ground arith

no_name_zero : arm_get_exception_name 0 ≡ none
unfolding arm_get_exception_name
no_name_zero = refl

-- The names before `number` are others.
abbrev OthersBefore : ℕ → List ℕ → Type 0
OthersBefore number name = (k : ℕ) → k < number → arm_get_exception_name k ≢ some name

abbrev Search : ℕ → ℕ → List ℕ → Type 0
Search fuel number name = (o : Outcome ℕ) × (find_irq fuel number name ≡ some o) × Chosen name o

module _ (fuel number : ℕ) (name : List ℕ) (a : 1 ≤ number) (b : number + suc fuel ≡ 9)
    (h : OthersBefore number name) where
  at_end : arm_get_exception_name number ≡ none → Search (suc fuel) number name
  unfolding find_irq
  at_end e = (
    exit_program,
    rw e refl,
    λ k s. elim (Bool-cases (ltb k number)) [
      | inl x ↦ h k (ground arith) s
      | inr x ↦ elim (nameless number e) [
        | inl y ↦ absurd (omega arith)
        | inr y ↦ absurd (let z = no_name k (ground arith) in cc)
      ]
    ],
  )

  at_name :
      (n : List ℕ)
      → arm_get_exception_name number ≡ some n
      → (OthersBefore (number + 1) name → number + 1 < 9 → Search fuel (number + 1) name)
      → Search (suc fuel) number name
  unfolding find_irq
  at_name n e next =
      let seen = ap (λ o. looked_up o number name (find_irq fuel (u8 (number + 1)) name)) e in
      elim (Bool-cases (is_equal (strcmp n name))) [
        | inl x ↦ (ok number, seen ∙ rw x refl, (a, below, e ∙ ap some (is_equal-strcmp n name x)))
        | inr x ↦
            let r = next (others x) (omega (arith, below)) in
            let one_more : u8 (number + 1) ≡ number + 1 = omega (arith, below) in
            (r.0, seen ∙ rw x (rw one_more r.1), r.2)
      ]
    where
      below : number < 8
      below = elim (Bool-cases (ltb number 8)) [
        | inl x ↦ ground arith
        | inr x ↦ absurd (let z = no_name number (ground arith) in cc)
      ]

      others : is_equal (strcmp n name) ≡ false → OthersBefore (number + 1) name
      others x k c s = elim (ℕ_discrete k number) [
        | yes same ↦
            let same_name : n ≡ name =
              some-injective n name (sym e ∙ ap arm_get_exception_name (sym same) ∙ s) in
            let t : true ≡ false =
              sym (ap (λ y. is_equal (strcmp y name)) same_name ∙ ap is_equal (strcmp-same name))
              ∙ x in
            absurd cc
        | no other ↦ h k (omega arith) s
      ]

find_irq-Chosen :
    (fuel number : ℕ) (name : List ℕ)
    → 1 ≤ number
    → number < 9
    → number + fuel ≡ 9
    → OthersBefore number name
    → Search fuel number name
find_irq-Chosen zero number name a l b h = absurd (omega arith)
find_irq-Chosen (suc fuel) number name a l b h =
    looked (arm_get_exception_name number) refl
      λ g c. find_irq-Chosen fuel (number + 1) name (omega arith) c (omega arith) g
  where
    looked :
        (o : Option (List ℕ))
        → arm_get_exception_name number ≡ o
        → (OthersBefore (number + 1) name → number + 1 < 9 → Search fuel (number + 1) name)
        → Search (suc fuel) number name
    looked none e next = at_end fuel number name a b h e
    looked (some n) e next = at_name fuel number name a b h n e next

-- The search for a name ends, at the latest behind the last exception. It chooses an exception
-- with this name, or it ends the program, and then no exception has the name.
pub chosen_irq-Chosen :
    (name : List ℕ) → (o : Outcome ℕ) × (chosen_irq (some name) ≡ some o) × Chosen name o
unfolding chosen_irq
chosen_irq-Chosen name = find_irq-Chosen 8 1 name (omega arith) (omega arith) (omega arith) first
  where
    first : OthersBefore 1 name
    first k c s =
        let zero_k : k ≡ 0 = omega arith in
        absurd (let z = ap arm_get_exception_name zero_k in cc (no_name_zero, z, s))
