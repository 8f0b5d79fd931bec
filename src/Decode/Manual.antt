-- ===== src/Decode/Manual.antt =====
-- `shift` for a register shifted by 1 to 31 places.
use native.Mathlib.Decide.{ℕ_discrete}
use projet_s5_prog.Common.{
  Option, Outcome, arith, false, if◌then◌else◌, ltb, ok, refl, some, sub32, suc, true, u32, u8,
  zero, ℕ, ◌!=◌, ◌%◌, ◌&&◌, ◌*◌, ◌+◌, ◌-◌, ◌/◌, ◌<◌, ◌==◌, ◌>>=◌, ◌^◌, ◌||◌, ◌∙◌, ◌≡◌,
}
use projet_s5_prog.Common.Ensures.{bind-ok}
use projet_s5_prog.Util.{asr, get_bit, get_bits, ror, shl32, shr32}
use projet_s5_prog.Core.{ArmCore, arm_read_register}
use projet_s5_prog.Decode.{
  register_bit, shift, shift_asr, shift_lsl, shift_lsr, shift_ror, shift_switch,
  update_shifter_carry_out, with_bit,
}
use projet_s5_prog.Decode.Places.{asr_lem, few_left, ror_lem, shl32_lem, shr32_lem}
use projet_s5_prog.Core.Keeps.{IsWords, arm_read_register-lt}

-- The operand that the manual gives: LSL, LSR, ASR and ROR of `v` by `n` places.
abbrev pub manual_operand : ℕ → ℕ → ℕ → ℕ
manual_operand kind v n =
    if kind == 0
    then u32 (v * 2 ^ n)
    else if kind == 1
    then v / 2 ^ n
    else if kind == 2
    then v / 2 ^ n + (if get_bit v 31 == 0 then 0 else (2 ^ n - 1) * 2 ^ (32 - n))
    else v / 2 ^ n + v % 2 ^ n * 2 ^ (32 - n)

-- The place of the bit of `v` that the manual names as the carry.
abbrev pub carry_place : ℕ → ℕ → ℕ
carry_place kind n = if kind == 0 then 32 - n else n - 1

-- The carry of the code: this bit of the register that the operand `y` numbers.
abbrev pub carry_read : ArmCore → ℕ → ℕ → ℕ
carry_read p y i = get_bit (arm_read_register p (u8 y)) i

module _ (p : ArmCore) (n v : ℕ) (some_places : 0 < n) (few : n < 32) (fits : v < 2 ^ 32) where
  with_bit_lem : (y i k : ℕ) → i ≡ k → k < 32 → with_bit p y i ≡ ok (y, some (carry_read p y k))
  unfolding with_bit register_bit shr32
  with_bit_lem y i k e h = rw e (let inside : ltb k 32 ≡ true = ground arith in rw inside refl)

  -- What the four cases of the switch do with the number of places that they take.
  abbrev Shifted : ℕ → Outcome (ℕ × Option ℕ) → Type 0
  Shifted kind o =
      let y = manual_operand kind v n in o ≡ ok (y, some (carry_read p y (carry_place kind n)))

  lsl_run : Shifted 0 (shl32 v n >>= λ y. with_bit p y (sub32 32 n))
  lsl_run =
      bind-ok _ (shl32_lem n some_places few v n (few_left n some_places few))
      ∙ with_bit_lem (u32 (v * 2 ^ n)) (sub32 32 n) (32 - n) (omega arith) (omega arith)

  lsr_run : Shifted 1 (shr32 v n >>= λ y. with_bit p y (sub32 n 1))
  lsr_run =
      bind-ok _ (shr32_lem n some_places few v n (few_left n some_places few))
      ∙ with_bit_lem (v / 2 ^ n) (sub32 n 1) (n - 1) (omega arith) (omega arith)

  asr_run : Shifted 2 (asr v n >>= λ y. with_bit p y (sub32 n 1))
  asr_run =
      bind-ok _ (asr_lem n some_places few v fits)
      ∙ with_bit_lem (manual_operand 2 v n) (sub32 n 1) (n - 1) (omega arith) (omega arith)

  ror_run : Shifted 3 (ror v n >>= λ y. with_bit p y (sub32 n 1))
  ror_run =
      bind-ok _ (ror_lem n some_places few v fits)
      ∙ with_bit_lem (manual_operand 3 v n) (sub32 n 1) (n - 1) (omega arith) (omega arith)

  not_zero : (n != 0) ≡ true
  not_zero = ground arith

  -- With a constant, `rs` and `low` are of no account; with a register, the constant is not.
  constant_places : (rs low kind : ℕ) → kind < 4 → Shifted kind (shift_switch p 0 rs n low kind v)
  unfolding shift_switch shift_lsl shift_lsr shift_asr shift_ror
  constant_places rs low zero h =
      let places : (ltb rs 32 || n != 0) ≡ true = ground arith in rw places lsl_run
  constant_places rs low (suc zero) h =
      let places : (ltb rs 32 || n != 0) ≡ true = ground arith in rw places lsr_run
  constant_places rs low (suc (suc zero)) h =
      let no_zero : (n == 0) ≡ false = ground arith in rw (no_zero, not_zero) asr_run
  constant_places rs low (suc (suc (suc zero))) h =
      let places : (ltb 0 low || n != 0) ≡ true = ground arith in rw places ror_run
  constant_places rs low (suc (suc (suc (suc k)))) h = absurd (omega arith)

  register_places : (val kind : ℕ) → kind < 4 → Shifted kind (shift_switch p 1 n val n kind v)
  unfolding shift_switch shift_lsl shift_lsr shift_asr shift_ror
  register_places val zero h =
      let places : (ltb n 32 || val != 0) ≡ true = ground arith in rw places lsl_run
  register_places val (suc zero) h =
      let places : (ltb n 32 || val != 0) ≡ true = ground arith in rw places lsr_run
  register_places val (suc (suc zero)) h =
      let inside : ltb n 32 ≡ true = ground arith in rw inside asr_run
  register_places val (suc (suc (suc zero))) h =
      let places : (ltb 0 n || val != 0) ≡ true = ground arith in rw places ror_run
  register_places val (suc (suc (suc (suc k)))) h = absurd (omega arith)

-- The number of places that an instruction shifts by: its constant, or the low byte of a register.
abbrev pub places_of : ArmCore → ℕ → ℕ
places_of p ins =
    if get_bit ins 4 == 0
    then get_bits ins 11 7
    else get_bits (arm_read_register p (get_bits ins 11 8)) 7 0

-- The result of a shift that is that of the manual but for its carry.
abbrev pub shift_result : ArmCore → ℕ → Option ℕ → ℕ × Option ℕ
shift_result p ins out =
    let kind = get_bits ins 6 5 in
    let n = places_of p ins in
    let y = manual_operand kind (arm_read_register p (get_bits ins 3 0)) n in
    (y, update_shifter_carry_out out (carry_read p y (carry_place kind n)))

shift-constant :
    (p : ArmCore) (ins : ℕ) (out : Option ℕ)
    → IsWords p
    → get_bit ins 4 ≡ 0
    → 0 < places_of p ins
    → places_of p ins < 32
    → shift p ins out ≡ ok (shift_result p ins out)
unfolding shift
shift-constant p ins out w constant some_places few =
    let small : get_bits ins 11 7 < 32 = omega arith in
    let enough : 0 < get_bits ins 11 7 = ground (arith, some_places) in
    let s =
      constant_places p (get_bits ins 11 7) (arm_read_register p (get_bits ins 3 0)) enough small
        (arm_read_register-lt w (get_bits ins 3 0))
        (get_bits (arm_read_register p (get_bits ins 11 8)) 7 0)
        (get_bits (arm_read_register p (get_bits ins 11 8)) 4 0) (get_bits ins 6 5) (omega arith) in
    rw constant (bind-ok _ s)

shift-register :
    (p : ArmCore) (ins : ℕ) (out : Option ℕ)
    → IsWords p
    → get_bit ins 4 ≡ 1
    → 0 < places_of p ins
    → places_of p ins < 32
    → shift p ins out ≡ ok (shift_result p ins out)
unfolding shift
shift-register p ins out w register some_places few =
    let amount = get_bits (arm_read_register p (get_bits ins 11 8)) 7 0 in
    let enough : 0 < amount = ground (arith, some_places) in
    let small : amount < 32 = ground (arith, few) in
    let low : get_bits (arm_read_register p (get_bits ins 11 8)) 4 0 ≡ amount = omega arith in
    let not_none : (amount == 0) ≡ false = ground arith in
    let not_more : ltb 32 amount ≡ false = ground arith in
    let s =
      register_places p amount (arm_read_register p (get_bits ins 3 0)) enough small
        (arm_read_register-lt w (get_bits ins 3 0)) (get_bits ins 11 7) (get_bits ins 6 5)
        (omega arith) in
    let never : (ltb (get_bits ins 6 5) 2 && false) ≡ false = ground arith in
    rw (register, low, not_none, not_more, never) (bind-ok _ s)

-- A register shifted by 1 to 31 places, by a constant or by the low byte of a register: the operand
-- is that of the manual, for each of the four kinds. The carry is not: it is read from the register
-- that the low byte of the operand numbers, at the place where the manual reads it from the
-- register shifted.
pub shift-manual :
    (p : ArmCore) (ins : ℕ) (out : Option ℕ)
    → IsWords p
    → 0 < places_of p ins
    → places_of p ins < 32
    → shift p ins out ≡ ok (shift_result p ins out)
shift-manual p ins out w some_places few = elim (ℕ_discrete (get_bit ins 4) 0) [
  | yes constant ↦ shift-constant p ins out w constant some_places few
  | no other ↦ shift-register p ins out w (omega arith) some_places few
]
