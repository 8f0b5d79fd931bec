-- ===== src/Decode/Shift.antt =====
-- `shift`: the width of its result, and the operand of a shift by no places.
use native.Mathlib.Nat.{div-le_self}
use projet_s5_prog.Common.{
  Option, arith, if◌then◌else◌, ltb, none, nonzero, some, sub32, u32, ℕ, ◌!=◌, ◌&&◌, ◌*◌, ◌-◌, ◌/◌,
  ◌<◌, ◌==◌, ◌>>=◌, ◌^◌,
}
use projet_s5_prog.Common.Bits.{bit_or-lt}
use projet_s5_prog.Util.{asr, get_bits, ror, shl32, shr32}
use projet_s5_prog.Core.{ArmCore}
use projet_s5_prog.Core.Keeps.{IsWords, arm_read_register-lt}
use projet_s5_prog.Decode.{
  carry_flag, register_bit, set_carry, shift, shift_asr, shift_lsl, shift_lsr, shift_ror,
  shift_sign, shift_switch, with_bit,
}
use projet_s5_prog.Common.Ensures.{
  Ensures, Ensures-Holds, bind-Ensures, faults, if-Ensures, returns,
}

abbrev IsWord : ℕ → Type 0
IsWord y = y < 2 ^ 32

shl32-IsWord : (x k : ℕ) → Ensures IsWord (shl32 x k)
unfolding shl32
shl32-IsWord x k = if-Ensures _ _ _ (returns (omega arith)) faults

shr32-IsWord : (x k : ℕ) → x < 2 ^ 32 → Ensures IsWord (shr32 x k)
unfolding shr32
shr32-IsWord x k h = if-Ensures _ _ _ (returns (omega (arith, div-le_self x (2 ^ k)))) faults

asr-IsWord : (x k : ℕ) → x < 2 ^ 32 → Ensures IsWord (asr x k)
unfolding asr
asr-IsWord x k h = bind-Ensures (shr32-IsWord x k h) λ low hl.
    bind-Ensures (if-Ensures _ _ _ (returns (omega arith)) (shl32-IsWord (2 ^ 32 - 1) (32 - k)))
      λ high hh. returns (bit_or-lt 32 low high hl hh)

ror-IsWord : (x k : ℕ) → x < 2 ^ 32 → Ensures IsWord (ror x k)
unfolding ror
ror-IsWord x k h = bind-Ensures (shr32-IsWord x k h) λ low hl.
    bind-Ensures (shl32-IsWord x (32 - k)) λ high hh. returns (bit_or-lt 32 low high hl hh)

abbrev Fits : ℕ × Option ℕ → Type 0
Fits r = r.0 < 2 ^ 32

register_bit-any : (p : ArmCore) (reg i : ℕ) → Ensures (λ _. Unit {0}) (register_bit p reg i)
unfolding register_bit shr32
register_bit-any p reg i = Ensures-Holds _ _ (ground arith)

with_bit-Fits :
    (p : ArmCore) {offset : ℕ} (i : ℕ) → offset < 2 ^ 32 → Ensures Fits (with_bit p offset i)
unfolding with_bit
with_bit-Fits p i fits = bind-Ensures (register_bit-any p _ i) λ carry _. returns fits

-- The operand of 32 copies of the bit that stands for the sign.
shift_sign-Fits : (p : ArmCore) (offset : ℕ) → Ensures Fits (shift_sign p offset)
unfolding shift_sign
shift_sign-Fits p offset =
    bind-Ensures (register_bit-any p offset 31)
      λ sign _. with_bit-Fits p {offset = if sign == 0 then 0 else 0xFFFFFFFF} 31 (ground arith)

module _ (p : ArmCore) (bit_4 rs val : ℕ) {offset : ℕ} (fits : offset < 2 ^ 32) where
  shift_lsl-Fits : Ensures Fits (shift_lsl p bit_4 rs val offset)
  unfolding shift_lsl
  shift_lsl-Fits =
      if-Ensures _ _ _ (bind-Ensures (shl32-IsWord offset _) λ y h. with_bit-Fits p _ h) (
        if-Ensures _ _ _ (with_bit-Fits p 0 (omega arith))
          (if-Ensures _ _ _ (returns fits) (returns fits)))

  shift_lsr-Fits : Ensures Fits (shift_lsr p bit_4 rs val offset)
  unfolding shift_lsr
  shift_lsr-Fits =
      if-Ensures _ _ _ (bind-Ensures (shr32-IsWord offset _ fits) λ y h. with_bit-Fits p _ h)
        (if-Ensures _ _ _ (with_bit-Fits p 31 (omega arith)) (returns fits))

  asr_by-Fits : (k : ℕ) → Ensures Fits (asr offset k >>= λ y. with_bit p y (sub32 k 1))
  asr_by-Fits k = bind-Ensures (asr-IsWord offset k fits) λ y h. with_bit-Fits p (sub32 k 1) h

  shift_asr-Fits : Ensures Fits (shift_asr p bit_4 rs val offset)
  unfolding shift_asr
  shift_asr-Fits = if-Ensures (nonzero bit_4 && ltb rs 32) _ _ (asr_by-Fits rs) (
      if-Ensures _ _ _ (shift_sign-Fits p offset)
        (if-Ensures (bit_4 == 0 && val != 0) _ _ (asr_by-Fits val) (returns fits)))

  shift_ror-Fits : (low : ℕ) → Ensures Fits (shift_ror p bit_4 rs val low offset)
  unfolding shift_ror
  shift_ror-Fits low =
      if-Ensures _ _ _ (bind-Ensures (ror-IsWord offset _ fits) λ y h. with_bit-Fits p _ h) (
        if-Ensures _ _ _ (with_bit-Fits p 31 fits) (
          if-Ensures _ _ _
            (with_bit-Fits p 0
              (bit_or-lt 32 (u32 (carry_flag p * 2 ^ 31)) (offset / 2) (omega arith) (omega arith)))
            (returns fits)))

  shift_switch-Fits : (low kind : ℕ) → Ensures Fits (shift_switch p bit_4 rs val low kind offset)
  unfolding shift_switch
  shift_switch-Fits low kind =
      if-Ensures _ _ _ shift_lsl-Fits
        (if-Ensures _ _ _ shift_lsr-Fits (if-Ensures _ _ _ shift_asr-Fits (shift_ror-Fits low)))

set_carry-Fits : (out : Option ℕ) (r : ℕ × Option ℕ) → Fits r → Fits (set_carry out r)
set_carry-Fits out (offset, none) h = h
set_carry-Fits out (offset, some carry) h = h

-- The shifted operand is a word.
pub shift-Fits :
    {p : ArmCore} (ins : ℕ) (out : Option ℕ)
    → IsWords p
    → Ensures (λ r. r.0 < 2 ^ 32) (shift p ins out)
unfolding shift
shift-Fits {p} ins out w =
    let fits = arm_read_register-lt w (get_bits ins 3 0) in
    let none_left : 0 < 2 ^ 32 = omega arith in
    if-Ensures _ _ _ (returns fits) (
      if-Ensures _ _ _ (returns none_left)
        (bind-Ensures (shift_switch-Fits p _ _ _ fits _ _) λ r h. returns (set_carry-Fits out r h)))
