-- ===== src/Decode.antt =====
-- decode.c: the condition of an instruction and its shifted operand.
pub mod Condition
pub mod Shift
pub mod Places
pub mod Manual
pub mod NoShift
use projet_s5_prog.Common.{
  Bool, Option, Outcome, bit_or, false, if◌then◌else◌, leb, ltb, none, nonzero, not, ok, some,
  sub32, true, u32, u8, ℕ, ◌!=◌, ◌%◌, ◌&&◌, ◌*◌, ◌/◌, ◌==◌, ◌>>=◌, ◌^◌, ◌||◌,
}
use projet_s5_prog.Constants.{c_bit, n_bit, v_bit, z_bit}
use projet_s5_prog.Util.{asr, get_bit, get_bits, ror, shl32, shr32}
use projet_s5_prog.Core.{ArmCore, arm_read_cpsr, arm_read_register}

-- `shifter_carry_out` points to a variable or is NULL: `some` of its value, or `none`.
unfoldable pub update_shifter_carry_out : Option ℕ → ℕ → Option ℕ
update_shifter_carry_out none value = none
update_shifter_carry_out (some old) value = some value

-- `get_bit(arm_read_register(p, reg), i)` with the argument of the call cut to `uint8_t`. The
-- place of the bit is an `unsigned`, so a negative one is above 31.
unfoldable pub register_bit : ArmCore → ℕ → ℕ → Outcome ℕ
register_bit p reg i = do x ← shr32 (arm_read_register p (u8 reg)) i; ok (x % 2)

-- The new offset, and as carry a bit of the register that it numbers.
unfoldable pub with_bit : ArmCore → ℕ → ℕ → Outcome (ℕ × Option ℕ)
with_bit p offset i = do carry ← register_bit p offset i; ok (offset, some carry)

-- ASR by 32 or more: the sign is read from the register that `offset` numbers.
unfoldable pub shift_sign : ArmCore → ℕ → Outcome (ℕ × Option ℕ)
shift_sign p offset =
    register_bit p offset 31 >>= λ sign. with_bit p (if sign == 0 then 0 else 0xFFFFFFFF) 31

-- `(arm_read_cpsr(p) >> C) & 1`
abbrev pub carry_flag : ArmCore → ℕ
carry_flag p = get_bit (arm_read_cpsr p) c_bit

module _ (p : ArmCore) (bit_4 rs_7_0 val_imm : ℕ) where
  -- The amount that the cases LSL, LSR and ROR use.
  abbrev pub amount : ℕ
  amount = if nonzero bit_4 then rs_7_0 else val_imm

  -- The four cases of `switch (shift)`; each has the new offset and the carry, if it sets one.
  unfoldable pub shift_lsl : ℕ → Outcome (ℕ × Option ℕ)
  shift_lsl offset =
      if ltb rs_7_0 32 || val_imm != 0
      then (shl32 offset amount >>= λ offset'. with_bit p offset' (sub32 32 amount))
      else if nonzero bit_4 && rs_7_0 == 32
      then with_bit p 0 0
      else if bit_4 == 0
      then ok (offset, some (carry_flag p))
      else ok (offset, none)

  unfoldable pub shift_lsr : ℕ → Outcome (ℕ × Option ℕ)
  shift_lsr offset =
      if ltb rs_7_0 32 || val_imm != 0
      then (shr32 offset amount >>= λ offset'. with_bit p offset' (sub32 amount 1))
      else if nonzero bit_4 && rs_7_0 == 32 || bit_4 == 0 && val_imm == 0
      then with_bit p 0 31
      else ok (offset, none)

  unfoldable pub shift_asr : ℕ → Outcome (ℕ × Option ℕ)
  shift_asr offset =
      if nonzero bit_4 && ltb rs_7_0 32
      then (asr offset rs_7_0 >>= λ offset'. with_bit p offset' (sub32 rs_7_0 1))
      else if nonzero bit_4 && leb 32 rs_7_0 || bit_4 == 0 && val_imm == 0
      then shift_sign p offset
      else if bit_4 == 0 && val_imm != 0
      then (asr offset val_imm >>= λ offset'. with_bit p offset' (sub32 val_imm 1))
      else ok (offset, none)

  unfoldable pub shift_ror : ℕ → ℕ → Outcome (ℕ × Option ℕ)
  shift_ror rs_4_0 offset =
      if ltb 0 rs_4_0 || val_imm != 0
      then (ror offset amount >>= λ offset'. with_bit p offset' (sub32 amount 1))
      else if nonzero bit_4 && rs_4_0 == 0
      then with_bit p offset 31
      else if bit_4 == 0 && val_imm == 0
      then with_bit p (bit_or (u32 (carry_flag p * 2 ^ 31)) (offset / 2)) 0
      else ok (offset, none)

  unfoldable pub shift_switch : ℕ → ℕ → ℕ → Outcome (ℕ × Option ℕ)
  shift_switch rs_4_0 kind offset =
      if kind == 0
      then shift_lsl offset
      else if kind == 1
      then shift_lsr offset
      else if kind == 2
      then shift_asr offset
      else shift_ror rs_4_0 offset

-- Stores the carry of a case through the pointer.
abbrev pub set_carry : Option ℕ → ℕ × Option ℕ → ℕ × Option ℕ
set_carry out (offset, none) = (offset, out)
set_carry out (offset, some carry) = (offset, update_shifter_carry_out out carry)

-- The result is the offset, with `*shifter_carry_out` after the call.
unfoldable pub shift : ArmCore → ℕ → Option ℕ → Outcome (ℕ × Option ℕ)
shift p instruction out =
    let kind = get_bits instruction 6 5 in
    let offset = arm_read_register p (get_bits instruction 3 0) in
    let bit_4 = get_bit instruction 4 in
    let val_reg = arm_read_register p (get_bits instruction 11 8) in
    let rs_7_0 = get_bits val_reg 7 0 in
    let rs_4_0 = get_bits val_reg 4 0 in
    let val_imm = get_bits instruction 11 7 in
    if nonzero bit_4 && rs_7_0 == 0 && leb kind 3
    then ok (offset, update_shifter_carry_out out (carry_flag p))
    else if nonzero bit_4 && ltb kind 2 && ltb 32 rs_7_0
    then ok (0, update_shifter_carry_out out 0)
    else shift_switch p bit_4 rs_7_0 val_imm rs_4_0 kind offset >>= λ result.
        ok (set_carry out result)

-- The cases of `switch (cond)`, by the flags.
unfoldable pub condition : ℕ → ℕ → Bool
condition word cond =
    let v_flag = nonzero (get_bit word v_bit) in
    let c_flag = nonzero (get_bit word c_bit) in
    let z_flag = nonzero (get_bit word z_bit) in
    let n_flag = nonzero (get_bit word n_bit) in
    let same = get_bit word n_bit == get_bit word v_bit in
    if cond == 0
    then z_flag
    else if cond == 1
    then not z_flag
    else if cond == 2
    then c_flag
    else if cond == 3
    then not c_flag
    else if cond == 4
    then n_flag
    else if cond == 5
    then not n_flag
    else if cond == 6
    then v_flag
    else if cond == 7
    then not v_flag
    else if cond == 8
    then c_flag || z_flag
    else if cond == 9
    then not c_flag || z_flag
    else if cond == 10
    then same
    else if cond == 11
    then not same
    else if cond == 12
    then not z_flag && same
    else if cond == 13
    then z_flag || not same
    else if cond == 14
    then true
    else false
