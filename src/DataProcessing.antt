-- ===== src/DataProcessing.antt =====
-- arm_data_processing.c: the arithmetic and logical instructions and their flags.
pub mod FlagUpdate
pub mod Tests
pub mod Alu
pub mod NoFlags
use mathlib.Core.Option
use projet_s5_prog.Common.{
  Option, Outcome, add32, bit_and, bit_or, bit_xor, if◌then◌else◌, lnot, ltb, minus_one, nonzero,
  not, of_bool, ok, some, sub32, ℕ, ◌!=◌, ◌&&◌, ◌-◌, ◌/◌, ◌==◌, ◌>>=◌, ◌^◌, ◌||◌,
}
use projet_s5_prog.Constants.{c_bit, n_bit, undefined_instruction, v_bit, z_bit}
use projet_s5_prog.Util.{clr_bit, get_bit, get_bits, set_bit}
use projet_s5_prog.Core.{
  ArmCore, arm_current_mode_has_spsr, arm_read_cpsr, arm_read_register, arm_read_spsr,
  arm_write_cpsr, arm_write_register,
}
use projet_s5_prog.Decode.{condition, shift}

abbrev pub opcode : ℕ → ℕ
opcode ins = get_bits ins 24 21

-- The result, and `*alu_out` after the call, which stood at `alu_out` before.
unfoldable pub calcul : ArmCore → ℕ → ℕ → ℕ → ℕ × ℕ
calcul p ins value alu_out =
    let op = opcode ins in
    let rn = arm_read_register p (get_bits ins 19 16) in
    let c_flag = get_bit (arm_read_cpsr p) c_bit in
    if op == 0
    then (bit_and rn value, alu_out)
    else if op == 1
    then (bit_xor rn value, alu_out)
    else if op == 2
    then (sub32 rn value, alu_out)
    else if op == 3
    then (sub32 value rn, alu_out)
    else if op == 4
    then (add32 rn value, alu_out)
    else if op == 5
    then (add32 (add32 rn value) c_flag, alu_out)
    else if op == 6
    then (sub32 (sub32 rn value) (lnot c_flag), alu_out)
    else if op == 7
    then (sub32 (sub32 value rn) (lnot c_flag), alu_out)
    else if op == 8
    then (undefined_instruction, bit_and rn value)
    else if op == 9
    then (undefined_instruction, bit_xor rn value)
    else if op == 10
    then (undefined_instruction, sub32 rn value)
    else if op == 11
    then (undefined_instruction, add32 rn value)
    else if op == 12
    then (bit_or rn value, alu_out)
    else if op == 13
    then (value, alu_out)
    else if op == 14
    then (bit_and rn (lnot value), alu_out)
    else (lnot value, alu_out)

-- `2^32` is the exclusive or of C, 34, so the bound is 33 and not 2 ^ 32 - 1.
unfoldable pub carry_from : ℕ → ℕ → ℕ
carry_from a b =
    let bound = bit_xor 2 32 - 1 in if ltb (sub32 bound b) a || ltb (sub32 bound a) b then 1 else 0

unfoldable pub borrow_from : ℕ → ℕ → ℕ
borrow_from a b = if ltb a b then 1 else 0

-- `op` is the character '+' or '-'.
unfoldable pub overflow_from : ℕ → ℕ → ℕ → ℕ
overflow_from a b op =
    if op == b'+'
    then if get_bit a 31 == get_bit b 31 && get_bit a 31 != get_bit (add32 a b) 31 then 1 else 0
    else if op == b'-'
    then if get_bit a 31 != get_bit b 31 && get_bit a 31 != get_bit (sub32 a b) 31 then 1 else 0
    else minus_one

-- The local variables of `maj_flags` that its end writes to the CPSR.
pub record Flags : Type 0 where
  pub n_flag : ℕ
  pub z_flag : ℕ
  pub c_flag : ℕ
  pub v_flag : ℕ

unfoldable pub flags_of : ℕ → Flags
flags_of val_cpsr = record {
  n_flag = get_bit val_cpsr n_bit;
  z_flag = get_bit val_cpsr z_bit;
  c_flag = get_bit val_cpsr c_bit;
  v_flag = get_bit val_cpsr v_bit;
}

-- The inner `switch` of `maj_flags`, for the operations that write a register. The operands are
-- the number of Rn and the low 12 bits of the instruction.
unfoldable pub arithmetic_flags : Flags → ℕ → ℕ → ℕ → ℕ → Flags
arithmetic_flags f op rn shifter_operand shifter_carry_out =
    let s = shifter_operand in
    if op == 0 || op == 1 || op == 12 || op == 13 || op == 14 || op == 15
    then record f { c_flag = shifter_carry_out }
    else if op == 2
    then record f { c_flag = lnot (borrow_from rn s); v_flag = overflow_from rn s b'-' }
    else if op == 3
    then record f { c_flag = lnot (borrow_from s rn); v_flag = overflow_from s rn b'-' }
    else if op == 4
    then record f { c_flag = carry_from rn s; v_flag = overflow_from rn s b'+' }
    else if op == 5
    then (let c =
          if nonzero (carry_from rn s) then carry_from rn s else carry_from (add32 rn s) f.c_flag in
        let v =
          if nonzero (overflow_from rn s b'+')
          then overflow_from rn s b'+'
          else overflow_from (add32 rn s) c b'+' in
        record f { c_flag = c; v_flag = v })
    else if op == 6
    then (let c =
          if borrow_from rn s == 0
          then lnot (borrow_from rn s)
          else lnot (borrow_from (sub32 rn s) (lnot f.c_flag)) in
        let v =
          if nonzero (overflow_from rn s b'-')
          then overflow_from rn s b'-'
          else overflow_from (sub32 rn s) (lnot c) b'-' in
        record f { c_flag = c; v_flag = v })
    else if op == 7
    then (let c =
          if borrow_from s rn == 0
          then lnot (borrow_from s rn)
          else lnot (borrow_from (sub32 s rn) (lnot f.c_flag)) in
        let v =
          if nonzero (overflow_from s rn b'-')
          then overflow_from s rn b'-'
          else overflow_from (sub32 s rn) (lnot c) b'-' in
        record f { c_flag = c; v_flag = v })
    else f

-- The outer `switch`: comparisons look at `alu_out`, the others at the register Rd, and at its
-- number for Z.
unfoldable pub new_flags : ArmCore → ℕ → ℕ → ℕ → Flags
new_flags p ins alu_out shifter_carry_out =
    let f = flags_of (arm_read_cpsr p) in
    let rn = get_bits ins 19 16 in
    let shifter_operand = get_bits ins 11 0 in
    let rd = get_bits ins 15 12 in
    let op = opcode ins in
    let compared = record f { n_flag = get_bit alu_out 31; z_flag = of_bool (alu_out == 0) } in
    if op == 8 || op == 9
    then record compared { c_flag = shifter_carry_out }
    else if op == 10
    then record compared {
      c_flag = lnot (borrow_from rn shifter_operand);
      v_flag = overflow_from rn shifter_operand b'-';
    }
    else if op == 11
    then record compared {
      c_flag = carry_from rn shifter_operand;
      v_flag = overflow_from rn shifter_operand b'+';
    }
    else if nonzero (get_bit ins 20) && rd == 15
    then f
    else if nonzero (get_bit ins 20)
    then arithmetic_flags
        (record f { n_flag = get_bit (arm_read_register p rd) 31; z_flag = of_bool (rd == 0) }) op
        rn shifter_operand shifter_carry_out
    else f

-- `if (flag) val = set_bit(val, i); else val = clr_bit(val, i);`
abbrev pub put_flag : ℕ → ℕ → ℕ → ℕ
put_flag word i flag = if nonzero flag then set_bit word i else clr_bit word i

unfoldable pub put_flags : ℕ → Flags → ℕ
put_flags val_cpsr f =
    let w1 = put_flag val_cpsr n_bit f.n_flag in
    let w2 = put_flag w1 z_bit f.z_flag in
    let w3 = put_flag w2 c_bit f.c_flag in put_flag w3 v_bit f.v_flag

-- The write of the saved status, in the middle of the function.
unfoldable pub restore_cpsr : ArmCore → ℕ → ArmCore
restore_cpsr p ins =
    let op = opcode ins in
    let compares = op == 8 || op == 9 || op == 10 || op == 11 in
    if not compares
      && (nonzero (get_bit ins 20) && get_bits ins 15 12 == 15)
      && arm_current_mode_has_spsr p
    then arm_write_cpsr p (arm_read_spsr p)
    else p

-- `val_cpsr` is read at the start, before the saved status is written.
unfoldable pub maj_flags : ArmCore → ℕ → ℕ → ℕ → ArmCore
unfolding flags_of new_flags put_flags restore_cpsr
maj_flags p ins alu_out shifter_carry_out =
    let val_cpsr = arm_read_cpsr p in
    arm_write_cpsr (restore_cpsr p ins)
      (put_flags val_cpsr (new_flags p ins alu_out shifter_carry_out))

-- The operand and the carry of the shifter. `shifter_operand` has 12 bits, so its bit 31 is 0.
unfoldable pub operand : ArmCore → ℕ → Outcome (ℕ × ℕ)
operand p ins =
    if nonzero (get_bit ins 25)
    then ok (
      get_bits ins 7 0,
      (if get_bits ins 11 8 == 0
          then get_bit (arm_read_cpsr p) c_bit
          else get_bit (get_bits ins 11 0) 31),
    )
    else shift p ins (some 0) >>= λ r. ok (r.0, Option.get_or r.1 0)

-- `alu_out` is what the variable holds before it is set: `calcul` sets it where it is used.
unfoldable pub data_processing_from : ℕ → ArmCore → ℕ → Outcome (ℕ × ArmCore)
data_processing_from alu_out p ins =
    if condition (arm_read_cpsr p) (ins / 2 ^ 28)
    then (operand p ins >>= λ o.
        let (value, alu_out') = calcul p ins o.0 alu_out in
        let op = opcode ins in
        let p1 =
          if op != 8 && op != 9 && op != 11 && op != 10
          then arm_write_register p (get_bits ins 15 12) value
          else p in
        ok (0, maj_flags p1 ins alu_out' o.1))
    else ok (undefined_instruction, p)

unfoldable pub arm_data_processing : ArmCore → ℕ → Outcome (ℕ × ArmCore)
unfolding data_processing_from
arm_data_processing p ins = data_processing_from 0 p ins
