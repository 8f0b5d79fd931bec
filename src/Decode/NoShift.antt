-- ===== src/Decode/NoShift.antt =====
-- The plain register operand, `LSL #0`: the case of `shift` that most instructions use.
use projet_s5_prog.Common.{Option, arith, fault, ℕ, ◌%◌, ◌<◌, ◌↔◌, ◌≡◌}
use projet_s5_prog.Util.{get_bit, get_bits, shl32, shr32}
use projet_s5_prog.Core.{ArmCore, arm_read_register}
use projet_s5_prog.Decode.{register_bit, shift, shift_lsl, shift_switch, with_bit}

-- For a register operand with bits 11 to 4 clear, the plain `LSL #0`, the shift is undefined, by a
-- shift of 32 places, exactly if the low byte of register 0 is below 32.
pub shift-lsl_zero :
    (p : ArmCore) (ins : ℕ) (out : Option ℕ)
    → get_bits ins 11 4 ≡ 0
    → (shift p ins out ≡ fault) ↔ (arm_read_register p 0 % 256 < 32)
unfolding shift shift_switch shift_lsl with_bit register_bit shl32 shr32
shift-lsl_zero p ins out plain =
    let bit_4 : get_bit ins 4 ≡ 0 = omega arith in
    let kind : get_bits ins 6 5 ≡ 0 = omega arith in
    let amount_zero : get_bits ins 11 7 ≡ 0 = omega arith in
    let rs : get_bits ins 11 8 ≡ 0 = omega arith in ground arith
