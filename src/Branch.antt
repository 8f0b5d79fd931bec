-- ===== src/Branch.antt =====
-- arm_branch_other.c: branches, the software interrupt and the read of a status register.
pub mod Target
use projet_s5_prog.Common.{
  Outcome, add32, bit_and, bit_or, exit_program, if◌then◌else◌, minus_one, nonzero, ok, sub32, u32,
  ℕ, ◌!=◌, ◌*◌, ◌==◌, ◌^◌,
}
use projet_s5_prog.Constants.{software_interrupt, undefined_instruction}
use projet_s5_prog.Util.{get_bit, get_bits}
use projet_s5_prog.Core.{
  ArmCore, arm_read_cpsr, arm_read_register, arm_read_spsr, arm_write_register,
}

-- The constant is the hexadecimal 0xb111111; shifted by 23 places it keeps its 9 low bits.
unfoldable pub signed_extend30 : ℕ → ℕ
signed_extend30 ins =
    let mod_ = get_bits ins 23 0 in
    if nonzero (get_bit ins 23) then bit_or (u32 (0xb111111 * 2 ^ 23)) mod_ else mod_

unfoldable pub arm_branch : ArmCore → ℕ → ℕ × ArmCore
unfolding signed_extend30
arm_branch p ins =
    let p1 =
      if nonzero (get_bit ins 24)
      then arm_write_register p 14 (sub32 (arm_read_register p 15) 4)
      else p in
    if get_bits ins 31 28 != 0xF
    then (
      0,
      arm_write_register p1 15
          (add32 (arm_read_register p1 15) (u32 (signed_extend30 ins * 2 ^ 2))),
    )
    else (minus_one, p)

unfoldable pub arm_coprocessor_others_swi : ArmCore → ℕ → Outcome ℕ
arm_coprocessor_others_swi p ins =
    if nonzero (get_bit ins 24)
    then if bit_and ins 0xFFFFFF == 0x123456 then exit_program else ok software_interrupt
    else ok undefined_instruction

unfoldable pub arm_miscellaneous : ArmCore → ℕ → ℕ × ArmCore
arm_miscellaneous p ins =
    if get_bits ins 21 20 == 0
    then (
      0,
      arm_write_register p (get_bits ins 15 12)
          (if nonzero (get_bit ins 22) then arm_read_spsr p else arm_read_cpsr p),
    )
    else (0, p)
