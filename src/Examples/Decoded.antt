-- ===== src/Examples/Decoded.antt =====
-- The theorems on the decoding and on the data-processing instructions, at concrete values.
use projet_s5_prog.Common.{
  arith, fault, if◌then◌else◌, ok, refl, some, true, ℕ, ◌%◌, ◌+◌, ◌/◌, ◌<◌, ◌==◌, ◌^◌, ◌↔◌, ◌≡◌,
  ◌≤◌,
}
use projet_s5_prog.Constants.{cpsr}
use projet_s5_prog.Util.{get_bits}
use projet_s5_prog.Registers.{read_cpsr, write_register}
use projet_s5_prog.Core.{ArmCore, arm_read_cpsr, arm_read_register}
use projet_s5_prog.Decode.{condition, shift}
use projet_s5_prog.Decode.Condition.{condition_lem, condition_passed}
use projet_s5_prog.Decode.NoShift.{shift-lsl_zero}
use projet_s5_prog.DataProcessing.{
  Flags, arm_data_processing, calcul, maj_flags, new_flags, operand, overflow_from,
}
use projet_s5_prog.DataProcessing.FlagUpdate.{flags_word, maj_flags-registers}
use projet_s5_prog.DataProcessing.NoFlags.{arm_data_processing-no_flags}
use projet_s5_prog.Examples.{machine, machine-IsWords}
use projet_s5_prog.Decode.Manual.{shift-manual, shift_result}
use projet_s5_prog.DataProcessing.Tests.{biased, overflow_from_lem}

-- `ADD R1, R2, #5`, `ADDS R1, R2, #5`, `MOV R1, R2` and `SUBS PC, R14, #4`
abbrev add : ℕ
add = 0xE2821005

abbrev adds : ℕ
adds = 0xE2921005

abbrev mov : ℕ
mov = 0xE1A01002

abbrev subs_pc : ℕ
subs_pc = 0xE25EF004

condition_lem_example : condition 0x40000000 12 ≡ condition_passed 0x40000000 12
condition_lem_example = condition_lem 0x40000000 12 (omega arith) (omega arith)

shift-lsl_zero_example :
    (shift machine mov (some 0) ≡ fault) ↔ (arm_read_register machine 0 % 256 < 32)
shift-lsl_zero_example = shift-lsl_zero machine mov (some 0) refl

abbrev zero_and_carry : Flags
zero_and_carry = record { n_flag = 0; z_flag = 1; c_flag = 1; v_flag = 0 }

machine-cpsr : arm_read_cpsr machine ≡ 0x1d3
unfolding arm_read_cpsr read_cpsr
machine-cpsr = refl

machine-cpsr-lt : arm_read_cpsr machine < 2 ^ 32
machine-cpsr-lt = omega (arith, machine-cpsr)

maj_flags-registers_example :
    let q = maj_flags machine adds 0 1 in
    (q.mem ≡ machine.mem)
    × (q.cycle_count ≡ machine.cycle_count)
    × ((j : ℕ)
        → q.reg.regs j ≡ (
            if j == cpsr
            then flags_word (new_flags machine adds 0 1) (arm_read_cpsr machine % 2 ^ 28)
            else machine.reg.regs j))
maj_flags-registers_example = maj_flags-registers machine adds 0 1 machine-cpsr-lt

always : condition (arm_read_cpsr machine) (add / 2 ^ 28) ≡ true
unfolding condition
always = refl

immediate : operand machine add ≡ ok (5, 0)
unfolding operand arm_read_cpsr read_cpsr
immediate = refl

arm_data_processing-no_flags_example :
    (q : ArmCore) × (arm_data_processing machine add ≡ ok (0, q))
    × (q.mem ≡ machine.mem)
    × (q.cycle_count ≡ machine.cycle_count)
    × ((j : ℕ)
        → q.reg.regs j
          ≡ (write_register machine.reg (get_bits add 15 12) (calcul machine add 5 0).0).regs j)
arm_data_processing-no_flags_example =
    arm_data_processing-no_flags machine add 5 0 machine-IsWords always refl refl immediate

-- MOV R1, R2, LSL #4
abbrev mov_shifted : ℕ
mov_shifted = 0xe1a01202

shift-manual_example :
    shift machine mov_shifted (some 0) ≡ ok (shift_result machine mov_shifted (some 0))
shift-manual_example =
    shift-manual machine mov_shifted (some 0) machine-IsWords (omega arith) (omega arith)

overflow_from_lem_example :
    ((overflow_from 0x7fffffff 1 b'+' ≡ 0) ↔ (
      (2 ^ 31 ≤ biased 0x7fffffff + biased 1) × (biased 0x7fffffff + biased 1 < 2 ^ 31 + 2 ^ 32)))
    × ((overflow_from 0x7fffffff 1 b'-' ≡ 0)
        ↔ ((biased 1 ≤ biased 0x7fffffff + 2 ^ 31) × (biased 0x7fffffff < biased 1 + 2 ^ 31)))
overflow_from_lem_example = overflow_from_lem 0x7fffffff 1 (omega arith) (omega arith)
