-- ===== src/Examples/Running.antt =====
-- The theorems on the processor as a whole and on its steps, at concrete states.
use projet_s5_prog.Common.{
  arith, false, if◌then◌else◌, ok, refl, some, true, u32, ℕ, ◌%◌, ◌+◌, ◌/◌, ◌<◌, ◌==◌, ◌^◌, ◌≡◌,
}
use projet_s5_prog.Constants.{cpsr, svc}
use projet_s5_prog.Common.Ensures.{Ensures}
use projet_s5_prog.Memory.{update}
use projet_s5_prog.Memory.Access.{word_at}
use projet_s5_prog.Registers.{get_mode, read_cpsr, registers_create, write_cpsr, write_usr_register}
use projet_s5_prog.Core.{
  ArmCore, arm_create, arm_exception, arm_fetch, arm_get_cycle_count, arm_read_cpsr,
  arm_read_register, arm_write_cpsr, arm_write_usr_register,
}
use projet_s5_prog.Core.Fetch.{arm_fetch_lem, fetched}
use projet_s5_prog.Decode.{condition}
use projet_s5_prog.Instruction.{arm_step}
use projet_s5_prog.Instruction.Frame.{KeepsStep, arm_step-Keeps}
use projet_s5_prog.Instruction.Paths.{arm_step-condition_fails}
use projet_s5_prog.Instruction.Reachable.{Steps, arm_create-Steps, start, then_step}
use projet_s5_prog.Examples.{machine, machine-IsWords, zeros}

-- What `malloc` gives for the registers.
abbrev block : ℕ → ℕ
block j = 7

-- The processor after reset.
abbrev reset_machine : ArmCore
reset_machine = record {
  cycle_count = 0;
  reg = record { regs = update (update block cpsr 0x1d3) 15 0 };
  mem = zeros;
}

reset_machine-made : arm_create true (some block) zeros ≡ ok (some reset_machine)
unfolding arm_create registers_create arm_exception arm_write_usr_register arm_write_cpsr
    write_usr_register write_cpsr
reset_machine-made = refl

arm_fetch_lem_example :
    (p' : ArmCore) × (arm_fetch reset_machine ≡ ok (some (word_at zeros 0), p'))
    × (arm_read_register p' 15 ≡ u32 (0 + 8))
    × (p'.mem ≡ zeros)
    × (p'.cycle_count ≡ u32 (0 + 1))
    × ((j : ℕ) → p'.reg.regs j ≡ (if j == 15 then 0 + 4 else reset_machine.reg.regs j))
arm_fetch_lem_example =
    arm_fetch_lem reset_machine 0 refl refl (omega arith) (omega arith) (λ j. omega arith)

-- The word 0 is an instruction for equal, and the Z flag is clear after reset.
not_equal : condition (arm_read_cpsr reset_machine) (word_at zeros 0 / 2 ^ 28) ≡ false
unfolding condition arm_read_cpsr read_cpsr
not_equal = refl

arm_step-condition_fails_example :
    arm_step reset_machine
    ≡ ok (
      0,
      record reset_machine {
        cycle_count = u32 (0 + 1);
        reg = record { regs = update reset_machine.reg.regs 15 (0 + 4) };
      },
    )
arm_step-condition_fails_example =
    arm_step-condition_fails reset_machine 0 refl refl (omega arith) (omega arith)
      (λ j. omega arith) not_equal

arm_step-Keeps_example : Ensures (KeepsStep machine) (arm_step machine)
arm_step-Keeps_example = arm_step-Keeps machine machine-IsWords

one_step : Steps reset_machine 1 (fetched reset_machine 0)
one_step = then_step start (
    arm_step-condition_fails reset_machine 0 refl refl (omega arith) (omega arith)
      (λ j. omega arith) not_equal)

arm_create-Steps_example :
    (arm_read_cpsr (fetched reset_machine 0) % 2 ^ 28 ≡ 0x1d3)
    × (get_mode (fetched reset_machine 0).reg ≡ svc)
    × (arm_get_cycle_count (fetched reset_machine 0) ≡ u32 1)
    × ((fetched reset_machine 0).mem.size ≡ zeros.size)
    × ((fetched reset_machine 0).mem.is_big_endian ≡ zeros.is_big_endian)
    × ((j : ℕ) → (fetched reset_machine 0).reg.regs j < 2 ^ 32)
    × ((j : ℕ) → (fetched reset_machine 0).mem.adresses j < 256)
arm_create-Steps_example =
    arm_create-Steps block zeros reset_machine (fetched reset_machine 0) 1 (λ j. omega arith)
      (λ j. omega arith) reset_machine-made one_step
