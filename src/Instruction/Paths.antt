-- ===== src/Instruction/Paths.antt =====
-- The paths of one step that do little: a condition that fails, and the software interrupts.
use projet_s5_prog.Common.Bits.{bit_and-ones}
use projet_s5_prog.Common.{
  arith, exit_program, false, if◌then◌else◌, ok, refl, u32, ℕ, ◌%◌, ◌&&◌, ◌+◌, ◌/◌, ◌<◌, ◌==◌, ◌^◌,
  ◌≡◌, ◌≤◌,
}
use projet_s5_prog.Util.{get_bit, get_bits}
use projet_s5_prog.Memory.{update}
use projet_s5_prog.Memory.Access.{word_at}
use projet_s5_prog.Core.{ArmCore, arm_read_cpsr}
use projet_s5_prog.Decode.{condition}
use projet_s5_prog.Branch.{arm_coprocessor_others_swi}
use projet_s5_prog.Instruction.{arm_execute_instruction, arm_step, dispatch, execute_fetched}
use projet_s5_prog.Core.Fetch.{arm_fetch-inside, fetched}
use projet_s5_prog.Registers.{read_cpsr}

-- A step at an aligned address inside the memory, where the condition of the instruction there
-- fails, returns 0; it moves the pc by 4 and counts a cycle, and the rest of the processor stays.
pub arm_step-condition_fails :
    (p : ArmCore) (a : ℕ)
    → p.reg.regs 15 ≡ a
    → a % 4 ≡ 0
    → a + 4 < 2 ^ 32
    → a + 3 < p.mem.size
    → ((j : ℕ) → p.mem.adresses j < 256)
    → condition (arm_read_cpsr p) (word_at p.mem a / 2 ^ 28) ≡ false
    → arm_step p
      ≡ ok (
        0,
        record p {
          cycle_count = u32 (p.cycle_count + 1);
          reg = record { regs = update p.reg.regs 15 (a + 4) };
        },
      )
unfolding arm_step arm_execute_instruction execute_fetched
arm_step-condition_fails p a at aligned room inside bytes fails =
    rw (arm_fetch-inside p a at aligned room inside bytes, same, fails) refl
  where
    same : arm_read_cpsr (fetched p a) ≡ arm_read_cpsr p
    same = unfold arm_read_cpsr read_cpsr in ground arith

-- The instructions of the two last classes, coprocessor transfers and software interrupts, end
-- the program if bit 24 is set and the low 24 bits are 0x123456, and otherwise do nothing.
pub dispatch-software_interrupt :
    (p : ArmCore) (ins : ℕ)
    → 6 ≤ get_bits ins 27 25
    → dispatch p ins
      ≡ (if get_bit ins 24 == 1 && ins % 2 ^ 24 == 0x123456 then exit_program else ok p)
unfolding dispatch arm_coprocessor_others_swi
dispatch-software_interrupt p ins h = ground (arith, bit_and-ones 24 ins)
