-- ===== src/Core/Reset.antt =====
-- `arm_create`: the state after reset, and the failures of its two allocations.
use projet_s5_prog.Common.{arith, if◌then◌else◌, ok, refl, some, true, ℕ, ◌==◌, ◌≡◌}
use projet_s5_prog.Constants.{cpsr, svc}
use projet_s5_prog.Memory.{Memory, update}
use projet_s5_prog.Registers.{
  get_mode, in_a_privileged_mode, read_cpsr, read_register, registers_create, write_cpsr,
  write_register, write_usr_register,
}
use projet_s5_prog.Core.{
  ArmCore, arm_create, arm_exception, arm_get_cycle_count, arm_in_a_privileged_mode, arm_read_cpsr,
  arm_write_cpsr, arm_write_usr_register,
}

-- With both blocks allocated, `arm_create` gives a processor in supervisor mode with CPSR 0x1d3, a
-- privileged mode, the pc 0, the cycle counter 0 and the given memory, and every register but
-- these two holds what its block of memory held.
pub arm_create_lem :
    (contents : ℕ → ℕ) (mem : Memory)
    → (p : ArmCore) × (arm_create true (some contents) mem ≡ ok (some p))
      × (arm_read_cpsr p ≡ 0x1d3)
      × (get_mode p.reg ≡ svc)
      × (arm_in_a_privileged_mode p ≡ true)
      × (read_register p.reg 15 ≡ 0)
      × (arm_get_cycle_count p ≡ 0)
      × (p.mem ≡ mem)
      × ((j : ℕ) → p.reg.regs j ≡ (if j == 15 then 0 else if j == cpsr then 0x1d3 else contents j))
unfolding arm_create registers_create arm_exception arm_write_usr_register arm_write_cpsr
    arm_read_cpsr arm_in_a_privileged_mode arm_get_cycle_count write_usr_register write_register
    write_cpsr read_register get_mode read_cpsr in_a_privileged_mode
arm_create_lem contents mem = (
  record {
    cycle_count = 0;
    reg = record { regs = update (update contents cpsr 0x1d3) 15 0 };
    mem = mem;
  },
  refl,
  refl,
  refl,
  refl,
  refl,
  refl,
  refl,
  λ j. ground arith,
)
