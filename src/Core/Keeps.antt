-- ===== src/Core/Keeps.antt =====
-- What every instruction keeps: the frame of the processor, and the width of its words and bytes.
use projet_s5_prog.Common.{arith, refl, ℕ, ◌%◌, ◌+◌, ◌<◌, ◌^◌, ◌∙◌, ◌≡◌, ◌⊎◌}
use projet_s5_prog.Registers.{
  Registers, read_cpsr, read_register, read_usr_register, write_cpsr, write_register,
}
use projet_s5_prog.Registers.Laws.{read_cpsr-write_register, write_usr_register_lem}
use projet_s5_prog.Core.{
  ArmCore, arm_read_register, arm_read_usr_register, arm_write_cpsr, arm_write_register,
  arm_write_usr_register,
}
use projet_s5_prog.Core.Fetch.{ahead_lem}

-- Registers are 32-bit words and memory cells are bytes.
pub record IsWords (p : ArmCore) : Type 0 where
  pub regs_fit : (j : ℕ) → p.reg.regs j < 2 ^ 32
  pub cells_fit : (j : ℕ) → p.mem.adresses j < 256

-- From `p` to `q` the CPSR below the flags, the cycle counter and the shape of the memory stay,
-- and so does the width of all values.
pub record Keeps (p q : ArmCore) : Type 0 where
  pub status : read_cpsr q.reg % 2 ^ 28 ≡ read_cpsr p.reg % 2 ^ 28
  pub cycles : q.cycle_count ≡ p.cycle_count
  pub size : q.mem.size ≡ p.mem.size
  pub order : q.mem.is_big_endian ≡ p.mem.is_big_endian
  pub words : IsWords q

pub Keeps-refl : {p : ArmCore} → IsWords p → Keeps p p
Keeps-refl w = record { status = refl; cycles = refl; size = refl; order = refl; words = w }

pub Keeps-trans : {p q s : ArmCore} → Keeps p q → Keeps q s → Keeps p s
Keeps-trans h k = record {
  status = k.status ∙ h.status;
  cycles = k.cycles ∙ h.cycles;
  size = k.size ∙ h.size;
  order = k.order ∙ h.order;
  words = k.words;
}

-- A write to a register changes an entry to the value or not at all.
write_register-entry :
    (r : Registers) (reg value j : ℕ)
    → ((write_register r reg value).regs j ≡ value)
      ⊎ ((write_register r reg value).regs j ≡ r.regs j)
unfolding write_register
write_register-entry r reg value j = ground arith

read_register-lt :
    (r : Registers) (reg : ℕ) → ((j : ℕ) → r.regs j < 2 ^ 32) → read_register r reg < 2 ^ 32
unfolding read_register
read_register-lt r reg h = ground (
  arith,
  h reg,
  h (reg % 8 + 29),
  h 13,
  h 14,
  h 17,
  h 18,
  h 20,
  h 21,
  h 23,
  h 24,
  h 26,
  h 27,
  h 34,
  h 35,
)

read_usr_register-lt :
    (r : Registers) (reg : ℕ) → ((j : ℕ) → r.regs j < 2 ^ 32) → read_usr_register r reg < 2 ^ 32
unfolding read_usr_register
read_usr_register-lt r reg h = ground (arith, h reg, h 13, h 14, h 15)

module _ {p : ArmCore} (w : IsWords p) where
  pub arm_read_register-lt : (reg : ℕ) → arm_read_register p reg < 2 ^ 32
  unfolding arm_read_register
  arm_read_register-lt reg =
      ground (arith, read_register-lt p.reg reg w.regs_fit, ahead_lem (read_register p.reg reg))

  pub arm_read_usr_register-lt : (reg : ℕ) → arm_read_usr_register p reg < 2 ^ 32
  unfolding arm_read_usr_register
  arm_read_usr_register-lt reg =
      ground
        (arith, read_usr_register-lt p.reg reg w.regs_fit, ahead_lem (read_usr_register p.reg reg))

  pub arm_write_register-Keeps :
      (reg value : ℕ) → value < 2 ^ 32 → Keeps p (arm_write_register p reg value)
  unfolding arm_write_register
  arm_write_register-Keeps reg value h = record {
    status = rw read_cpsr-write_register;
    cycles = refl;
    size = refl;
    order = refl;
    words = record {
      regs_fit = λ j. ground (arith, write_register-entry p.reg reg value j, w.regs_fit j);
      cells_fit = w.cells_fit;
    };
  }

  pub arm_write_usr_register-Keeps :
      (reg value : ℕ) → value < 2 ^ 32 → Keeps p (arm_write_usr_register p reg value)
  unfolding arm_write_usr_register
  arm_write_usr_register-Keeps reg value h =
      rw write_usr_register_lem (unfold arm_write_register in arm_write_register-Keeps reg value h)

  pub arm_write_cpsr-Keeps :
      (value : ℕ)
      → value < 2 ^ 32
      → value % 2 ^ 28 ≡ read_cpsr p.reg % 2 ^ 28
      → Keeps p (arm_write_cpsr p value)
  unfolding arm_write_cpsr write_cpsr read_cpsr
  arm_write_cpsr-Keeps value h same = record {
    status = same;
    cycles = refl;
    size = refl;
    order = refl;
    words = record { regs_fit = λ j. ground (arith, w.regs_fit j); cells_fit = w.cells_fit };
  }
