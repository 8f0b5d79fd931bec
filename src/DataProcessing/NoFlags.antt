-- ===== src/DataProcessing/NoFlags.antt =====
-- Instructions with S = 0: the result is written and nothing else.
use native.Mathlib.Decide.{ℕ_discrete}
use projet_s5_prog.Common.{
  arith, false, ok, refl, true, ℕ, ◌!=◌, ◌%◌, ◌&&◌, ◌/◌, ◌<◌, ◌^◌, ◌∙◌, ◌≡◌, ◌≢◌,
}
use projet_s5_prog.Core.{ArmCore, arm_read_cpsr, arm_write_register}
use projet_s5_prog.Registers.{read_cpsr, write_register}
use projet_s5_prog.Util.{get_bit, get_bits}
use projet_s5_prog.Decode.{condition}
use projet_s5_prog.DataProcessing.{
  arm_data_processing, calcul, data_processing_from, flags_of, maj_flags, new_flags, opcode,
  operand,
}
use projet_s5_prog.DataProcessing.FlagUpdate.{
  compares, flags_word, flags_word-flags_of, maj_flags_lem,
}
use projet_s5_prog.Common.Ensures.{Ensures-ok}
use projet_s5_prog.Constants.{cpsr}
use projet_s5_prog.Core.Keeps.{IsWords, Keeps, arm_write_register-Keeps}
use projet_s5_prog.DataProcessing.Alu.{calcul-lt, operand-lt}

new_flags-kept :
    (p : ArmCore) (ins alu_out carry : ℕ)
    → compares ins ≡ false
    → get_bit ins 20 ≡ 0
    → new_flags p ins alu_out carry ≡ flags_of (arm_read_cpsr p)
unfolding new_flags
new_flags-kept p ins alu_out carry other s = ground arith

-- The status written back is the one read.
maj_flags-kept :
    (p : ArmCore) (ins alu_out carry : ℕ)
    → IsWords p
    → compares ins ≡ false
    → get_bit ins 20 ≡ 0
    → (j : ℕ) → (maj_flags p ins alu_out carry).reg.regs j ≡ p.reg.regs j
maj_flags-kept p ins alu_out carry w other s j = entry (ℕ_discrete j cpsr)
  where
    fits : arm_read_cpsr p < 2 ^ 32
    fits = unfold arm_read_cpsr read_cpsr in w.regs_fit cpsr

    facts :
        (arm_read_cpsr (maj_flags p ins alu_out carry)
          ≡ flags_word (new_flags p ins alu_out carry) (arm_read_cpsr p % 2 ^ 28))
        × ((maj_flags p ins alu_out carry).mem ≡ p.mem)
        × ((maj_flags p ins alu_out carry).cycle_count ≡ p.cycle_count)
        × ((j : ℕ) → j ≢ cpsr → (maj_flags p ins alu_out carry).reg.regs j ≡ p.reg.regs j)
    facts = maj_flags_lem p ins alu_out carry fits

    status : arm_read_cpsr (maj_flags p ins alu_out carry) ≡ arm_read_cpsr p
    status =
        facts.0
        ∙ rw (new_flags-kept p ins alu_out carry other s)
            (flags_word-flags_of (arm_read_cpsr p) fits)

    entry : Dec (j ≡ cpsr) → (maj_flags p ins alu_out carry).reg.regs j ≡ p.reg.regs j
    entry (yes e) = rw e (unfold arm_read_cpsr read_cpsr in status)
    entry (no ne) = facts.3 j ne

-- A data-processing instruction with S = 0 that is no comparison, whose condition holds and whose
-- operand is defined, returns 0 and changes nothing but the destination register, as one write of
-- the ALU's result does. The registers are words and the cells bytes.
pub arm_data_processing-no_flags :
    (p : ArmCore) (ins value carry : ℕ)
    → IsWords p
    → condition (arm_read_cpsr p) (ins / 2 ^ 28) ≡ true
    → compares ins ≡ false
    → get_bit ins 20 ≡ 0
    → operand p ins ≡ ok (value, carry)
    → (q : ArmCore) × (arm_data_processing p ins ≡ ok (0, q))
      × (q.mem ≡ p.mem)
      × (q.cycle_count ≡ p.cycle_count)
      × ((j : ℕ)
          → q.reg.regs j
            ≡ (write_register p.reg (get_bits ins 15 12) (calcul p ins value 0).0).regs j)
unfolding arm_data_processing data_processing_from
arm_data_processing-no_flags p ins value carry w passed other s from = (
  maj_flags p1 ins (calcul p ins value 0).1 carry,
  rw (passed, from, writes) refl,
  facts.1 ∙ (unfold arm_write_register in refl),
  facts.2 ∙ (unfold arm_write_register in refl),
  λ j.
      maj_flags-kept p1 ins (calcul p ins value 0).1 carry kept.words other s j
      ∙ (unfold arm_write_register in refl),
)
  where
    p1 : ArmCore
    p1 = arm_write_register p (get_bits ins 15 12) (calcul p ins value 0).0

    kept : Keeps p p1
    kept =
        arm_write_register-Keeps w (get_bits ins 15 12) (calcul p ins value 0).0
          (calcul-lt p ins value 0 w (Ensures-ok (operand-lt ins w) from))

    facts :
        (arm_read_cpsr (maj_flags p1 ins (calcul p ins value 0).1 carry)
          ≡ flags_word
              (new_flags p1 ins (calcul p ins value 0).1 carry)
              (arm_read_cpsr p1 % 2 ^ 28))
        × ((maj_flags p1 ins (calcul p ins value 0).1 carry).mem ≡ p1.mem)
        × ((maj_flags p1 ins (calcul p ins value 0).1 carry).cycle_count ≡ p1.cycle_count)
        × ((j : ℕ)
            → j ≢ cpsr
            → (maj_flags p1 ins (calcul p ins value 0).1 carry).reg.regs j ≡ p1.reg.regs j)
    facts =
        maj_flags_lem p1 ins (calcul p ins value 0).1 carry
          (unfold arm_read_cpsr read_cpsr in kept.words.regs_fit cpsr)

    writes : (opcode ins != 8 && opcode ins != 9 && opcode ins != 11 && opcode ins != 10) ≡ true
    writes = ground arith
