-- ===== src/DataProcessing/Alu.antt =====
-- `calcul` and `arm_data_processing`: the width of the result, what an instruction keeps, and the
-- two operations that take a logical for a bitwise complement.
use native.Mathlib.Decide.{ℕ_discrete}
use projet_s5_prog.Common.{
  Bool, ap, arith, false, if◌then◌else◌, lnot, some, true, ℕ, ◌%◌, ◌<◌, ◌^◌, ◌≡◌, ◌≢◌,
}
use projet_s5_prog.Common.Bits.{bit_and-lt, bit_or-lt, bit_xor-lt}
use projet_s5_prog.Constants.{cpsr}
use projet_s5_prog.Util.{get_bits}
use projet_s5_prog.Registers.{read_cpsr}
use projet_s5_prog.Core.{ArmCore, arm_read_cpsr, arm_read_register, arm_write_register}
use projet_s5_prog.Core.Keeps.{
  IsWords, Keeps, Keeps-refl, Keeps-trans, arm_read_register-lt, arm_write_register-Keeps,
}
use projet_s5_prog.DataProcessing.{
  Flags, arm_data_processing, calcul, data_processing_from, maj_flags, new_flags, operand,
}
use projet_s5_prog.DataProcessing.FlagUpdate.{flag_bit-lt, flags_word, maj_flags_lem}
use projet_s5_prog.Common.Ensures.{Ensures, bind-Ensures, if-Ensures, returns}
use projet_s5_prog.Core.Access.{KeepsRun}
use projet_s5_prog.Decode.Shift.{shift-Fits}

-- The result of every operation of the ALU is a word, for an operand that is a word and registers
-- that are words.
pub calcul-lt :
    (p : ArmCore) (ins value alu_out : ℕ)
    → IsWords p
    → value < 2 ^ 32
    → (calcul p ins value alu_out).0 < 2 ^ 32
unfolding calcul
calcul-lt p ins value alu_out w h =
    let rn = arm_read_register p (get_bits ins 19 16) in
    let rn_fits = arm_read_register-lt w (get_bits ins 19 16) in
    ground (
      arith,
      bit_and-lt 32 rn value rn_fits,
      bit_xor-lt 32 rn value rn_fits h,
      bit_or-lt 32 rn value rn_fits h,
      bit_and-lt 32 rn (lnot value) rn_fits,
    )

flags_word-lt :
    (f : Flags) (low : ℕ)
    → low < 2 ^ 28
    → (flags_word f low < 2 ^ 32) × (flags_word f low % 2 ^ 28 ≡ low)
flags_word-lt f low h =
    omega (
      arith,
      flag_bit-lt f.n_flag,
      flag_bit-lt f.z_flag,
      flag_bit-lt f.c_flag,
      flag_bit-lt f.v_flag,
    )

-- The flags go through `arm_write_cpsr`, over a processor that differs in the CPSR at most.
maj_flags-Keeps :
    {p : ArmCore} (ins alu_out carry : ℕ) → IsWords p → Keeps p (maj_flags p ins alu_out carry)
maj_flags-Keeps {p} ins alu_out carry w = record {
  status = rw status_word ((flags_word-lt f (read_cpsr p.reg % 2 ^ 28) (omega arith)).1);
  cycles = facts.2;
  size = ap (λ m. m.size) facts.1;
  order = ap (λ m. m.is_big_endian) facts.1;
  words = record {
    regs_fit = λ j. entry j (ℕ_discrete j cpsr);
    cells_fit = λ j. rw facts.1 (w.cells_fit j);
  };
}
  where
    f : Flags
    f = new_flags p ins alu_out carry

    facts :
        (arm_read_cpsr (maj_flags p ins alu_out carry) ≡ flags_word f (arm_read_cpsr p % 2 ^ 28))
        × ((maj_flags p ins alu_out carry).mem ≡ p.mem)
        × ((maj_flags p ins alu_out carry).cycle_count ≡ p.cycle_count)
        × ((j : ℕ) → j ≢ cpsr → (maj_flags p ins alu_out carry).reg.regs j ≡ p.reg.regs j)
    facts = maj_flags_lem p ins alu_out carry (unfold arm_read_cpsr read_cpsr in w.regs_fit cpsr)

    status_word :
        read_cpsr (maj_flags p ins alu_out carry).reg ≡ flags_word f (read_cpsr p.reg % 2 ^ 28)
    status_word = unfold arm_read_cpsr in facts.0

    status_entry :
        (maj_flags p ins alu_out carry).reg.regs cpsr ≡ flags_word f (read_cpsr p.reg % 2 ^ 28)
    status_entry = unfold read_cpsr in status_word

    entry : (j : ℕ) → Dec (j ≡ cpsr) → (maj_flags p ins alu_out carry).reg.regs j < 2 ^ 32
    entry j (yes e) =
        rw (e, status_entry) ((flags_word-lt f (read_cpsr p.reg % 2 ^ 28) (omega arith)).0)
    entry j (no ne) = rw (facts.3 j ne) (w.regs_fit j)

-- The operand of the shifter is a word.
pub operand-lt : {p : ArmCore} (ins : ℕ) → IsWords p → Ensures (λ o. o.0 < 2 ^ 32) (operand p ins)
unfolding operand
operand-lt {p} ins w =
    let small : get_bits ins 7 0 < 2 ^ 32 = omega arith in
    if-Ensures _ _ _ (returns small) (bind-Ensures (shift-Fits ins (some 0) w) λ r h. returns h)

written_register-Keeps :
    {p : ArmCore} (ins value : ℕ) (b : Bool)
    → IsWords p
    → value < 2 ^ 32
    → Keeps p (if b then arm_write_register p (get_bits ins 15 12) value else p)
written_register-Keeps ins value true w h = arm_write_register-Keeps w (get_bits ins 15 12) value h
written_register-Keeps ins value false w h = Keeps-refl w

-- A data-processing instruction that returns leaves the CPSR below the flags, the cycle counter,
-- the size and the byte order of the memory, and keeps registers words and cells bytes.
pub arm_data_processing-Keeps :
    {p : ArmCore} (ins : ℕ) → IsWords p → KeepsRun p (arm_data_processing p ins)
unfolding arm_data_processing data_processing_from
arm_data_processing-Keeps {p} ins w =
    if-Ensures _ _ _
      (bind-Ensures (operand-lt ins w) λ o h.
        let stored =
          written_register-Keeps ins (calcul p ins o.0 0).0 _ w (calcul-lt p ins o.0 0 w h) in
        returns (Keeps-trans stored (maj_flags-Keeps ins (calcul p ins o.0 0).1 o.1 stored.words)))
      (returns (Keeps-refl w))
