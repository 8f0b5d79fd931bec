-- ===== src/DataProcessing/FlagUpdate.antt =====
-- `maj_flags`: which bits of the CPSR it changes, and the tests that it computes the flags with.
use projet_s5_prog.Common.{
  Bool, arith, false, if◌then◌else◌, leb, nonzero, of_bool, ℕ, ◌%◌, ◌&&◌, ◌*◌, ◌+◌, ◌/◌, ◌<◌, ◌==◌,
  ◌^◌, ◌↔◌, ◌∙◌, ◌≡◌, ◌≢◌,
}
use projet_s5_prog.Util.Laws.{clr_bit-sum, set_bit-sum}
use projet_s5_prog.DataProcessing.{
  Flags, arithmetic_flags, flags_of, maj_flags, new_flags, opcode, operand, put_flag, put_flags,
  restore_cpsr,
}
use projet_s5_prog.Constants.{cpsr, z_bit}
use projet_s5_prog.Util.{get_bit, get_bits}
use projet_s5_prog.Registers.{read_cpsr, write_cpsr}
use projet_s5_prog.Core.{ArmCore, arm_read_cpsr, arm_read_register, arm_write_cpsr}

-- The flag as a bit.
abbrev pub flag_bit : ℕ → ℕ
flag_bit flag = of_bool (nonzero flag)

module _ (word flag : ℕ) (fits : word < 2 ^ 32) where
  put_n : put_flag word 31 flag ≡ flag_bit flag * 2 ^ 31 + word % 2 ^ 31
  put_n = ground (arith, set_bit-sum word 31, clr_bit-sum word 31)

  put_z : put_flag word 30 flag ≡ word / 2 ^ 31 * 2 ^ 31 + flag_bit flag * 2 ^ 30 + word % 2 ^ 30
  put_z = ground (arith, set_bit-sum word 30, clr_bit-sum word 30)

  put_c : put_flag word 29 flag ≡ word / 2 ^ 30 * 2 ^ 30 + flag_bit flag * 2 ^ 29 + word % 2 ^ 29
  put_c = ground (arith, set_bit-sum word 29, clr_bit-sum word 29)

  put_v : put_flag word 28 flag ≡ word / 2 ^ 29 * 2 ^ 29 + flag_bit flag * 2 ^ 28 + word % 2 ^ 28
  put_v = ground (arith, set_bit-sum word 28, clr_bit-sum word 28)

-- The word that a set of flags makes on top of 28 other bits.
abbrev pub flags_word : Flags → ℕ → ℕ
flags_word f low =
    flag_bit f.n_flag * 2 ^ 31
    + flag_bit f.z_flag * 2 ^ 30
    + flag_bit f.c_flag * 2 ^ 29
    + flag_bit f.v_flag * 2 ^ 28
    + low

pub flag_bit-lt : (flag : ℕ) → flag_bit flag < 2
flag_bit-lt flag = ground arith

-- The end of `maj_flags` sets bits 31 to 28 of a word to the four flags and leaves its other 28
-- bits.
pub put_flags_lem :
    (word : ℕ) (f : Flags) → word < 2 ^ 32 → put_flags word f ≡ flags_word f (word % 2 ^ 28)
unfolding put_flags
put_flags_lem word f fits = rw (put_n word f.n_flag fits) (
    let h1 = flag_bit-lt f.n_flag in
    let h2 = flag_bit-lt f.z_flag in
    let h3 = flag_bit-lt f.c_flag in
    let h4 = flag_bit-lt f.v_flag in
    let w1 = flag_bit f.n_flag * 2 ^ 31 + word % 2 ^ 31 in
    rw (put_z w1 f.z_flag (omega arith)) (
      let w2 = w1 / 2 ^ 31 * 2 ^ 31 + flag_bit f.z_flag * 2 ^ 30 + w1 % 2 ^ 30 in
      rw (put_c w2 f.c_flag (omega arith)) (
        let w3 = w2 / 2 ^ 30 * 2 ^ 30 + flag_bit f.c_flag * 2 ^ 29 + w2 % 2 ^ 29 in
        rw (put_v w3 f.v_flag (omega arith)) (omega arith))))

-- The status after `maj_flags`, and what stays.
pub maj_flags_lem :
    (p : ArmCore) (ins alu_out shifter_carry_out : ℕ)
    → arm_read_cpsr p < 2 ^ 32
    → let q = maj_flags p ins alu_out shifter_carry_out in
      (arm_read_cpsr q
        ≡ flags_word (new_flags p ins alu_out shifter_carry_out) (arm_read_cpsr p % 2 ^ 28))
      × (q.mem ≡ p.mem)
      × (q.cycle_count ≡ p.cycle_count)
      × ((j : ℕ) → j ≢ cpsr → q.reg.regs j ≡ p.reg.regs j)
unfolding maj_flags restore_cpsr arm_write_cpsr arm_read_cpsr write_cpsr read_cpsr
maj_flags_lem p ins alu_out shifter_carry_out fits = (
  put_flags_lem (read_cpsr p.reg) (new_flags p ins alu_out shifter_carry_out) fits,
  ground arith,
  ground arith,
  λ j ne. ground arith,
)

-- `maj_flags` writes one register, the CPSR: it gets the four flags that the tests of the
-- instruction compute and keeps its other 28 bits. The memory and the cycle counter stay. The
-- CPSR is given as a word.
pub maj_flags-registers :
    (p : ArmCore) (ins alu_out shifter_carry_out : ℕ)
    → arm_read_cpsr p < 2 ^ 32
    → let q = maj_flags p ins alu_out shifter_carry_out in
      (q.mem ≡ p.mem)
      × (q.cycle_count ≡ p.cycle_count)
      × ((j : ℕ)
          → q.reg.regs j ≡ (
              if j == cpsr
              then flags_word (new_flags p ins alu_out shifter_carry_out) (arm_read_cpsr p % 2 ^ 28)
              else p.reg.regs j))
unfolding arm_read_cpsr read_cpsr
maj_flags-registers p ins alu_out shifter_carry_out fits =
    let facts = maj_flags_lem p ins alu_out shifter_carry_out fits in
    (facts.1, facts.2, λ j. ground (arith, facts.0, facts.3 j))

-- The opcodes of TST, TEQ, CMP and CMN.
abbrev pub compares : ℕ → Bool
compares ins = leb 8 (opcode ins) && leb (opcode ins) 11

pub flags_word-flags_of :
    (word : ℕ) → word < 2 ^ 32 → flags_word (flags_of word) (word % 2 ^ 28) ≡ word
unfolding flags_of
flags_word-flags_of word h = ground arith

-- An instruction that is no comparison and writes the pc leaves the CPSR as it was: the saved
-- status that it is to restore is overwritten. The CPSR is given as a word.
pub maj_flags-pc :
    (p : ArmCore) (ins alu_out shifter_carry_out : ℕ)
    → arm_read_cpsr p < 2 ^ 32
    → compares ins ≡ false
    → get_bits ins 15 12 ≡ 15
    → arm_read_cpsr (maj_flags p ins alu_out shifter_carry_out) ≡ arm_read_cpsr p
maj_flags-pc p ins alu_out shifter_carry_out fits other rd =
    (maj_flags_lem p ins alu_out shifter_carry_out fits).0
    ∙ rw same (flags_word-flags_of (arm_read_cpsr p) fits)
  where
    same : new_flags p ins alu_out shifter_carry_out ≡ flags_of (arm_read_cpsr p)
    same = unfold new_flags in ground arith

z_flag-arithmetic_flags :
    (f : Flags) (op rn operand carry : ℕ)
    → (arithmetic_flags f op rn operand carry).z_flag ≡ f.z_flag
unfolding arithmetic_flags
z_flag-arithmetic_flags f op rn operand carry = ground arith

-- An instruction with S = 1 that is no comparison and does not write the pc sets the Z flag
-- exactly if the number of its destination register is 0. The CPSR is given as a word.
pub maj_flags-zero :
    (p : ArmCore) (ins alu_out shifter_carry_out : ℕ)
    → arm_read_cpsr p < 2 ^ 32
    → compares ins ≡ false
    → get_bit ins 20 ≡ 1
    → get_bits ins 15 12 ≢ 15
    → (get_bit (arm_read_cpsr (maj_flags p ins alu_out shifter_carry_out)) z_bit ≡ 1)
      ↔ (get_bits ins 15 12 ≡ 0)
maj_flags-zero p ins alu_out shifter_carry_out fits other s rd =
    ground (arith, (maj_flags_lem p ins alu_out shifter_carry_out fits).0, zf)
  where
    zf : (new_flags p ins alu_out shifter_carry_out).z_flag ≡ of_bool (get_bits ins 15 12 == 0)
    zf =
        unfold new_flags in
        ground (
          arith,
          z_flag-arithmetic_flags
              (record (flags_of (arm_read_cpsr p)) {
                n_flag = get_bit (arm_read_register p (get_bits ins 15 12)) 31;
                z_flag = of_bool (get_bits ins 15 12 == 0);
              })
              (opcode ins) (get_bits ins 19 16) (get_bits ins 11 0) shifter_carry_out,
        )
