-- ===== src/Branch/Target.antt =====
-- Where a branch goes.
use native.Mathlib.Decide.{ℕ_discrete}
use projet_s5_prog.Common.{
  Bool, ap, arith, bit_or, false, if◌then◌else◌, refl, sub32, sym, true, u32, ℕ, ◌!=◌, ◌%◌, ◌*◌,
  ◌+◌, ◌-◌, ◌/◌, ◌==◌, ◌^◌, ◌∙◌, ◌≡◌, ◌≢◌,
}
use projet_s5_prog.Util.{get_bit, get_bits}
use projet_s5_prog.Core.{ArmCore, ahead, arm_read_register, arm_write_register}
use projet_s5_prog.Branch.{arm_branch, signed_extend30}
use projet_s5_prog.Common.Bits.{bit_or-shifted}
use projet_s5_prog.Core.Fetch.{read_register-pc, write_register-pc}
use projet_s5_prog.Registers.{write_register}

-- The program counter that a read gives, at the branch.
abbrev pub branch_base : ArmCore → ℕ
branch_base p = arm_read_register p 15

signed_extend30-forward : (ins : ℕ) → get_bit ins 23 ≡ 0 → signed_extend30 ins ≡ ins % 2 ^ 24
unfolding signed_extend30
signed_extend30-forward ins h = ground arith

signed_extend30-backward :
    (ins : ℕ) → get_bit ins 23 ≡ 1 → signed_extend30 ins ≡ 0x88000000 + ins % 2 ^ 24
unfolding signed_extend30
signed_extend30-backward ins h =
    let top : ins % 2 ^ 24 / 2 ^ 23 ≡ 1 = omega (arith, h) in
    ground (arith, h, bit_or-shifted 23 0x111 (ins % 2 ^ 24), whole)
  where
    whole : bit_or 0x111 (ins % 2 ^ 24 / 2 ^ 23) ≡ 0x111
    whole = let top : ins % 2 ^ 24 / 2 ^ 23 ≡ 1 = omega (arith, h) in rw top refl

-- The link register is not the pc.
link-pc :
    (p : ArmCore) (v : ℕ)
    → arm_read_register (arm_write_register p 14 v) 15 ≡ arm_read_register p 15
unfolding arm_read_register arm_write_register
link-pc p v =
    ap ahead (read_register-pc (write_register p.reg 14 v) ∙ kept ∙ sym (read_register-pc p.reg))
  where
    kept : (write_register p.reg 14 v).regs 15 ≡ p.reg.regs 15
    kept = unfold write_register in ground arith

-- The pc after a branch that is not the unconditional BLX.
arm_branch-pc :
    (p : ArmCore) (ins : ℕ)
    → get_bits ins 31 28 ≢ 15
    → (arm_branch p ins).1.reg.regs 15 ≡ u32 (branch_base p + u32 (signed_extend30 ins * 4))
unfolding arm_branch
arm_branch-pc p ins c =
    let taken : (get_bits ins 31 28 != 0xF) ≡ true = ground arith in
    rw (taken, write_pc, linked (get_bit ins 24 != 0)) refl
  where
    write_pc : (q : ArmCore) (v : ℕ) → (arm_write_register q 15 v).reg.regs 15 ≡ v
    write_pc q v = unfold arm_write_register in rw write_register-pc refl

    linked :
        (b : Bool)
        → arm_read_register
            (if b then arm_write_register p 14 (sub32 (arm_read_register p 15) 4) else p)
            15
          ≡ arm_read_register p 15
    linked true = link-pc p (sub32 (arm_read_register p 15) 4)
    linked false = refl

-- A branch whose offset field has bit 23 clear goes to the value that a read of the pc gives plus
-- four times the field, modulo 2^32. The condition field is not 15.
pub arm_branch-forward :
    (p : ArmCore) (ins : ℕ)
    → get_bits ins 31 28 ≢ 15
    → get_bit ins 23 ≡ 0
    → (arm_branch p ins).1.reg.regs 15 ≡ u32 (branch_base p + 4 * (ins % 2 ^ 24))
arm_branch-forward p ins c h = omega (arith, arm_branch-pc p ins c, signed_extend30-forward ins h)

-- A branch whose offset field has bit 23 set, which stands for the negative offset
-- 4 * (field - 2^24), goes 0x24000000 above the address that this offset gives, modulo 2^32. The
-- condition field is not 15.
pub arm_branch-backward :
    (p : ArmCore) (ins : ℕ)
    → get_bits ins 31 28 ≢ 15
    → get_bit ins 23 ≡ 1
    → (arm_branch p ins).1.reg.regs 15
      ≡ u32 (u32 (branch_base p + (2 ^ 32 - 4 * (2 ^ 24 - ins % 2 ^ 24))) + 0x24000000)
arm_branch-backward p ins c h = omega (arith, arm_branch-pc p ins c, signed_extend30-backward ins h)

-- A branch goes to the value that a read of the pc gives plus four times the offset field, taken as
-- a number with a sign, modulo 2^32, if the sign is clear; if it is set, 0x24000000 above this
-- address. The condition field is not 15.
pub arm_branch_lem :
    (p : ArmCore) (ins : ℕ)
    → get_bits ins 31 28 ≢ 15
    → (arm_branch p ins).1.reg.regs 15 ≡ (
        if get_bit ins 23 == 0
        then u32 (branch_base p + 4 * (ins % 2 ^ 24))
        else u32 (u32 (branch_base p + (2 ^ 32 - 4 * (2 ^ 24 - ins % 2 ^ 24))) + 0x24000000))
arm_branch_lem p ins c = elim (ℕ_discrete (get_bit ins 23) 0) [
  | yes zero_sign ↦ rw zero_sign (arm_branch-forward p ins c zero_sign)
  | no other ↦
      let set : get_bit ins 23 ≡ 1 = omega arith in rw set (arm_branch-backward p ins c set)
]
