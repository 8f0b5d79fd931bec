-- ===== src/Examples/Transfers.antt =====
-- The theorems on loads, stores and branches, at concrete values.
use projet_s5_prog.Common.{
  arith, if◌then◌else◌, minus_one, ok, refl, true, u32, ℕ, ◌!=◌, ◌%◌, ◌&&◌, ◌*◌, ◌+◌, ◌-◌, ◌==◌,
  ◌^◌, ◌≡◌,
}
use projet_s5_prog.Constants.{no_exception, r14, undefined_instruction}
use projet_s5_prog.Common.Ensures.{Safe}
use projet_s5_prog.Util.{get_bit}
use projet_s5_prog.Registers.{get_mode, read_cpsr, read_register}
use projet_s5_prog.Core.{ArmCore, arm_read_byte, arm_read_cpsr, arm_read_register}
use projet_s5_prog.Core.Keeps.{Keeps}
use projet_s5_prog.Decode.{condition}
use projet_s5_prog.LoadStore.Single.{transfer}
use projet_s5_prog.LoadStore.Misc.{load_extended, load_store_half_double_byte}
use projet_s5_prog.LoadStore.Double.{load_store_half_double_byte-double}
use projet_s5_prog.LoadStore.Signed.{load_store_half_double_byte-signed}
use projet_s5_prog.LoadStore.RoundTrip.{transfer-load-store}
use projet_s5_prog.LoadStore.Multiple.{arm_load_store_multiple, number_set_bits_in}
use projet_s5_prog.LoadStore.Multiple.Count.{number_set_bits_in-ones, ones}
use projet_s5_prog.LoadStore.Multiple.Ends.{arm_load_store_multiple-Safe}
use projet_s5_prog.Branch.{arm_branch}
use projet_s5_prog.Branch.Target.{arm_branch_lem, branch_base}
use projet_s5_prog.Examples.{machine, machine-IsWords}

-- `LDRH R1, [R2]`, `LDMIA R2, {R0, R1}`, `BL` forward and `B` backward
abbrev ldrh : ℕ
ldrh = 0xE1D210B0

abbrev ldm : ℕ
ldm = 0xE8920003

abbrev bl : ℕ
bl = 0xEB000004

abbrev b_back : ℕ
b_back = 0xEAFFFFFE

number_set_bits_in-ones_example : number_set_bits_in 0x8003 ≡ ones 16 0 0x8003
number_set_bits_in-ones_example = number_set_bits_in-ones 0x8003

arm_load_store_multiple-Safe_example :
    Safe (λ (r : ℕ × ArmCore). Keeps machine r.1) (arm_load_store_multiple machine ldm)
arm_load_store_multiple-Safe_example = arm_load_store_multiple-Safe machine ldm machine-IsWords

load_store_half_double_byte-double_example :
    (load_store_half_double_byte machine 2 8 0 1 0 14
      ≡ ok (
        (if condition (arm_read_cpsr machine) 14
            then if 2 != r14 && 2 % 2 == 0 && 8 % 4 != 0 then minus_one else no_exception
            else undefined_instruction),
        machine,
      ))
    × (load_store_half_double_byte machine 2 8 0 1 1 14
        ≡ ok (
          (if 2 % 2 == 0 && 2 != r14 && 8 % 4 != 0 && get_bit 8 2 == 0
              then minus_one
              else undefined_instruction),
          machine,
        ))
load_store_half_double_byte-double_example = load_store_half_double_byte-double machine 2 8 14

always : condition (arm_read_cpsr machine) 14 ≡ true
unfolding condition
always = refl

load_store_half_double_byte-signed_example :
    (load_store_half_double_byte machine 3 8 1 1 0 14
      ≡ load_extended machine (arm_read_byte machine 8) 3 (λ v. v))
    × (load_store_half_double_byte machine 3 8 1 1 1 14
        ≡ load_store_half_double_byte machine 3 8 1 0 1 14)
load_store_half_double_byte-signed_example =
    load_store_half_double_byte-signed machine 3 8 14 machine-IsWords always

transfer-load-store_example :
    (p1 p2 : ArmCore) × (transfer machine 8 2 0 0 0 ≡ ok (0, p1))
    × (transfer p1 8 13 0 1 0 ≡ ok (0, p2))
    × (read_register p2.reg 13
        ≡ (if 13 == 13 then arm_read_register machine 2 else read_register machine.reg 13))
transfer-load-store_example =
    transfer-load-store machine 8 2 13 13 machine-IsWords (unfold get_mode read_cpsr in refl) refl
      (omega arith) (omega arith) (omega arith)

arm_branch_lem_example : (arm_branch machine b_back).1.reg.regs 15 ≡ (
    if get_bit b_back 23 == 0
    then u32 (branch_base machine + 4 * (b_back % 2 ^ 24))
    else u32 (u32 (branch_base machine + (2 ^ 32 - 4 * (2 ^ 24 - b_back % 2 ^ 24))) + 0x24000000))
arm_branch_lem_example = arm_branch_lem machine b_back (omega arith)
