-- ===== src/Instruction.antt =====
-- arm_instruction.c: the fetch of an instruction and its dispatch, one step of the simulator.
pub mod Frame
pub mod Reachable
pub mod Paths
use projet_s5_prog.Common.{
  Option, Outcome, if◌then◌else◌, none, nonzero, ok, some, ℕ, ◌&&◌, ◌/◌, ◌==◌, ◌>>=◌, ◌^◌, ◌||◌,
}
use projet_s5_prog.Util.{get_bit, get_bits}
use projet_s5_prog.Core.{ArmCore, arm_exception, arm_fetch, arm_read_cpsr}
use projet_s5_prog.Decode.{condition}
use projet_s5_prog.DataProcessing.{arm_data_processing}
use projet_s5_prog.LoadStore.{arm_load_store}
use projet_s5_prog.LoadStore.Multiple.{arm_load_store_multiple}
use projet_s5_prog.Branch.{arm_branch, arm_coprocessor_others_swi, arm_miscellaneous}

-- What a called function did to the processor; its result is dropped.
abbrev pub then_core {ℓ} : {A : Type ℓ} → Outcome (A × ArmCore) → Outcome ArmCore
then_core result = result >>= λ r. ok r.1

-- `switch (typeop)`: case 6 falls through to case 7, and neither changes the processor.
unfoldable pub dispatch : ArmCore → ℕ → Outcome ArmCore
dispatch p instruction =
    let typeop = get_bits instruction 27 25 in
    if typeop == 0
    then if get_bit instruction 4 == 0 || get_bit instruction 7 == 0
      then then_core (arm_data_processing p instruction)
      else if get_bit instruction 7 == 1 && get_bit instruction 4 == 1
      then then_core (arm_load_store p instruction)
      else ok (arm_miscellaneous p instruction).1
    else if typeop == 1
    then then_core (arm_data_processing p instruction)
    else if typeop == 2 || typeop == 3
    then then_core (arm_load_store p instruction)
    else if typeop == 4
    then then_core (arm_load_store_multiple p instruction)
    else if typeop == 5
    then ok (arm_branch p instruction).1
    else arm_coprocessor_others_swi p instruction >>= λ result. ok p

-- The instruction is executed if it was fetched and its condition holds.
unfoldable pub execute_fetched : Option ℕ → ArmCore → Outcome (ℕ × ArmCore)
execute_fetched none p = ok (0, p)
execute_fetched (some instruction) p =
    if condition (arm_read_cpsr p) (instruction / 2 ^ 28)
    then (dispatch p instruction >>= λ p'. ok (0, p'))
    else ok (0, p)

unfoldable pub arm_execute_instruction : ArmCore → Outcome (ℕ × ArmCore)
arm_execute_instruction p = arm_fetch p >>= λ fetched. execute_fetched fetched.0 fetched.1

unfoldable pub arm_step : ArmCore → Outcome (ℕ × ArmCore)
arm_step p = arm_execute_instruction p >>= λ r.
    ok (r.0, (if nonzero r.0 then arm_exception r.1 r.0 else r.1))
