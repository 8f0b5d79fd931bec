-- ===== src/LoadStore.antt =====
-- arm_load_store.c: the load and store instructions, and the choice between their two groups.
pub mod Decoding
pub mod Single
pub mod Misc
pub mod Kept
pub mod MiscKept
pub mod Double
pub mod Signed
pub mod RoundTrip
pub mod Multiple
use projet_s5_prog.Common.{Option, Outcome, if◌then◌else◌, none, ok, some, ℕ, ◌&&◌, ◌==◌, ◌>>=◌}
use projet_s5_prog.Constants.{undefined_instruction}
use projet_s5_prog.Util.{get_bit, get_bits}
use projet_s5_prog.Core.{ArmCore}
use projet_s5_prog.LoadStore.Single.{word_byte_load_store}
use projet_s5_prog.LoadStore.Misc.{miscellaneous_load_store}

-- The local `result` is returned unset where neither test holds; the callers drop it.
unfoldable pub arm_load_store : ArmCore → ℕ → Outcome (Option ℕ × ArmCore)
arm_load_store p ins =
    if get_bits ins 27 26 == 1
    then (word_byte_load_store p ins >>= λ r. ok (some r.0, r.1))
    else if get_bits ins 27 25 == 0 && get_bit ins 7 == 1 && get_bit ins 4 == 1
    then (miscellaneous_load_store p ins >>= λ r. ok (some r.0, r.1))
    else ok (none, p)

unfoldable pub arm_coprocessor_load_store : ArmCore → ℕ → ℕ
arm_coprocessor_load_store p ins = undefined_instruction
