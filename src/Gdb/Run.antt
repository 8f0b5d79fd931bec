-- ===== src/Gdb/Run.antt =====
-- gdb_protocol.c: the commands that run the processor, and the answer that says why it stopped.
pub mod Breakpoint
pub mod Reached
use projet_s5_prog.Common.{
  Bool, List, Option, Outcome, bit_and, false, fault, if◌then◌else◌, none, ok, some, sub32, suc,
  true, zero, ℕ, ◌==◌, ◌>>=◌, ◌||◌,
}
use projet_s5_prog.Text.{bytes}
use projet_s5_prog.Constants.{undefined_instruction}
use projet_s5_prog.Core.{ArmCore, arm_read_register, arm_read_word}
use projet_s5_prog.Instruction.{arm_step}
use projet_s5_prog.Gdb.{Gdb, gdb_send_data}

-- `PREFETCH_ABORT` and `DATA_ABORT`
abbrev pub prefetch_abort : ℕ
prefetch_abort = 4

abbrev pub data_abort : ℕ
data_abort = 5

abbrev pub stop_text : ℕ → List ℕ
stop_text target_exception =
    if target_exception == undefined_instruction
    then bytes "S04"
    else if target_exception == prefetch_abort || target_exception == data_abort
    then bytes "S10"
    else bytes "S05"

unfoldable pub gdb_send_stop_reason : Gdb → Outcome Gdb
unfolding gdb_send_data
gdb_send_stop_reason g = gdb_send_data (stop_text g.target_exception) g

unfoldable pub step : Gdb → Outcome Gdb
step g =
    arm_step g.arm >>= λ r. gdb_send_stop_reason (record g { target_exception = r.0; arm = r.1 })

-- `(instruction & 0xFFF000F0) == 0xE7F000F0`
abbrev pub is_breakpoint : ℕ → Bool
is_breakpoint instruction = bit_and instruction 0xFFF000F0 == 0xE7F000F0

-- The local `instruction` after the read ahead; it keeps its value where the read fails.
unfoldable pub read_ahead : Option ℕ → ArmCore → Outcome (Option ℕ)
read_ahead instruction p = arm_read_word p (sub32 (arm_read_register p 15) 4) >>= λ r.
    ok (elim r [ none ↦ instruction | some v ↦ some v ])

-- The loop of `cont`, for at most `fuel` rounds: it need not end, so out of fuel is `none`.
unfoldable pub cont_loop : ℕ → Option ℕ → ℕ → ArmCore → Outcome (Option (ℕ × ArmCore))
cont_loop zero instruction target_exception p = ok none
cont_loop (suc fuel) instruction target_exception p = read_ahead instruction p >>= λ seen.
    elim seen [
      | none ↦ fault
      | some i ↦ elim (is_breakpoint i) [
        | true ↦ ok (some (target_exception, p))
        | false ↦ arm_step p >>= λ r. cont_loop fuel (some i) r.0 r.1
      ]
    ]

abbrev pub answer_stop : Gdb → Option (ℕ × ArmCore) → Outcome (Option Gdb)
answer_stop g none = ok none
answer_stop g (some (target_exception, p)) =
    gdb_send_stop_reason (record g { target_exception = target_exception; arm = p }) >>= λ g'.
    ok (some g')

unfoldable pub cont : ℕ → Gdb → Outcome (Option Gdb)
cont fuel g = cont_loop fuel none g.target_exception g.arm >>= λ o. answer_stop g o
