-- ===== src/StatePrint.antt =====
-- arm_print_state of arm_core.c, and trace_arm_state of trace.c, which calls it.
pub mod Banks
use projet_s5_prog.Common.{
  List, Option, Outcome, [], bit_and, if◌then◌else◌, ltb, none, nonzero, ok, some, suc, zero, ℕ,
  ◌%◌, ◌&&◌, ◌++◌, ◌+◌, ◌==◌, ◌>>=◌, ◌||◌, ◌∷◌,
}
use projet_s5_prog.Constants.{abt, cpsr, fiq, irq, svc, sys, und, usr}
use projet_s5_prog.Names.{arm_get_mode_name, arm_get_register_name}
use projet_s5_prog.Core.{ArmCore, arm_read_cpsr, arm_read_register, arm_read_usr_register}
use projet_s5_prog.Trace.{Line, Trace, state_flag, trace_register}
use projet_s5_prog.Registers.{get_mode}

-- What the calls of `fprintf` print, one after the other: `"%s:"` of a mode, `"   %3s=%08X"` of a
-- register, `"  CPSR=%08X"`, the start of a new line of registers, the end of a line, blanks, and a
-- line of the trace of an access.
pub data Piece : Type 0 where
  mode_name : List ℕ → Piece
  register_value : List ℕ → ℕ → Piece
  status_value : ℕ → Piece
  indented_line : Piece
  end_of_line : Piece
  blanks : Piece
  traced_line : Line → Piece

-- `"\n    "` before every fifth register but the first.
abbrev pub line_before : ℕ → List Piece → List Piece
line_before reg rest = if ltb 0 reg && reg % 5 == 0 then indented_line ∷ rest else rest

-- The two branches of the loop on the registers differ in how the register is read; `count` is
-- always `reg`.
abbrev pub read_printed : ArmCore → ℕ → ℕ → ℕ
read_printed p mode reg =
    if mode == usr then arm_read_usr_register p reg else arm_read_register p reg

-- The reads of a register of the user mode are traced as those of this mode.
abbrev pub traced_mode : ArmCore → ℕ → ℕ
traced_mode p mode = if mode == usr then usr else get_mode p.reg

abbrev pub print_name : ℕ → List ℕ → List Piece
print_name mode name = if mode == sys then [] else mode_name name ∷ []

abbrev pub print_end : ℕ → List Piece
print_end mode =
    if mode == usr || mode == fiq || mode == svc || mode == und
    then end_of_line ∷ []
    else if mode == irq || mode == abt
    then blanks ∷ []
    else []

-- `traces` is what the trace prints of a read of a register, by its number, the mode and the value.
module _ (traces : ℕ → ℕ → ℕ → Outcome (List Piece)) where
  -- The registers from `reg` on, `left` of them.
  unfoldable pub print_registers : ArmCore → ℕ → ℕ → ℕ → Outcome (List Piece)
  print_registers p mode zero reg = ok []
  print_registers p mode (suc left) reg = do
    let value = read_printed p mode reg
    name ← arm_get_register_name reg
    traced ← traces reg (traced_mode p mode) value
    rest ← print_registers p mode left (reg + 1)
    ok (line_before reg (traced ++ (register_value name value ∷ rest)))

  abbrev pub print_cpsr : ArmCore → Outcome (List Piece)
  print_cpsr p = do
    traced ← traces cpsr 0 (arm_read_cpsr p)
    ok (traced ++ (status_value (arm_read_cpsr p) ∷ []))

  abbrev pub print_status : ArmCore → ℕ → Outcome (List Piece)
  print_status p mode = if mode == usr then print_cpsr p else ok []

  -- One round of the loop on the modes; a mode without a name prints nothing.
  unfoldable pub print_mode : ArmCore → ℕ → Option (List ℕ) → Outcome (List Piece)
  unfolding print_registers
  print_mode p mode none = ok []
  print_mode p mode (some name) = do
    registers ← print_registers p mode 16 0
    status ← print_status p mode
    ok (print_name mode name ++ (registers ++ (status ++ print_end mode)))

  unfoldable pub print_modes : ArmCore → ℕ → ℕ → Outcome (List Piece)
  unfolding print_mode
  print_modes p zero mode = ok []
  print_modes p (suc left) mode = do
    name ← arm_get_mode_name mode
    pieces ← print_mode p mode name
    rest ← print_modes p left (mode + 1)
    ok (pieces ++ rest)

-- Where the accesses to registers are not traced.
abbrev pub untraced : ℕ → ℕ → ℕ → Outcome (List Piece)
untraced reg mode value = ok []

unfoldable pub arm_print_state : ArmCore → Outcome (List Piece)
unfolding print_modes
arm_print_state p = print_modes untraced p 32 0

-- The lines that a trace adds, the first one first.
abbrev pub traced_pieces : List Line → List Piece → List Piece
traced_pieces [] pieces = pieces
traced_pieces (l ∷ ls) pieces = traced_pieces ls (traced_line l ∷ pieces)

-- The read of a register as the trace `t` prints it: `READ` is 1.
unfoldable pub traced_read : ArmCore → Trace → ℕ → ℕ → ℕ → Outcome (List Piece)
traced_read p t reg mode value = do
  t' ← trace_register p.cycle_count 1 reg mode value (record t { output = [] })
  ok (traced_pieces t'.output [])

-- What `trace_arm_state` adds to the output, the lines of the reads that it makes included.
unfoldable pub trace_arm_state : ArmCore → Trace → Outcome (List Piece)
unfolding print_modes traced_read
trace_arm_state p t =
    if t.enabled && nonzero (bit_and t.trace_flags state_flag)
    then print_modes (traced_read p t) p 32 0
    else ok []
