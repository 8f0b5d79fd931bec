-- ===== src/Simulator.antt =====
-- arm_simulator.c: the options of the program, its start, and its two listeners.
pub mod Session
pub mod Listeners
pub mod Options
pub mod Start
use projet_s5_prog.Common.{
  Bool, List, Option, Outcome, [], bit_or, exit_program, false, fault, if◌then◌else◌, ok, some,
  true, u16, ℕ, ◌==◌, ◌>>=◌, ◌∷◌,
}
use projet_s5_prog.Text.{atoi, c_string}
use projet_s5_prog.Debug.{Debug, add_debug_to}
use projet_s5_prog.Memory.{created, dangling, memory_create, null}
use projet_s5_prog.Core.{ArmCore, arm_create, arm_exception}
use projet_s5_prog.Scanner.{Parser, Token, act}
use projet_s5_prog.Trace.{memory_flag, position_flag, registers_flag, state_flag}

-- What the options set: the ports of `struct shared_data`, the flags of trace.c, and the table of
-- debug.c. The trace file is not kept.
pub record Settings : Type 0 where
  pub gdb_port : ℕ
  pub irq_port : ℕ
  pub trace_flags : ℕ
  pub debug : Debug

-- `trace_add` of trace.c
unfoldable pub trace_add : ℕ → Settings → Settings
trace_add flags s = record s { trace_flags = bit_or s.trace_flags flags }

abbrev pub port_of : List ℕ → Outcome ℕ
port_of optarg = atoi (c_string optarg) >>= λ v. ok (u16 v)

abbrev pub set_gdb_port : List ℕ → Settings → Outcome Settings
set_gdb_port optarg s = do v ← port_of optarg; ok (record s { gdb_port = v })

abbrev pub set_irq_port : List ℕ → Settings → Outcome Settings
set_irq_port optarg s = do v ← port_of optarg; ok (record s { irq_port = v })

abbrev pub set_debug : List ℕ → Settings → Outcome Settings
set_debug optarg s = do d ← add_debug_to optarg s.debug; ok (record s { debug = d })

abbrev pub open_trace_file : Bool → Settings → Outcome Settings
open_trace_file true s = ok s
open_trace_file false s = exit_program

module _ (fopen : List ℕ → Bool) where
  -- One round of the loop on the options; `fopen` tells which files can be opened.
  unfoldable pub set_option : ℕ → List ℕ → Settings → Outcome Settings
  unfolding trace_add
  set_option opt optarg s =
      if opt == b'g'
      then set_gdb_port optarg s
      else if opt == b'i'
      then set_irq_port optarg s
      else if opt == b'h'
      then exit_program
      else if opt == b't'
      then open_trace_file (fopen optarg) s
      else if opt == b'r'
      then ok (trace_add registers_flag s)
      else if opt == b'm'
      then ok (trace_add memory_flag s)
      else if opt == b's'
      then ok (trace_add state_flag s)
      else if opt == b'p'
      then ok (trace_add position_flag s)
      else if opt == b'd'
      then set_debug optarg s
      else exit_program

  -- The loop on what `getopt_long` gives: the letters with their arguments.
  unfoldable pub set_options : List (ℕ × List ℕ) → Settings → Outcome Settings
  set_options [] s = ok s
  set_options ((opt, optarg) ∷ rest) s = set_option opt optarg s >>= λ s'. set_options rest s'

-- The processor that `main` makes, where `malloc` gives all blocks: `cells` and `contents` are
-- what is in that of the memory and in that of the registers. `target` is whether the simulated
-- machine is big-endian.
abbrev pub memory_size : ℕ
memory_size = 0x20000

unfoldable pub make_processor : Bool → (ℕ → ℕ) → (ℕ → ℕ) → Outcome (Option ArmCore)
make_processor target cells contents = elim (memory_create true (some cells) memory_size target) [
  | created mem ↦ arm_create true (some contents) mem
  | null ↦ fault
  | dangling ↦ fault
]

-- The settings before the options are read; `f` is what is in the array of debug.c.
abbrev pub first_settings : (ℕ → List ℕ) → Settings
first_settings f = record {
  gdb_port = 0;
  irq_port = 0;
  trace_flags = 0;
  debug = record { files = f; nb = 0 };
}

-- `main` up to the start of the two threads, with what `getopt_long` gives.
unfoldable pub start_program :
    (List ℕ → Bool)
    → List (ℕ × List ℕ)
    → (ℕ → List ℕ)
    → Bool
    → (ℕ → ℕ)
    → (ℕ → ℕ)
    → Outcome (Settings × Option ArmCore)
unfolding set_options make_processor
start_program fopen opts f target cells contents = do
  s ← set_options fopen opts (first_settings f)
  p ← make_processor target cells contents
  ok (s, p)

-- What reaches the processor: a match of the scanner, and a byte for `irq_listener`. The lock
-- keeps the command of a packet and an interrupt apart, and the rest of a match does not touch
-- the processor.
pub data Event : Type 0 where
  from_debugger : Token → Event
  from_irq : ℕ → Event

module _ (host target : Bool) where
  unfoldable pub happen : ℕ → Event → Parser → Outcome (Option Parser)
  happen fuel (from_debugger t) d = act host target fuel t d
  happen fuel (from_irq irq) d =
      ok (some (record d { gdb = record d.gdb { arm = arm_exception d.gdb.arm irq } }))
