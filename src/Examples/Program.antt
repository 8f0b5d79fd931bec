-- ===== src/Examples/Program.antt =====
-- The theorems on the scanner, the table of debug.c and the whole program, at concrete input.
use projet_s5_prog.Common.{
  List, [], arith, false, fault, if◌then◌else◌, of_bool, ok, refl, some, true, ℕ, ◌<◌, ◌==◌, ◌^◌,
  ◌∷◌, ◌≡◌,
}
use projet_s5_prog.Text.{atoi, bytes, c_string}
use projet_s5_prog.Memory.{memory_create, update}
use projet_s5_prog.Core.{ArmCore, arm_create, arm_exception, arm_write_cpsr, arm_write_usr_register}
use projet_s5_prog.Constants.{cpsr, reset}
use projet_s5_prog.Registers.{registers_create, write_cpsr, write_usr_register}
use projet_s5_prog.Debug.{Debug, add_debug_to, is_debugged, strcmp}
use projet_s5_prog.Debug.Filled.{add_all, mentioned}
use projet_s5_prog.Debug.Full.{add_debug_to-full}
use projet_s5_prog.Scanner.{Parser, yylex}
use projet_s5_prog.Scanner.Noise.{yylex-noise}
use projet_s5_prog.Simulator.{
  Settings, from_irq, happen, make_processor, memory_size, start_program,
}
use projet_s5_prog.Simulator.Session.{Session, Session-start, begin, then_event}
use projet_s5_prog.Examples.{machine}
use projet_s5_prog.Examples.Debugger.{connected}
use projet_s5_prog.Trace.{Trace, first_trace}
use projet_s5_prog.Trace.Balanced.{
  Accesses, call, finish, memory, performed, performed-Stays, register,
}
use projet_s5_prog.Trace.Printed.{SameStack}
use projet_s5_prog.Util.{get_bit}
use projet_s5_prog.Debug.Macros.{Cache, asked, fresh}
use projet_s5_prog.Debug.Cached.{asked-add_all, same_answers}
use projet_s5_prog.Simulator.Options.{
  AllAccepted, debug_names, debug_option, gdb_option, last_port, registers_option, wants,
}
use projet_s5_prog.Simulator.Start.{start_program-AllAccepted}

abbrev full_table : Debug
full_table = record { files = λ j. bytes "trace.c"; nb = 64 }

add_debug_to-full_example : add_debug_to (bytes "debug.c") full_table ≡ fault
unfolding strcmp
add_debug_to-full_example = add_debug_to-full (bytes "debug.c") full_table 3 refl (omega arith) refl

abbrev parser : Parser
parser = record { gdb = connected; buffer = λ j. 0; len = 0 }

yylex-noise_example :
    (d' : Parser) × (yylex false false 0 (bytes "+-x") parser ≡ ok (some d'))
    × (d'.gdb.arm ≡ machine)
    × (d'.len ≡ 0)
yylex-noise_example =
    yylex-noise false false 0 (bytes "+-x") parser
      (ground arith, (ground arith, (ground arith, tt))) (omega arith)

-- The processor that the program starts with, where `malloc` gives zeros.
abbrev first_processor : ArmCore
first_processor = record {
  cycle_count = 0;
  reg = record { regs = update (update (λ j. 0) cpsr 0x1d3) 15 0 };
  mem = record { is_big_endian = false; adresses = λ j. 0; size = memory_size };
}

first_processor-made : make_processor false (λ j. 0) (λ j. 0) ≡ ok (some first_processor)
unfolding make_processor memory_create arm_create registers_create arm_exception
    arm_write_usr_register arm_write_cpsr write_usr_register write_cpsr
first_processor-made = refl

abbrev first_parser : Parser
first_parser = record parser { gdb = record connected { arm = first_processor } }

abbrev after_reset : Parser
after_reset = record parser { gdb = record connected { arm = arm_exception first_processor reset } }

one_interrupt : Session false false first_parser after_reset
unfolding happen
one_interrupt = then_event 0 (from_irq reset) begin refl

Session-start_example :
    (after_reset.gdb.arm.mem.size ≡ 0x20000)
    × (after_reset.gdb.arm.mem.is_big_endian ≡ false)
    × ((j : ℕ) → after_reset.gdb.arm.mem.adresses j < 256)
    × ((j : ℕ) → after_reset.gdb.arm.reg.regs j < 2 ^ 32)
    × (after_reset.len < 1024)
Session-start_example =
    Session-start false false (λ j. 0) (λ j. 0) first_processor first_parser after_reset
      (λ j. omega arith) (λ j. omega arith) first_processor-made refl refl one_interrupt

-- A traced read of a register inside a traced read of a word.
abbrev traced_call : Accesses
traced_call =
    call (bytes "arm_core.c") 40
      (memory 0 1 4 0 0 0 (call (bytes "memory.c") 70 (register 0 1 15 19 0 finish) finish)) finish

performed-Stays_example :
    (t' : Trace) × (performed traced_call first_trace ≡ ok t') × SameStack first_trace t'
performed-Stays_example =
    performed-Stays traced_call 2 first_trace
      (
        omega arith,
        (omega arith, omega arith, (omega arith, (omega arith, omega arith, omega arith, tt), tt)),
        tt,
      )
      (omega arith) (omega arith)

abbrev two_names : List (List ℕ)
two_names = bytes "trace.c" ∷ bytes "debug.c" ∷ []

asked-add_all_example :
    (d : Debug) × (c : Cache) × (add_all two_names (record { files = λ j. []; nb = 0 }) ≡ ok d)
    × (is_debugged (bytes "trace.c") d ≡ some (mentioned (bytes "trace.c") two_names))
    × (asked 4 (bytes "trace.c") d fresh
        ≡ some (same_answers 4 (mentioned (bytes "trace.c") two_names), c))
    × (early : Cache) × (asked 1 (bytes "trace.c") (record { files = λ j. []; nb = 0 }) fresh
        ≡ some (false ∷ [], early))
    × (asked 3 (bytes "trace.c") d early ≡ some (same_answers 3 false, early))
asked-add_all_example = asked-add_all 3 (bytes "trace.c") two_names (λ j. []) (omega arith)

-- `-g 5000 -r -d trace.c`
abbrev some_options : List (ℕ × List ℕ)
some_options = (b'g', bytes "5000") ∷ (b'r', []) ∷ (b'd', bytes "trace.c") ∷ []

some_options-AllAccepted : AllAccepted (λ file. false) some_options
unfolding atoi c_string
some_options-AllAccepted = (gdb_option 5000 refl, (registers_option, (debug_option, tt)))

start_program-AllAccepted_example :
    (s : Settings) × (p : ArmCore) × (start_program
        (λ file. false)
        some_options
        (λ j. [])
        true
        (λ j. 0)
        (λ j. 0)
      ≡ ok (s, some p))
    × ((file : List ℕ)
        → is_debugged file s.debug ≡ some (mentioned file (debug_names some_options)))
    × (get_bit s.trace_flags 0 ≡ of_bool (wants b'm' some_options))
    × (get_bit s.trace_flags 1 ≡ of_bool (wants b'r' some_options))
    × (get_bit s.trace_flags 2 ≡ of_bool (wants b's' some_options))
    × (get_bit s.trace_flags 3 ≡ of_bool (wants b'p' some_options))
    × (s.gdb_port ≡ last_port b'g' some_options 0)
    × (s.irq_port ≡ last_port b'i' some_options 0)
    × (p.cycle_count ≡ 0)
    × (p.mem ≡ record { is_big_endian = true; adresses = λ j. 0; size = 0x20000 })
    × ((j : ℕ) → p.reg.regs j ≡ (if j == 15 then 0 else if j == cpsr then 0x1d3 else 0))
start_program-AllAccepted_example =
    start_program-AllAccepted (λ file. false) some_options (λ j. []) true (λ j. 0) (λ j. 0)
      some_options-AllAccepted (omega arith)
