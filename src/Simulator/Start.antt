-- ===== src/Simulator/Start.antt =====
-- The start of arm_simulator.c: from the options to the processor that the two threads share.
use projet_s5_prog.Common.{
  Bool, List, arith, if◌then◌else◌, of_bool, ok, refl, some, ℕ, ◌==◌, ◌∙◌, ◌≡◌, ◌≤◌,
}
use projet_s5_prog.Common.Ensures.{bind-ok}
use projet_s5_prog.Constants.{cpsr}
use projet_s5_prog.Text.{length}
use projet_s5_prog.Util.{get_bit}
use projet_s5_prog.Memory.{memory_create}
use projet_s5_prog.Core.{ArmCore, arm_create, arm_exception, arm_write_cpsr, arm_write_usr_register}
use projet_s5_prog.Registers.{registers_create, write_cpsr, write_register, write_usr_register}
use projet_s5_prog.Debug.{is_debugged}
use projet_s5_prog.Debug.Filled.{mentioned}
use projet_s5_prog.Simulator.{Settings, make_processor, start_program}
use projet_s5_prog.Simulator.Options.{
  AllAccepted, debug_names, last_port, set_options-AllAccepted, wants,
}

make_processor-made :
    (target : Bool) (cells contents : ℕ → ℕ)
    → (p : ArmCore) × (make_processor target cells contents ≡ ok (some p))
      × (p.cycle_count ≡ 0)
      × (p.mem ≡ record { is_big_endian = target; adresses = cells; size = 0x20000 })
      × ((j : ℕ) → p.reg.regs j ≡ (if j == 15 then 0 else if j == cpsr then 0x1d3 else contents j))
unfolding make_processor memory_create arm_create registers_create arm_exception
    arm_write_usr_register arm_write_cpsr write_usr_register write_register write_cpsr
make_processor-made target cells contents = (_, refl, refl, refl, λ j. ground arith)

-- With options that are all accepted, at most 64 of them `--debug`, the program starts. Then a file
-- is debugged if and only if an option names it, each of the four flags of the trace is set if and
-- only if its option is given, and each port is that of its last option, or 0. The processor has
-- run no cycle; its pc is 0, its CPSR 0x1d3, and the other registers and the memory of 0x20000
-- bytes, in the byte order of the build, hold what the blocks of `malloc` held.
pub start_program-AllAccepted :
    (fopen : List ℕ → Bool) (opts : List (ℕ × List ℕ)) (f : ℕ → List ℕ) (target : Bool)
    (cells contents : ℕ → ℕ)
    → AllAccepted fopen opts
    → length (debug_names opts) ≤ 64
    → (s : Settings) × (p : ArmCore) × (start_program fopen opts f target cells contents
        ≡ ok (s, some p))
      × ((file : List ℕ) → is_debugged file s.debug ≡ some (mentioned file (debug_names opts)))
      × (get_bit s.trace_flags 0 ≡ of_bool (wants b'm' opts))
      × (get_bit s.trace_flags 1 ≡ of_bool (wants b'r' opts))
      × (get_bit s.trace_flags 2 ≡ of_bool (wants b's' opts))
      × (get_bit s.trace_flags 3 ≡ of_bool (wants b'p' opts))
      × (s.gdb_port ≡ last_port b'g' opts 0)
      × (s.irq_port ≡ last_port b'i' opts 0)
      × (p.cycle_count ≡ 0)
      × (p.mem ≡ record { is_big_endian = target; adresses = cells; size = 0x20000 })
      × ((j : ℕ) → p.reg.regs j ≡ (if j == 15 then 0 else if j == cpsr then 0x1d3 else contents j))
unfolding start_program
start_program-AllAccepted fopen opts f target cells contents a h =
    let (s, started, names, m, r, t, p, gdb, interrupts) =
      set_options-AllAccepted fopen opts f a h in
    let q = make_processor-made target cells contents in
    (s, q.0, bind-ok _ started ∙ bind-ok _ q.1, names, m, r, t, p, gdb, interrupts, q.2, q.3, q.4)
