-- ===== src/Examples/Devices.antt =====
-- The theorems on the programs around the processor, at concrete input.
use projet_s5_prog.SendIrq.{irq_main}
use projet_s5_prog.SendIrq.Sent.{irq_main-serve}
use projet_s5_prog.InsertionSort.{first_array, insertion_sort}
use projet_s5_prog.InsertionSort.Endless.{insertion_sort-endless}
use projet_s5_prog.MemoryTest.{memory_tests}
use projet_s5_prog.MemoryTest.Objects.{memory_of}
use projet_s5_prog.MemoryTest.Succeeds.{memory_tests-succeed}
use projet_s5_prog.StatePrint.{Piece, arm_print_state}
use projet_s5_prog.StatePrint.Banks.{arm_print_state-current, from_to, shown}
use projet_s5_prog.Network.{Network, htons}
use projet_s5_prog.Network.Delivery.{Delivers, Serves, at_end, byte, next_one, no_more}
use projet_s5_prog.Simulator.Listeners.{create_server, gdb_listener, irq_listener, serve_interrupts}
use projet_s5_prog.Simulator.Listeners.Interrupts.{after_interrupts, irq_listener-Serves}
use projet_s5_prog.Names.{arm_get_exception_name}
use projet_s5_prog.Core.{ArmCore, arm_read_register, arm_read_usr_register}
use projet_s5_prog.Examples.{machine}
use projet_s5_prog.Text.{atoi, bytes, c_string}
use projet_s5_prog.Common.{
  List, Option, Outcome, [], arith, false, none, ok, refl, some, true, ℕ, ◌%◌, ◌*◌, ◌++◌, ◌>>=◌,
  ◌∷◌, ◌≡◌,
}
use projet_s5_prog.Util.{reverse_2}
use projet_s5_prog.Registers.{get_mode, read_cpsr}
use projet_s5_prog.Scanner.{Parser, finished, yylex}
use projet_s5_prog.Scanner.Conversation.{
  Message, acknowledge, all_said, command, conversation, yylex-conversation,
}
use projet_s5_prog.Scanner.RegistersSaid.{answers, registers_said}
use projet_s5_prog.Simulator.Listeners.Dialogue.{gdb_listener-registers}
use projet_s5_prog.Examples.Debugger.{connected}

-- A network with one line: what one end writes is read at the other, and the bytes that wait are
-- its state.
abbrev read_line : List ℕ → Outcome (Option ℕ × List ℕ)
read_line [] = ok (none, [])
read_line (b ∷ bs) = ok (some b, bs)

abbrev line : Network (List ℕ)
line = record {
  socket = λ w. ok (3, w);
  setsockopt = λ s w. ok w;
  bind_port = λ s port w. ok w;
  getsockname = λ s w. 0x9013;
  listen = λ s w. ok w;
  accept = λ s w. ok (4, w);
  read_byte = λ c w. read_line w;
  fdopen = λ c w. true;
  read_all = λ c w. (w, []);
  gethostbyname = λ name w. ok (1, w);
  connect_to = λ s host port w. ok w;
  write_bytes = λ s bs w. ok (w ++ bs);
  shutdown = λ s w. w;
  close = λ s w. w;
}

-- The line gives all that waits.
line-Delivers : (bs : List ℕ) → Delivers line 4 bs bs []
line-Delivers [] = at_end refl
line-Delivers (b ∷ bs) = byte refl (line-Delivers bs)

-- The line gives the byte that waits.
one_waits : (b : ℕ) → Serves line 3 (b ∷ []) ((b ∷ []) ∷ []) []
one_waits b = next_one refl (byte refl (at_end refl)) no_more

insertion_sort-endless_example : insertion_sort 100 10 0 first_array ≡ none
insertion_sort-endless_example = insertion_sort-endless 100 10 first_array

arm_print_state-current_example :
    (pieces : List Piece) × (arm_print_state machine ≡ ok pieces)
    × (shown (bytes "USR") pieces ≡ from_to 16 0 (arm_read_usr_register machine))
    × (shown (bytes "FIQ") pieces ≡ from_to 16 0 (arm_read_register machine))
    × (shown (bytes "IRQ") pieces ≡ from_to 16 0 (arm_read_register machine))
    × (shown (bytes "SVC") pieces ≡ from_to 16 0 (arm_read_register machine))
    × (shown (bytes "ABT") pieces ≡ from_to 16 0 (arm_read_register machine))
    × (shown (bytes "UND") pieces ≡ from_to 16 0 (arm_read_register machine))
arm_print_state-current_example = arm_print_state-current machine

memory_tests-succeed_example :
    memory_tests false 0x11223344 0x5566 (memory_of false (λ j. 0)) (memory_of true (λ j. 7))
    ≡ ok (true ∷ true ∷ true ∷ true ∷ true ∷ true ∷ true ∷ true ∷ [])
memory_tests-succeed_example =
    memory_tests-succeed false 0x11223344 0x5566 (λ j. 0) (λ j. 7) (omega arith) (omega arith)

irq_listener-Serves_example :
    (q : ArmCore) × (irq_listener line false 1 5 5000 machine (1 ∷ []) ≡ ok (some (q, [])))
    × (q.mem ≡ machine.mem)
    × (q.cycle_count ≡ machine.cycle_count)
    × ((j : ℕ) → q.reg.regs j ≡ after_interrupts true machine.reg.regs j)
unfolding create_server htons reverse_2
irq_listener-Serves_example =
    irq_listener-Serves line false 5 5000 machine (1 ∷ []) (1 ∷ []) []
      (record { socket = 3; port = 0x1390 }) ((1 ∷ []) ∷ []) refl (one_waits 1) (omega arith, tt)

irq_main-serve_example :
    (w2 : List ℕ) × (q : ArmCore) × (irq_main line false
        (bytes "localhost" ∷ bytes "5000" ∷ bytes "reset" ∷ [])
        []
      ≡ ok w2)
    × (serve_interrupts line false 1 5 3 machine w2 ≡ ok (some (q, [])))
    × (q.mem ≡ machine.mem)
    × (q.cycle_count ≡ machine.cycle_count)
    × ((j : ℕ) → q.reg.regs j ≡ after_interrupts true machine.reg.regs j)
unfolding arm_get_exception_name atoi c_string
irq_main-serve_example =
    irq_main-serve line false (bytes "localhost") (bytes "5000") (bytes "reset") 1 5 3 machine []
      (omega arith) (omega arith) refl
      (record {
        socket = 3;
        port_number = 5000;
        address = 1;
        made = [];
        set = [];
        found = [];
        connected = [];
        written = λ bs. bs;
        served = λ bs. [];
        makes = refl;
        sets = refl;
        names = refl;
        finds = refl;
        connects = refl;
        writes = λ bs. refl;
        delivers = λ bs. next_one refl (line-Delivers bs) no_more;
      })
      (omega arith)

-- Sixteen words.
abbrev numbered : ℕ → ℕ
numbered j = j % 16 * 4

abbrev said : List ℕ
said = all_said (registers_said false false numbered (λ j. 0) 0x600001d3)

gdb_listener-registers_example :
    (d : Parser) × (gdb_listener line false false (λ j. 0) 3 5000 connected said
      ≡ ok (some (d, [])))
    × (d.gdb.calls ≡ answers false false numbered 0x600001d3 [])
unfolding create_server htons reverse_2 get_mode read_cpsr
gdb_listener-registers_example =
    gdb_listener-registers line false false (λ j. 0) 3 5000 numbered (λ j. 0) 0x600001d3 connected
      said []
      (record {
        server = record { socket = 3; port = 0x1390 };
        listening = said;
        connection = 4;
        accepted = said;
        received = [];
        makes = refl;
        accepts = refl;
        opens = refl;
        reads = refl;
        closes = refl;
      })
      (λ j. omega arith) (λ j. omega arith) (omega arith) refl refl refl (omega arith)

-- `?` and an acknowledgement of its answer.
abbrev asks_reason : List Message
asks_reason = command (b'?' ∷ []) ∷ acknowledge ∷ []

abbrev fresh_parser : Parser
fresh_parser = record { gdb = connected; buffer = λ j. 0; len = 0 }

yylex-conversation_example :
    yylex false false 5 (all_said asks_reason) fresh_parser
    ≡ (conversation false false 5 asks_reason connected >>= λ o. finished fresh_parser o)
yylex-conversation_example =
    yylex-conversation false false 5 asks_reason fresh_parser ((omega arith, omega arith, tt), tt)
      refl
