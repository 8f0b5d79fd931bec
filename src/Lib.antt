-- ===== src/Lib.antt =====
-- A simulator of the ARMv5T instruction set: a processor with a memory, stepped by a debugger.
--
-- The parts, and the files that model them (names of the source in brackets):
--   Common        machine words over ℕ, results of runs, the native `&`, `|` and `^`
--                 (Common/Digits, Common/Bits), postconditions (Common/Ensures)
--   Util          bits, fields, byte reversal and shifts (util.h, util.c)
--   Memory        the array of bytes and its accesses (memory.c)
--   Constants     numbers of modes, flags and registers (arm_constants.h)
--   Registers     banks of registers over one array (registers.c)
--   Core          the processor: registers, memory and cycle counter, with the fetch, the accesses
--                 and the reset (arm_core.c, arm_exception.c)
--   Decode        the condition and the shifted operand (decode.c)
--   DataProcessing  the sixteen operations and their flags (arm_data_processing.c)
--   LoadStore     transfers of words, bytes, half and double words, and of several registers in
--                 LoadStore/Multiple (arm_load_store.c)
--   Branch        branches, software interrupts, reads of a status (arm_branch_other.c)
--   Instruction   the fetch, the dispatch and the step (arm_instruction.c)
--   Text          what the code uses of the standard library on strings and texts
--   Debug         the sorted table of file names and its binary search (debug.c); in Debug/Macros what
--                 the macros print, and the cache of their answers (debug.h)
--   Names         names of modes, registers and exceptions, and the search for the exception that a
--                 name stands for (arm_constants.c, send_irq.c)
--   Gdb           the protocol of the debugger (gdb_protocol.c): packets sent (Gdb), words in
--                 hexadecimal (Gdb/Hex), the commands that run (Gdb/Run), those on registers and
--                 memory (Gdb/Access), and the packets received (Gdb/Packet)
--   Scanner       the rules that find the packets in the input (scanner.l); in Scanner/Conversation
--                 what a debugger sends that keeps to the protocol
--   Trace         what is printed of accesses, with the tables of their words, and the stack of
--                 their places (trace.c)
--   StatePrint    what is printed of the state of the processor, with the traces of the registers
--                 it reads (arm_core.c, trace.c)
--   Network       the calls of the socket library, which are a parameter of the programs
--   Simulator     the options, the start and the two listeners as events (arm_simulator.c), and in
--                 Simulator/Listeners the servers and the listeners with their connections
--   SendIrq       the program that sends an interrupt (send_irq.c)
--   MemoryTest    the program that tests the memory (memory_test.c)
--   InsertionSort  the C program for the simulated machine (Examples/insertion_sort.c)
--   Examples      concrete states on which the theorems are applied
--
-- The scanner cuts what the debugger sends into matches and hands packets to Gdb/Packet, which
-- checks them and calls the handler of the command; the commands step the processor or read and
-- write its registers and its memory. An interrupt reaches the processor between two packets.
--
-- A step fetches a word at the pc through Core and Memory, tests its condition with Decode, and
-- hands it to DataProcessing, LoadStore or Branch, which read and write through Core. The state is
-- passed explicitly: a function of the source that changes the processor `p` returns the new one.
--
-- A uint32_t is a natural number below 2^32 with its wrap-around written out (`u32`, `add32`,
-- `sub32`). The registers are a function from the index in the array of the source to the value, and
-- the memory one from the address to the byte, with the size of the array beside it.
--
-- A run has a result of `Outcome`: `ok`, `fault` for what C leaves undefined (an access outside the
-- array, a shift by 32 places or more, the use of an unset variable), `assertion` for a failed
-- `assert`, and `exit_program` for `exit`. Result codes are kept: 0 or -1, or the number of an
-- exception; where the caller looks at -1 only to see that no value was read, an option stands for
-- both. The loops of the processor run over 15 or 16 registers and are structural recursions on the
-- rounds left, so no fuel is needed. The loop of the command to continue may run for ever: it has
-- fuel, the number of rounds, and gives `none` when it is spent. The binary search has one round
-- more than the table has names, the search of send_irq.c eight rounds, and the scanner as many
-- matches as characters, each of which is enough. The listener of the interrupts has a round for each
-- connection and fuel above the number of bytes of each; the inner loop of the insertion sort never
-- ends, so that no fuel is enough for it. Runs of the simulator are the relation `Steps` of
-- Instruction/Reachable, and those of the whole program the relation `Session` of Simulator/Session.
--
-- A connection is written to by recorded calls (`Call`): a packet that does not fit into its 1024
-- characters is a fault, as is each index outside a buffer or a table.
--
-- The socket library is the record `Network`: its calls over a state of the system, with what they
-- deliver as hypotheses of the theorems on the programs: `Delivers` and `Serves` of Network/Delivery,
-- `Connects` of Simulator/Listeners/Dialogue, and `Reaches` of SendIrq/Sent.
--
-- The processor is modelled with its traces off, as they are without an option: an access to a register
-- or to the memory prints nothing and looks no name up. What a trace prints is modelled apart.
--
-- Not modelled: usage texts and the other lines on stderr, the release of blocks, the creation of the
-- threads and the lock, the bodies of the socket library (csapp.c), and the scanner that flex
-- generates (scanner.c, lex.yyscanner.c): its rules are taken with the longest match and, among
-- equal ones, the first. What `malloc`, `fopen`, `fdopen`, `isprint` and `getopt_long` give is an
-- argument of the functions that call them.
pub mod Common
pub mod Util
pub mod Text
pub mod Memory
pub mod Constants
pub mod Registers
pub mod Core
pub mod Decode
pub mod DataProcessing
pub mod LoadStore
pub mod Branch
pub mod Instruction
pub mod Gdb
pub mod Examples
pub mod Debug
pub mod Scanner
pub mod Trace
pub mod Simulator
pub mod InsertionSort
pub mod Network
pub mod SendIrq
pub mod MemoryTest
pub mod StatePrint
pub mod Names
