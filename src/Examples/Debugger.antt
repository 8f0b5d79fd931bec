-- ===== src/Examples/Debugger.antt =====
-- The theorems on the debugger protocol, at concrete connections.
use projet_s5_prog.Registers
use projet_s5_prog.Registers.{get_mode}
use projet_s5_prog.Common.{
  List, [], arith, false, if◌then◌else◌, ok, refl, some, true, ℕ, ◌++◌, ◌==◌, ◌∷◌, ◌≡◌,
}
use projet_s5_prog.Common.Ensures.{Ensures}
use projet_s5_prog.Text.{after_char, bytes, c_string, print_02x, scan_x}
use projet_s5_prog.Memory.{Memory, load_cell, memory_read_word}
use projet_s5_prog.Core.{arm_read_register, arm_read_word}
use projet_s5_prog.Gdb.{Gdb, checksum, framed, gdb_require_retransmission, gdb_send_ack, rio_writen}
use projet_s5_prog.Gdb.Hex.{write_uint32}
use projet_s5_prog.Gdb.Run.{cont}
use projet_s5_prog.Gdb.Run.Breakpoint.{Answered, cont-Stopped}
use projet_s5_prog.Gdb.Run.Reached.{ahead_word, cont-RunsTo, here, stop_answer}
use projet_s5_prog.Gdb.Packet.{gdb_packet_analysis, gdb_packet_command}
use projet_s5_prog.Gdb.Packet.Framing.{gdb_packet_analysis-framed}
use projet_s5_prog.Gdb.Access.{
  read_memory, read_register, scan_pair, write_memory_binary, write_register,
}
use projet_s5_prog.Gdb.Access.Words.{named, read_register-write_register_text}
use projet_s5_prog.Gdb.Access.Bytes.{escaped, hex_bytes, read_memory-write_memory_binary}
use projet_s5_prog.Examples.{machine, supervisor}

-- A connection with nothing sent yet.
abbrev pub connected : Gdb
connected = record { arm = machine; target_exception = 0; packet = []; calls = [] }

-- A memory whose first word is the breakpoint of the debugger, and a processor at its start.
abbrev breakpoint : Memory
breakpoint = record {
  is_big_endian = true;
  size = 16;
  adresses = λ j. if j == 0 then 0xE7 else if j == 1 then 0xF0 else if j == 2 then 0x01 else 0xF0;
}

abbrev stopping : Gdb
stopping = record connected { arm = record { cycle_count = 0; reg = supervisor; mem = breakpoint } }

breakpoint_ahead : ahead_word stopping.arm ≡ ok (some 0xE7F001F0)
unfolding arm_read_register Registers.read_register arm_read_word memory_read_word load_cell
breakpoint_ahead = refl

cont-RunsTo_example :
    (g' : Gdb) × (cont 1 stopping ≡ ok (some g'))
    × (g'.arm ≡ stopping.arm)
    × (g'.target_exception ≡ 0)
    × (g'.calls ≡ stop_answer 0 ∷ [])
cont-RunsTo_example =
    cont-RunsTo stopping 1 0 stopping.arm (here 0xE7F001F0 breakpoint_ahead refl) (omega arith)

cont-Stopped_example : Ensures (Answered stopping 1) (cont 1 stopping)
cont-Stopped_example = cont-Stopped stopping 1

gdb_packet_analysis-framed_example :
    gdb_packet_analysis false false 0 (framed (bytes "OK") 0x9b) connected ≡ (
      if checksum (bytes "OK") 0 == 0x9b
      then gdb_packet_command false false 0
          (bytes "OK" ++ 0 ∷ print_02x 0x9b ++ 0 ∷ [])
          (gdb_send_ack connected)
      else ok (some (gdb_require_retransmission connected)))
gdb_packet_analysis-framed_example =
    gdb_packet_analysis-framed false false 0 0x9b (bytes "OK") connected (omega arith)

read_register-write_register_text_example :
    (g1 g2 : Gdb) × (write_register false false
        (named 2 (b'=' ∷ write_uint32 false false 0x1234 ++ []))
        connected
      ≡ ok g1)
    × (read_register false false (named 2 (0 ∷ [])) g1 ≡ ok g2)
    × (g2.calls
        ≡ rio_writen (
            framed (write_uint32 false false 0x1234) (checksum (write_uint32 false false 0x1234) 0))
          ∷ rio_writen (framed (bytes "OK") (checksum (bytes "OK") 0))
          ∷ [])
unfolding get_mode
read_register-write_register_text_example =
    read_register-write_register_text false false 2 0x1234 [] [] connected (omega arith)
      (omega arith) refl

-- The commands that write the bytes 35 and 1 at the address 4, the first one escaped, and read them.
abbrev write_two : List ℕ
write_two = bytes "4,2:" ++ 0x7d ∷ 3 ∷ 1 ∷ 0 ∷ []

abbrev read_two : List ℕ
read_two = bytes "4,2" ++ 0 ∷ []

scanned_write : scan_pair write_two ≡ ok (4, 2)
unfolding scan_pair c_string scan_x
scanned_write = refl

content : after_char b':' write_two ≡ some (escaped (35 ∷ 1 ∷ []) ++ 0 ∷ [])
unfolding after_char
content = refl

scanned_read : scan_pair read_two ≡ ok (4, 2)
unfolding scan_pair c_string scan_x
scanned_read = refl

read_memory-write_memory_binary_example :
    (g1 g2 : Gdb) × (write_memory_binary write_two connected ≡ ok g1)
    × (read_memory read_two g1 ≡ ok g2)
    × (g2.calls
        ≡ rio_writen (framed (hex_bytes (35 ∷ 1 ∷ [])) (checksum (hex_bytes (35 ∷ 1 ∷ [])) 0))
          ∷ rio_writen (framed (bytes "OK") (checksum (bytes "OK") 0))
          ∷ [])
read_memory-write_memory_binary_example =
    read_memory-write_memory_binary connected 4 (35 ∷ 1 ∷ []) (0 ∷ []) write_two read_two
      (omega arith, (omega arith, tt)) (omega arith) (omega arith) (omega arith) (omega arith)
      scanned_write content scanned_read
