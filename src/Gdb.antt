-- ===== src/Gdb.antt =====
-- gdb_protocol.c: the connection with the debugger and the packets that are sent to it.
pub mod Sent
pub mod Hex
pub mod Run
pub mod Access
pub mod Packet
use projet_s5_prog.Common.{
  Bool, List, Option, Outcome, [], false, fault, if◌then◌else◌, ltb, none, ok, some, true, u8, ℕ,
  ◌++◌, ◌+◌, ◌-◌, ◌∷◌,
}
use projet_s5_prog.Text.{bytes, length, print_02x}
use projet_s5_prog.Core.{ArmCore}

-- The calls that reach the connection: bytes written to it, and its end for writing.
pub data Call : Type 0 where
  rio_writen : List ℕ → Call
  shutdown_wr : Call

-- `mem` is the memory of `arm`: the simulator makes one and hands it to both. `packet` holds the
-- `len` characters of the last packet, and `calls` what was called, the last call first.
pub record Gdb : Type 0 where
  pub arm : ArmCore
  pub target_exception : ℕ
  pub packet : List ℕ
  pub calls : List Call

-- The argument is whether `malloc` gives a block.
unfoldable pub gdb_init_data : Bool → ArmCore → Option Gdb
gdb_init_data false arm = none
gdb_init_data true arm = some (record { arm = arm; target_exception = 0; packet = []; calls = [] })

abbrev pub called : Call → Gdb → Gdb
called c g = record g { calls = c ∷ g.calls }

unfoldable pub gdb_send_ack : Gdb → Gdb
gdb_send_ack g = called (rio_writen (bytes "+")) g

unfoldable pub gdb_require_retransmission : Gdb → Gdb
gdb_require_retransmission g = called (rio_writen (bytes "-")) g

unfoldable pub gdb_transmit_packet : Gdb → Gdb
gdb_transmit_packet g = called (rio_writen g.packet) g

-- `check += c` over some characters, in an `unsigned char`.
unfoldable pub checksum : List ℕ → ℕ → ℕ
checksum [] check = check
checksum (c ∷ s) check = checksum s (u8 (check + c))

abbrev pub max_packet_size : ℕ
max_packet_size = 1024

-- The packet around `text`: its last character, a 0, has the index `length text + 4`.
unfoldable pub framed : List ℕ → ℕ → List ℕ
framed text check = b'$' ∷ (text ++ b'#' ∷ print_02x check)

-- `text` is what stands in the buffer, behind the first character of the packet.
unfoldable pub gdb_send_buffer : List ℕ → Gdb → Outcome Gdb
unfolding gdb_transmit_packet framed checksum
gdb_send_buffer text g =
    if ltb (length text + 4) max_packet_size
    then ok (gdb_transmit_packet (record g { packet = framed text (checksum text 0) }))
    else fault

unfoldable pub gdb_send_data : List ℕ → Gdb → Outcome Gdb
unfolding gdb_send_buffer
gdb_send_data data_ g = gdb_send_buffer data_ g
