-- ===== src/Gdb/Packet.antt =====
-- gdb_protocol.c: the packets that come in, and the commands without an effect on the processor.
pub mod Framing
pub mod Kept
use projet_s5_prog.Common.{
  Bool, List, Option, Outcome, [], fault, if◌then◌else◌, minus_one, ok, some, ℕ, ◌&&◌, ◌++◌, ◌+◌,
  ◌-◌, ◌==◌, ◌>>=◌, ◌||◌, ◌∷◌,
}
use projet_s5_prog.Text.{
  Scan, atoi, bytes, c_string, drop, found, has_prefix, length, missing, overflow, same_text,
  scan_x, take,
}
use projet_s5_prog.Gdb.{
  Gdb, called, checksum, gdb_require_retransmission, gdb_send_ack, gdb_send_data, shutdown_wr,
}
use projet_s5_prog.Gdb.Run.{cont, gdb_send_stop_reason, step}
use projet_s5_prog.Gdb.Access.{
  read_general_registers, read_memory, read_register, write_general_registers, write_memory_binary,
  write_register,
}

unfoldable pub kill_request : Gdb → Gdb
kill_request g = called shutdown_wr g

unfoldable pub query : List ℕ → Gdb → Outcome Gdb
query data_ g =
    let s = c_string data_ in
    if same_text s (bytes "Offsets")
    then gdb_send_data (bytes "Text=0;Data=0;Bss=0") g
    else if has_prefix (bytes "Supported") s
    then gdb_send_data (bytes "PacketSize=400") g
    else if same_text s (bytes "TStatus")
    then gdb_send_data (bytes "T0;tnotrun:0") g
    else if same_text s (bytes "Symbol::")
    then gdb_send_data [] g
    else gdb_send_data [] g

-- The value is an `int`: above -2 and below 1.
unfoldable pub set_thread : List ℕ → Gdb → Outcome Gdb
set_thread [] g = fault
set_thread (type_ ∷ s) g = atoi (c_string s) >>= λ value.
    if (type_ == b'c' || type_ == b'g') && (value == 0 || value == minus_one)
    then gdb_send_data (bytes "OK") g
    else gdb_send_data (bytes "E01") g

-- Only the command to continue may run out of rounds.
abbrev pub answered : Outcome Gdb → Outcome (Option Gdb)
answered o = o >>= λ g. ok (some g)

-- The characters that the checksum is over, those between `$` and `#`.
abbrev pub payload : List ℕ → List ℕ
payload packet = take (length packet - 4) (drop 1 packet)

-- What stands behind the payload and the `#`.
abbrev pub check_digits : List ℕ → List ℕ
check_digits packet = drop (length (payload packet) + 2) packet

module _ (host target : Bool) where
  -- `handler[index](gdb, data)`; without a handler the answer is empty.
  unfoldable pub handle : ℕ → ℕ → List ℕ → Gdb → Outcome (Option Gdb)
  handle fuel index data_ g =
      if index == b'c'
      then cont fuel g
      else if index == b'k'
      then ok (some (kill_request g))
      else if index == b'q'
      then answered (query data_ g)
      else if index == b'g'
      then answered (read_general_registers host target g)
      else if index == b'm'
      then answered (read_memory data_ g)
      else if index == b'p'
      then answered (read_register host target data_ g)
      else if index == b'?'
      then answered (gdb_send_stop_reason g)
      else if index == b'H'
      then answered (set_thread data_ g)
      else if index == b's'
      then answered (step g)
      else if index == b'G'
      then answered (write_general_registers host target data_ g)
      else if index == b'X'
      then answered (write_memory_binary data_ g)
      else if index == b'P'
      then answered (write_register host target data_ g)
      else answered (gdb_send_data [] g)

  -- A handler with the characters of the packet behind the first two, the `#` set to 0.
  unfoldable pub gdb_packet_command : ℕ → List ℕ → Gdb → Outcome (Option Gdb)
  gdb_packet_command fuel [] g = fault
  gdb_packet_command fuel (index ∷ data_) g = handle fuel index data_ g

  -- What follows the conversion of the two digits, with the payload and the digits.
  unfoldable pub checked : ℕ → List ℕ → List ℕ → Gdb → Scan → Outcome (Option Gdb)
  unfolding gdb_packet_command
  checked fuel text digits g missing = fault
  checked fuel text digits g overflow = fault
  checked fuel text digits g (found given rest) =
      if checksum text 0 == given
      then gdb_packet_command fuel (text ++ 0 ∷ digits ++ 0 ∷ []) (gdb_send_ack g)
      else ok (some (gdb_require_retransmission g))

  -- `packet` is the text that the scanner matched, without the 0 behind it.
  unfoldable pub gdb_packet_analysis : ℕ → List ℕ → Gdb → Outcome (Option Gdb)
  unfolding checked
  gdb_packet_analysis fuel packet g =
      let digits = check_digits packet in
      checked fuel (payload packet) digits g (scan_x (length digits) (c_string digits))
