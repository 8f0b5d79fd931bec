-- ===== src/Gdb/Access.antt =====
-- gdb_protocol.c: the commands that read and write registers and memory.
pub mod Kept
pub mod Words
pub mod Bytes
pub mod General
use mathlib.Core.Option
use projet_s5_prog.Common.{
  Bool, List, Option, Outcome, [], add32, assertion, bit_xor, false, fault, if◌then◌else◌, ltb,
  none, ok, some, sub32, suc, true, u8, zero, ℕ, ◌*◌, ◌++◌, ◌+◌, ◌==◌, ◌>>=◌, ◌∷◌,
}
use projet_s5_prog.Text.{
  Scan, after_char, atoi, bytes, c_string, drop, found, length, missing, overflow, print_02x,
  scan_x,
}
use projet_s5_prog.Memory.{Memory, memory_get_size, memory_read_byte, memory_write_byte}
use projet_s5_prog.Core.{
  ArmCore, arm_read_cpsr, arm_read_register, arm_write_cpsr, arm_write_register, written,
}
use projet_s5_prog.Gdb.{Gdb, gdb_send_buffer, gdb_send_data, max_packet_size}
use projet_s5_prog.Gdb.Hex.{read_uint32, write_uint32}

-- `sscanf(data, "%x,%x", &address, &size)`, from its second conversion on and from its first
-- on; a variable that it does not set is used all the same.
unfoldable pub second_scanned : ℕ → Scan → Outcome (ℕ × ℕ)
second_scanned address missing = fault
second_scanned address overflow = fault
second_scanned address (found size rest) = ok (address, size)

unfoldable pub first_scanned : Scan → Outcome (ℕ × ℕ)
unfolding second_scanned
first_scanned missing = fault
first_scanned overflow = fault
first_scanned (found address []) = fault
first_scanned (found address (c ∷ s)) =
    if c == b',' then second_scanned address (scan_x (length s) s) else fault

unfoldable pub scan_pair : List ℕ → Outcome (ℕ × ℕ)
unfolding first_scanned
scan_pair data_ = first_scanned (scan_x (length data_) (c_string data_))

-- One byte of `content`, unescaped; beyond the end of the packet there is nothing to read.
unfoldable pub take_byte : List ℕ → Outcome (ℕ × List ℕ)
take_byte [] = fault
take_byte (c ∷ s) =
    if c == 0x7d then (elim s [ [] ↦ fault | d ∷ t ↦ ok (bit_xor d 0x20, t) ]) else ok (c, s)

-- `sprintf(position, "%02x", value)`, with `text` before `position` in the buffer.
unfoldable pub put_byte : List ℕ → ℕ → Outcome (List ℕ)
put_byte text value =
    if ltb (length text + 3) max_packet_size then ok (text ++ print_02x value) else fault

-- The loop of `read_memory` with `size` rounds to go.
unfoldable pub memory_text : ℕ → ℕ → List ℕ → Memory → Outcome (List ℕ)
memory_text zero address text mem = ok text
memory_text (suc size) address text mem = memory_read_byte mem address >>= λ value. elim value [
  | none ↦ ok text
  | some v ↦ put_byte text v >>= λ text'. memory_text size (add32 address 1) text' mem
]

unfoldable pub read_memory : List ℕ → Gdb → Outcome Gdb
unfolding scan_pair
read_memory data_ g =
    scan_pair data_ >>= λ r. memory_text r.1 r.0 [] g.arm.mem >>= λ text. gdb_send_buffer text g

-- The loop of `write_memory_binary`: `write_ok` at its end, and the memory.
unfoldable pub write_bytes : ℕ → ℕ → List ℕ → Memory → Outcome (Bool × Memory)
unfolding take_byte
write_bytes zero address content mem = ok (true, mem)
write_bytes (suc size) address content mem = take_byte content >>= λ b.
    memory_write_byte mem address (u8 b.0) >>= λ written. elim written [
      | none ↦ ok (false, mem)
      | some mem' ↦ write_bytes size (add32 address 1) b.1 mem'
    ]

unfoldable pub write_memory_binary : List ℕ → Gdb → Outcome Gdb
unfolding scan_pair
write_memory_binary data_ g = scan_pair data_ >>= λ r.
    let content = Option.get_or (after_char b':' data_) [] in
    (if ltb r.0 (memory_get_size g.arm.mem)
      then write_bytes r.1 r.0 content g.arm.mem
      else ok (false, g.arm.mem))
    >>= λ done.
        gdb_send_data (if done.0 then bytes "OK" else bytes "E02")
          (record g { arm = record g.arm { mem = done.1 } })

module _ (host target : Bool) where
  -- The pc is one instruction ahead.
  abbrev pub register_text : ArmCore → ℕ → List ℕ
  register_text p reg =
      write_uint32 host target (sub32 (arm_read_register p reg) (if reg == 15 then 4 else 0))

  unfoldable pub read_register : List ℕ → Gdb → Outcome Gdb
  read_register data_ g = atoi (c_string data_) >>= λ reg.
      if ltb reg 16 then gdb_send_buffer (register_text g.arm reg) g else assertion

  -- The end of `write_register`, and what follows the conversion of the number.
  unfoldable pub write_value : ℕ → Gdb → ℕ → Outcome Gdb
  write_value reg g value =
      if ltb reg 16
      then gdb_send_data (bytes "OK") (record g { arm = arm_write_register g.arm reg value })
      else assertion

  unfoldable pub write_scanned : List ℕ → Gdb → Scan → Outcome Gdb
  unfolding write_value
  write_scanned data_ g missing = fault
  write_scanned data_ g overflow = fault
  write_scanned data_ g (found reg rest) =
      read_uint32 host target (Option.get_or (after_char b'=' data_) []) >>= λ value.
      write_value reg g value

  unfoldable pub write_register : List ℕ → Gdb → Outcome Gdb
  unfolding write_scanned
  write_register data_ g = write_scanned data_ g (scan_x (length data_) (c_string data_))

  -- The registers from `i` on, `left` of them.
  unfoldable pub registers_text : ℕ → ℕ → ArmCore → List ℕ
  registers_text zero i p = []
  registers_text (suc left) i p =
      write_uint32 host target (arm_read_register p i) ++ registers_text left (i + 1) p

  -- `n` registers that are not implemented.
  abbrev pub no_registers : ℕ → List ℕ
  no_registers zero = []
  no_registers (suc n) = bytes "xxxxxxxx" ++ no_registers n

  unfoldable pub read_general_registers : Gdb → Outcome Gdb
  unfolding registers_text
  read_general_registers g =
      gdb_send_buffer
        (registers_text 15 0 g.arm
          ++ (register_text g.arm 15
              ++ (no_registers (8 * 3)
                  ++ (no_registers 1 ++ write_uint32 host target (arm_read_cpsr g.arm)))))
        g

  unfoldable pub write_registers : ℕ → ℕ → List ℕ → ArmCore → Outcome ArmCore
  write_registers zero i data_ p = ok p
  write_registers (suc left) i data_ p = read_uint32 host target data_ >>= λ value.
      write_registers left (i + 1) (drop 8 data_) (arm_write_register p i value)

  -- The words read for the registers f0 to f7 and for fps, whose values are not used: the place
  -- behind `left` of them.
  unfoldable pub skip_words : ℕ → List ℕ → Outcome (List ℕ)
  skip_words zero data_ = ok data_
  skip_words (suc left) data_ =
      read_uint32 host target data_ >>= λ value. skip_words left (drop 8 data_)

  unfoldable pub write_general_registers : List ℕ → Gdb → Outcome Gdb
  unfolding write_registers skip_words
  write_general_registers data_ g = do
    p ← write_registers 16 0 data_ g.arm
    position ← skip_words (8 * 3 + 1) (drop (8 * 16) data_)
    value ← read_uint32 host target position
    gdb_send_data (bytes "OK") (record g { arm = arm_write_cpsr p value })
