-- ===== src/Gdb/Hex.antt =====
-- `write_uint32` and `read_uint32` of gdb_protocol.c.
pub mod RoundTrip
use projet_s5_prog.Common.{
  Bool, List, Option, Outcome, [], fault, if◌then◌else◌, none, of_bool, ok, some, u8, ℕ, ◌%◌, ◌*◌,
  ◌++◌, ◌+◌, ◌-◌, ◌/◌, ◌==◌, ◌>>=◌, ◌^◌, ◌∷◌,
}
use projet_s5_prog.Text.{c_string, drop, found, missing, overflow, print_02x, scan_x}

module _ (host target : Bool) where
  -- `mem.bytes[i]` of the union, on a host that is big endian or not, of `mem.integer = value`.
  abbrev pub byte_at : ℕ → ℕ → ℕ
  byte_at value i = if host then value / 2 ^ (8 * (3 - i)) % 256 else value / 2 ^ (8 * i) % 256

  -- The places that the loop goes through: up from 0 or down from 3.
  abbrev pub place : ℕ → ℕ
  place k = if of_bool host == of_bool target then k else 3 - k

  unfoldable pub write_uint32 : ℕ → List ℕ
  write_uint32 value =
      print_02x (byte_at value (place 0))
      ++ print_02x (byte_at value (place 1))
      ++ print_02x (byte_at value (place 2))
      ++ print_02x (byte_at value (place 3))

  -- `sscanf(data, "%02x", &value)` and `data += 2`; `value` is the last one read, or unset.
  unfoldable pub read_byte : Option ℕ → List ℕ → Outcome (ℕ × List ℕ)
  read_byte value [] = fault
  read_byte value (c ∷ s) = elim (scan_x 2 (c_string (c ∷ s))) [
    | missing ↦ elim value [ none ↦ fault | some v ↦ ok (v, drop 1 s) ]
    | overflow ↦ fault
    | found v rest ↦ ok (v, drop 1 s)
  ]

  -- `mem.integer` after the four values were stored one after the other.
  abbrev pub integer_of : ℕ → ℕ → ℕ → ℕ → ℕ
  integer_of a b c d =
      let at = λ (i : ℕ).
        let k = place i in
        u8 (if k == 0 then a else if k == 1 then b else if k == 2 then c else d) in
      if host
      then at 0 * 2 ^ 24 + at 1 * 2 ^ 16 + at 2 * 2 ^ 8 + at 3
      else at 3 * 2 ^ 24 + at 2 * 2 ^ 16 + at 1 * 2 ^ 8 + at 0

  unfoldable pub read_uint32 : List ℕ → Outcome ℕ
  unfolding read_byte
  read_uint32 data_ = do
    r0 ← read_byte none data_
    r1 ← read_byte (some r0.0) r0.1
    r2 ← read_byte (some r1.0) r1.1
    r3 ← read_byte (some r2.0) r2.1
    ok (integer_of r0.0 r1.0 r2.0 r3.0)
