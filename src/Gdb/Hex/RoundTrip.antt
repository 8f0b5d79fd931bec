-- ===== src/Gdb/Hex/RoundTrip.antt =====
-- A word through the eight characters that stand for it.
use projet_s5_prog.Common.{
  Bool, List, Option, ap, arith, false, none, ok, refl, some, true, ℕ, ◌%◌, ◌++◌, ◌/◌, ◌<◌, ◌^◌,
  ◌∙◌, ◌∷◌, ◌≡◌,
}
use projet_s5_prog.Text.{c_string, drop, found, hex_char, print_02x, scan_x}
use projet_s5_prog.Text.Scanned.{scan_x-print_02x}
use projet_s5_prog.Gdb.Hex.{byte_at, integer_of, place, read_byte, read_uint32, write_uint32}
use projet_s5_prog.Common.Ensures.{bind-ok}

c_string-two :
    (a b : ℕ) (s : List ℕ)
    → a < 16
    → b < 16
    → c_string (hex_char a ∷ hex_char b ∷ s) ≡ hex_char a ∷ hex_char b ∷ c_string s
unfolding c_string
c_string-two a b s h g = ground arith

-- The bytes in the order of the loop make the word again.
integer_of-byte_at :
    (host target : Bool) (value : ℕ)
    → value < 2 ^ 32
    → (let b = λ (k : ℕ). byte_at host target value (place host target k) in
        integer_of host target (b 0) (b 1) (b 2) (b 3))
      ≡ value
integer_of-byte_at true true value h = omega arith
integer_of-byte_at true false value h = omega arith
integer_of-byte_at false true value h = omega arith
integer_of-byte_at false false value h = omega arith

module _ (host target : Bool) where
  read_byte-found :
      (value : Option ℕ) (c d v : ℕ) (s rest : List ℕ)
      → scan_x 2 (c_string (c ∷ d ∷ s)) ≡ found v rest
      → read_byte host target value (c ∷ d ∷ s) ≡ ok (v, s)
  unfolding read_byte drop
  read_byte-found value c d v s rest e = rw (read_byte, e) refl

  read_byte-print_02x :
      (value : Option ℕ) (v : ℕ) (s : List ℕ)
      → v < 256
      → read_byte host target value (print_02x v ++ s) ≡ ok (v, s)
  read_byte-print_02x value v s h =
      read_byte-found value (hex_char (v / 16)) (hex_char (v % 16)) v s (c_string s) (
        ap (scan_x 2) (c_string-two (v / 16) (v % 16) s (omega arith) (omega arith))
        ∙ scan_x-print_02x v (c_string s) h)

  byte_at-lt : (value i : ℕ) → byte_at host target value i < 256
  byte_at-lt value i = ground arith

  -- A word written as hexadecimal text for the debugger and read from that text is the same word,
  -- whatever follows the text, for each byte order of the host and of the target.
  pub read_uint32-write_uint32 :
      (value : ℕ) (s : List ℕ)
      → value < 2 ^ 32
      → read_uint32 host target (write_uint32 host target value ++ s) ≡ ok value
  unfolding read_uint32 write_uint32
  read_uint32-write_uint32 value s h =
      let b = λ (k : ℕ). byte_at host target value (place host target k) in
      let lt = λ (k : ℕ). byte_at-lt value (place host target k) in
      let s3 = print_02x (b 3) ++ s in
      let s2 = print_02x (b 2) ++ s3 in
      let s1 = print_02x (b 1) ++ s2 in
      bind-ok _ (read_byte-print_02x none (b 0) s1 (lt 0))
      ∙ bind-ok _ (read_byte-print_02x (some (b 0)) (b 1) s2 (lt 1))
      ∙ bind-ok _ (read_byte-print_02x (some (b 1)) (b 2) s3 (lt 2))
      ∙ bind-ok _ (read_byte-print_02x (some (b 2)) (b 3) s (lt 3))
      ∙ ap ok (integer_of-byte_at host target value h)
