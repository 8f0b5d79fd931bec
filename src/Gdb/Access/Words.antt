-- ===== src/Gdb/Access/Words.antt =====
-- The commands on one register: what is written is read back, and how the register is named.
use mathlib.Core.Option
use projet_s5_prog.Common.{
  Bool, List, [], ap, arith, false, if◌then◌else◌, ltb, ok, refl, some, sub32, suc, sym, true, ℕ,
  ◌*◌, ◌++◌, ◌+◌, ◌<◌, ◌==◌, ◌^◌, ◌∙◌, ◌∷◌, ◌≡◌, ◌≤◌,
}
use projet_s5_prog.Text.{
  after_char, atoi, bytes, c_string, decimal, drop_blanks, found, hex_char, length, scan_digits,
  scan_prefix, scan_sign, scan_x,
}
use projet_s5_prog.Text.Scanned.{
  drop_blanks-hex, hex_digit-hex_char, scan_digits-suc, scan_sign-hex,
}
use projet_s5_prog.Common.Ensures.{bind-ok}
use projet_s5_prog.Core.{ArmCore, arm_read_register, arm_write_register}
use projet_s5_prog.Registers.{get_mode}
use projet_s5_prog.Gdb.{
  Gdb, rio_writen, checksum, framed, gdb_send_buffer, gdb_send_data, gdb_transmit_packet,
}
use projet_s5_prog.Gdb.Sent.{gdb_send_buffer-fits, sent}
use projet_s5_prog.Gdb.Hex.{read_uint32, write_uint32}
use projet_s5_prog.Gdb.Hex.RoundTrip.{read_uint32-write_uint32}
use projet_s5_prog.Gdb.Access.{read_register, write_register, write_scanned, write_value}
use projet_s5_prog.Registers.Bank.{is_mode}
use projet_s5_prog.Registers.Laws.{read_register-write_register}

-- The number of a register as one digit, and a string that ends there.
abbrev pub named : ℕ → List ℕ → List ℕ
named reg s = hex_char reg ∷ s

atoi-digit : (reg : ℕ) (s : List ℕ) → reg < 10 → atoi (c_string (named reg (0 ∷ s))) ≡ ok reg
unfolding atoi c_string decimal scan_sign drop_blanks
atoi-digit reg s h = ground arith

atoi-letter :
    (reg : ℕ) (s : List ℕ) → 10 ≤ reg → reg < 16 → atoi (c_string (named reg (0 ∷ s))) ≡ ok 0
unfolding atoi c_string decimal scan_sign drop_blanks
atoi-letter reg s h g = ground arith

-- A register named in hexadecimal in front of `=`.
module _ (reg : ℕ) (t : List ℕ) (h : reg < 16) where
  c_string-named : c_string (named reg (b'=' ∷ t)) ≡ hex_char reg ∷ b'=' ∷ c_string t
  unfolding c_string
  c_string-named = ground arith

  scan_prefix-named :
      (w : ℕ)
      → scan_prefix w (hex_char reg ∷ b'=' ∷ c_string t) ≡ (w, hex_char reg ∷ b'=' ∷ c_string t)
  unfolding scan_prefix
  scan_prefix-named w = ground arith

  digit-named :
      (w : ℕ)
      → scan_digits (suc (suc w)) (hex_char reg ∷ b'=' ∷ c_string t) false 0
        ≡ (true, reg, b'=' ∷ c_string t)
  digit-named w =
      let value : 0 * 16 + reg ≡ reg = omega arith in
      scan_digits-suc (suc w) (hex_char reg) reg (b'=' ∷ c_string t) false 0
        (hex_digit-hex_char reg h)
      ∙ (unfold scan_digits in rw value refl)

  scan_x-named :
      (w : ℕ)
      → scan_x (suc (suc w)) (c_string (named reg (b'=' ∷ t))) ≡ found reg (b'=' ∷ c_string t)
  scan_x-named w = ap (scan_x (suc (suc w))) c_string-named ∙ step
    where
      step : scan_x (suc (suc w)) (hex_char reg ∷ b'=' ∷ c_string t) ≡ found reg (b'=' ∷ c_string t)
      step =
          unfold scan_x in
          rw
            (
              drop_blanks-hex reg (b'=' ∷ c_string t) h,
              scan_sign-hex reg (suc (suc w)) (b'=' ∷ c_string t) h,
              scan_prefix-named (suc (suc w)),
              digit-named w,
            )
            (ground arith)

  after_char-named : after_char b'=' (named reg (b'=' ∷ t)) ≡ some t
  unfolding after_char
  after_char-named = ground arith

module _ (host target : Bool) where
  pub write_register-named :
      (reg v : ℕ) (s : List ℕ) (g : Gdb)
      → reg < 16
      → v < 2 ^ 32
      → write_register host target (named reg (b'=' ∷ write_uint32 host target v ++ s)) g
        ≡ ok (sent (bytes "OK") (record g { arm = arm_write_register g.arm reg v }))
  unfolding write_register write_scanned write_value gdb_send_data
  write_register-named reg v s g h fits =
      let t = write_uint32 host target v ++ s in
      let data_ = named reg (b'=' ∷ t) in
      let inside : ltb reg 16 ≡ true = ground arith in
      ap (write_scanned host target data_ g) (scan_x-named reg t h (length t))
      ∙ bind-ok (write_value host target reg g) (
          ap (λ o. read_uint32 host target (Option.get_or o [])) (after_char-named reg t h)
          ∙ read_uint32-write_uint32 host target v s fits)
      ∙ rw inside (
          gdb_send_buffer-fits (bytes "OK") (record g { arm = arm_write_register g.arm reg v })
            (omega arith))

  pub read_register-named :
      (reg : ℕ) (s : List ℕ) (g : Gdb)
      → reg < 10
      → arm_read_register g.arm reg < 2 ^ 32
      → read_register host target (named reg (0 ∷ s)) g
        ≡ ok (sent (write_uint32 host target (arm_read_register g.arm reg)) g)
  unfolding read_register
  read_register-named reg s g h fits =
      let inside : ltb reg 16 ≡ true = ground arith in
      let value : sub32 (arm_read_register g.arm reg) (if reg == 15 then 4 else 0)
          ≡ arm_read_register g.arm reg =
        ground arith in
      bind-ok _ (atoi-digit reg s h)
      ∙ rw inside (
          ap (λ v. gdb_send_buffer (write_uint32 host target v) g) value
          ∙ gdb_send_buffer-fits (write_uint32 host target (arm_read_register g.arm reg)) g
              (unfold write_uint32 in omega arith))

  -- The register read after the write.
  read_written :
      (p : ArmCore) (reg v : ℕ)
      → reg < 10
      → is_mode (get_mode p.reg) ≡ true
      → arm_read_register (arm_write_register p reg v) reg ≡ v
  unfolding arm_read_register arm_write_register
  read_written p reg v h mode =
      ground (arith, read_register-write_register p.reg reg reg v (omega arith) (omega arith) mode)

  -- The command to write a word to one of R0 to R9 and then the command to read that register
  -- succeed. The packet OK and then the packet with the word in hexadecimal are written to the
  -- connection, and nothing else. The processor is in one of the seven modes; `s` and `t` stand for
  -- what lies behind the text of each command.
  pub read_register-write_register_text :
      (reg v : ℕ) (s t : List ℕ) (g : Gdb)
      → reg < 10
      → v < 2 ^ 32
      → is_mode (get_mode g.arm.reg) ≡ true
      → (g1 g2 : Gdb) × (write_register host target
            (named reg (b'=' ∷ write_uint32 host target v ++ s))
            g
          ≡ ok g1)
        × (read_register host target (named reg (0 ∷ t)) g1 ≡ ok g2)
        × (g2.calls
            ≡ rio_writen
                (framed (write_uint32 host target v) (checksum (write_uint32 host target v) 0))
              ∷ rio_writen (framed (bytes "OK") (checksum (bytes "OK") 0))
              ∷ g.calls)
  read_register-write_register_text reg v s t g h fits mode =
      let g1 = sent (bytes "OK") (record g { arm = arm_write_register g.arm reg v }) in
      let same : arm_read_register g1.arm reg ≡ v =
        unfold gdb_transmit_packet in read_written g.arm reg v h mode in
      (
        g1,
        sent (write_uint32 host target v) g1,
        write_register-named reg v s g (omega arith) fits,
        read_register-named reg t g1 h (omega (arith, same))
            ∙ ap (λ x. ok (sent (write_uint32 host target x) g1)) same,
        (unfold gdb_transmit_packet in refl),
      )

  -- The command to read a register takes its number in decimal, where the debugger names R10 to
  -- R15 by letters: it answers as for R0.
  pub read_register-letter :
      (reg : ℕ) (s : List ℕ) (g : Gdb)
      → 10 ≤ reg
      → reg < 16
      → read_register host target (named reg (0 ∷ s)) g
        ≡ read_register host target (named 0 (0 ∷ s)) g
  unfolding read_register
  read_register-letter reg s g h fits =
      bind-ok _ (atoi-letter reg s h fits) ∙ sym (bind-ok _ (atoi-digit 0 s (omega arith)))
