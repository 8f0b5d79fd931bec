-- ===== src/Scanner/RegistersSaid.antt =====
-- A debugger that writes all registers and reads them, in the packets of its connection.
use mathlib.Core.List.{append_assoc}
use projet_s5_prog.Common.{
  Bool, List, [], ap, arith, ok, refl, some, suc, true, zero, ℕ, ◌%◌, ◌*◌, ◌++◌, ◌+◌, ◌/◌, ◌<◌, ◌^◌,
  ◌∙◌, ◌∷◌, ◌≡◌, ◌≢◌,
}
use projet_s5_prog.Text.{bytes, hex_char, print_02x}
use projet_s5_prog.Gdb.Hex.{byte_at, place, write_uint32}
use projet_s5_prog.Gdb.Access.General.{
  general_text, read_general_registers-text, sent_text, words_text, write_general_registers-words,
  written-held,
}
use projet_s5_prog.Scanner.Received.{IsPlain}
use projet_s5_prog.Scanner.Conversation.{AllPlain, Message, acknowledge, command, conversation}
use projet_s5_prog.Core.{arm_write_cpsr}
use projet_s5_prog.Registers.{get_mode}
use projet_s5_prog.Registers.Bank.{is_mode}
use projet_s5_prog.Util.{get_bits}
use projet_s5_prog.Gdb.{Call, Gdb, checksum, framed, gdb_send_ack, gdb_transmit_packet, rio_writen}
use projet_s5_prog.Gdb.Sent.{sent}
use projet_s5_prog.Gdb.Packet.{gdb_packet_command, handle}
use projet_s5_prog.Gdb.Access.{write_general_registers}
use projet_s5_prog.Common.Ensures.{bind-ok}

hex_char-plain : (d : ℕ) → (hex_char d ≢ b'$') × (hex_char d ≢ b'#')
hex_char-plain d = (ground arith, ground arith)

IsPlain-append : (s t : List ℕ) → IsPlain s → IsPlain t → IsPlain (s ++ t)
IsPlain-append [] t p q = q
IsPlain-append (c ∷ s) t (a, b, p) q = (a, b, IsPlain-append s t p q)

IsPlain-print_02x : (x : ℕ) → IsPlain (print_02x x)
IsPlain-print_02x x =
    let high = hex_char-plain (x / 16) in
    let low = hex_char-plain (x % 16) in (high.0, high.1, (low.0, low.1, tt))

module _ (host target : Bool) where
  IsPlain-write_uint32 : (x : ℕ) → IsPlain (write_uint32 host target x)
  unfolding write_uint32
  IsPlain-write_uint32 x =
      let text = λ (k : ℕ). print_02x (byte_at host target x (place host target k)) in
      let plain = λ (k : ℕ). IsPlain-print_02x (byte_at host target x (place host target k)) in
      IsPlain-append (text 0 ++ text 1 ++ text 2) (text 3)
        (IsPlain-append (text 0 ++ text 1) (text 2)
          (IsPlain-append (text 0) (text 1) (plain 0) (plain 1)) (plain 2))
        (plain 3)

  IsPlain-words_text :
      (left i : ℕ) (v : ℕ → ℕ) (t : List ℕ)
      → IsPlain t
      → IsPlain (words_text host target left i v t)
  unfolding words_text
  IsPlain-words_text zero i v t p = p
  IsPlain-words_text (suc left) i v t p =
      IsPlain-append (write_uint32 host target (v i)) (words_text host target left (i + 1) v t)
        (IsPlain-write_uint32 (v i)) (IsPlain-words_text left (i + 1) v t p)

  words_text-append :
      (left i : ℕ) (v : ℕ → ℕ) (t s : List ℕ)
      → words_text host target left i v t ++ s ≡ words_text host target left i v (t ++ s)
  unfolding words_text
  words_text-append zero i v t s = refl
  words_text-append (suc left) i v t s =
      append_assoc (write_uint32 host target (v i)) (words_text host target left (i + 1) v t) s
      ∙ ap (λ r. write_uint32 host target (v i) ++ r) (words_text-append left (i + 1) v t s)

  -- The command to write the registers and the CPSR, and the command to read them.
  abbrev pub write_all : (v floats : ℕ → ℕ) → ℕ → Message
  write_all v floats status = command (b'G' ∷ sent_text host target v floats status [])

  abbrev pub read_all_registers : Message
  read_all_registers = command (b'g' ∷ [])

  abbrev pub registers_said : (v floats : ℕ → ℕ) → ℕ → List Message
  registers_said v floats status =
      write_all v floats status ∷ acknowledge ∷ read_all_registers ∷ acknowledge ∷ []

  pub registers_said-AllPlain :
      (v floats : ℕ → ℕ) (status : ℕ) → AllPlain (registers_said v floats status)
  registers_said-AllPlain v floats status = (
    (
      omega arith,
      omega arith,
      IsPlain-words_text 16 0 v _ (
          IsPlain-words_text (8 * 3 + 1) 0 floats _
            (IsPlain-append (write_uint32 host target status) [] (IsPlain-write_uint32 status) tt)),
    ),
    ((omega arith, omega arith, tt), tt),
  )

  -- The text behind the letter, with what stands behind the packet.
  data_text :
      (v floats : ℕ → ℕ) (status : ℕ) (a b : List ℕ)
      → sent_text host target v floats status [] ++ a ++ b
        ≡ sent_text host target v floats status (a ++ b)
  data_text v floats status a b =
      let word = write_uint32 host target status in
      let end = word ++ [] in
      append_assoc (sent_text host target v floats status []) a b
      ∙ words_text-append 16 0 v (words_text host target (8 * 3 + 1) 0 floats end) (a ++ b)
      ∙ ap (words_text host target 16 0 v) (
          words_text-append (8 * 3 + 1) 0 floats end (a ++ b)
          ∙ ap (words_text host target (8 * 3 + 1) 0 floats) (append_assoc word [] (a ++ b)))

  -- The calls of the connection that answer the two commands, the last one first.
  abbrev pub answers : (ℕ → ℕ) → ℕ → List Call → List Call
  answers v status before =
      let text = general_text host target v status in
      rio_writen (framed text (checksum text 0))
      ∷ rio_writen (bytes "+")
      ∷ rio_writen (framed (bytes "OK") (checksum (bytes "OK") 0))
      ∷ rio_writen (bytes "+")
      ∷ before

  -- The two commands, as the connection handles them.
  pub conversation-registers_said :
      (fuel : ℕ) (v floats : ℕ → ℕ) (status : ℕ) (g : Gdb)
      → ((j : ℕ) → v j < 2 ^ 32)
      → ((j : ℕ) → floats j < 2 ^ 32)
      → status < 2 ^ 32
      → is_mode (get_mode g.arm.reg) ≡ true
      → get_bits status 4 0 ≡ get_mode g.arm.reg
      → v 15 % 4 ≡ 0
      → v 15 + 4 < 2 ^ 32
      → (g2 : Gdb) × (conversation host target fuel (registers_said v floats status) g
          ≡ ok (some g2))
        × (g2.calls ≡ answers v status g.calls)
  unfolding conversation gdb_packet_command handle
  conversation-registers_said fuel v floats status g fits floats_fit status_fits mode kept aligned
        room =
      let start = gdb_send_ack g in
      let check = 0 ∷ print_02x (checksum (b'G' ∷ sent_text host target v floats status []) 0) in
      let arm_start : start.arm ≡ g.arm = unfold gdb_send_ack in refl in
      let w =
        write_general_registers-words host target v floats status (check ++ 0 ∷ []) start fits
          floats_fit status_fits (rw arm_start mode) in
      let g1 =
        gdb_send_ack (sent (bytes "OK") (record start { arm = arm_write_cpsr w.0 status })) in
      let arm_kept : g1.arm ≡ arm_write_cpsr w.0 status =
        unfold gdb_send_ack gdb_transmit_packet in refl in
      let held =
        written-held host target v status start.arm w.0 w.2 (rw arm_start mode)
          (rw arm_start kept) in
      let read =
        read_general_registers-text host target v status g1 (rw arm_kept held.0)
          (rw arm_kept held.1) aligned room in
      let wrote =
        ap (λ t. write_general_registers host target t start)
          (data_text v floats status check (0 ∷ []))
        ∙ w.1 in
      (
        sent (general_text host target v status) g1,
        bind-ok _ (bind-ok _ wrote) ∙ bind-ok _ (bind-ok _ read),
        (unfold gdb_send_ack gdb_transmit_packet in refl),
      )
