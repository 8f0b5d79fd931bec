-- ===== src/Scanner/Received.antt =====
-- A packet that is sent as gdb_protocol.c sends it is received whole.
use mathlib.Core.List.{append-nil}
use projet_s5_prog.Common.{
  Bool, List, Option, Outcome, [], ap, arith, assertion, exit_program, false, fault, none, ok, refl,
  some, suc, sym, true, u8, zero, ℕ, ◌%◌, ◌++◌, ◌+◌, ◌/◌, ◌<◌, ◌==◌, ◌>>=◌, ◌∙◌, ◌∷◌, ◌≡◌, ◌≢◌,
}
use projet_s5_prog.Text.{hex_char, length, print_02x}
use projet_s5_prog.Text.Scanned.{hex_digit-hex_char}
use projet_s5_prog.Gdb.{Gdb, checksum, framed, gdb_send_ack}
use projet_s5_prog.Gdb.Packet.{gdb_packet_analysis, gdb_packet_command}
use projet_s5_prog.Scanner.{
  Parser, Token, act, act_all, dollar, finished, handle_error, has_value, hex_end, in_front, is_hex,
  next_token, packet_end, packet_text, tokens, yylex,
}
use projet_s5_prog.Common.Ensures.{bind-ok}
use projet_s5_prog.Gdb.Packet.Framing.{gdb_packet_analysis-framed}

-- Characters other than `$` and `#`.
abbrev pub IsPlain : List ℕ → Type 0
IsPlain [] = Unit
IsPlain (c ∷ s) = (c ≢ b'$') × (c ≢ b'#') × IsPlain s

is_hex-hex_char : (d : ℕ) → d < 16 → is_hex (hex_char d) ≡ true
unfolding is_hex
is_hex-hex_char d h = ap has_value (hex_digit-hex_char d h)

packet_end-framed :
    (text rest : List ℕ) (check : ℕ)
    → IsPlain text
    → check < 256
    → packet_end (text ++ b'#' ∷ print_02x check ++ rest)
      ≡ some (text ++ b'#' ∷ print_02x check, rest)
unfolding packet_end hex_end
packet_end-framed [] rest check p h =
    let high = is_hex-hex_char (check / 16) (omega arith) in
    let low = is_hex-hex_char (check % 16) (omega arith) in rw high (rw low refl)
packet_end-framed (c ∷ s) rest check (a, b, p) h =
    let one : (c == b'#') ≡ false = ground arith in
    let two : (c == b'$') ≡ false = ground arith in
    rw one (rw two (ap (in_front c) (packet_end-framed s rest check p h)))

-- The first match is the packet, whatever follows it.
pub next_token-framed :
    (text rest : List ℕ) (check : ℕ)
    → IsPlain text
    → check < 256
    → next_token b'$' (text ++ b'#' ∷ print_02x check ++ rest)
      ≡ (packet_text (framed text check), rest)
unfolding next_token framed
next_token-framed text rest check p h = ap (dollar _) (packet_end-framed text rest check p h)

tokens-end : (rounds : ℕ) → tokens rounds [] ≡ []
unfolding tokens
tokens-end zero = refl
tokens-end (suc rounds) = refl

tokens-framed :
    (text : List ℕ) (check : ℕ)
    → IsPlain text
    → check < 256
    → tokens (length (framed text check)) (framed text check) ≡ packet_text (framed text check) ∷ []
unfolding tokens framed
tokens-framed text check p h =
    let n = length (text ++ b'#' ∷ print_02x check) in
    let first : next_token b'$' (text ++ b'#' ∷ print_02x check)
        ≡ (packet_text (framed text check), []) =
      ap (next_token b'$') (sym (append-nil (text ++ b'#' ∷ print_02x check)))
      ∙ next_token-framed text [] check p h in
    ap (λ (r : Token × List ℕ). r.0 ∷ tokens n r.1) first
    ∙ ap (λ ts. packet_text (framed text check) ∷ ts) (tokens-end n)

pub checksum-lt : (s : List ℕ) (check : ℕ) → check < 256 → checksum s check < 256
unfolding checksum
checksum-lt [] check h = h
checksum-lt (c ∷ s) check h = checksum-lt s (u8 (check + c)) (omega arith)

pub handle_error-empty : (d : Parser) → d.len ≡ 0 → handle_error d ≡ ok d
unfolding handle_error
handle_error-empty d e = let zero_len : (d.len == 0) ≡ true = ground arith in rw zero_len refl

module _ (host target : Bool) (fuel : ℕ) where
  -- A packet with the checksum of its text is handled.
  pub gdb_packet_analysis-checksum :
      (text : List ℕ) (g : Gdb)
      → gdb_packet_analysis host target fuel (framed text (checksum text 0)) g
        ≡ gdb_packet_command host target fuel
            (text ++ 0 ∷ print_02x (checksum text 0) ++ 0 ∷ [])
            (gdb_send_ack g)
  gdb_packet_analysis-checksum text g =
      let same : (checksum text 0 == checksum text 0) ≡ true = ground arith in
      gdb_packet_analysis-framed host target fuel (checksum text 0) text g
        (checksum-lt text 0 (omega arith))
      ∙ rw same refl

  -- Behind the last match there is no error to handle.
  act_all-last :
      (d : Parser) (o : Outcome (Option Gdb))
      → d.len ≡ 0
      → (o >>= (λ r. finished d r) >>= λ r. elim r [
        | none ↦ ok none
        | some d' ↦ act_all host target fuel [] d'
      ])
        ≡ (o >>= λ r. finished d r)
  unfolding act_all
  act_all-last d (ok none) e = refl
  act_all-last d (ok (some g)) e = bind-ok _ (handle_error-empty (record d { gdb = g }) e)
  act_all-last d fault e = refl
  act_all-last d assertion e = refl
  act_all-last d exit_program e = refl

  -- A packet around a text without `$` and `#`, with the checksum that `gdb_send_buffer` computes,
  -- makes the scanner call the handler of the command with the text, after an acknowledgement, and
  -- then end. No character that no rule wants was read before.
  pub yylex-framed :
      (text : List ℕ) (d : Parser)
      → IsPlain text
      → d.len ≡ 0
      → yylex host target fuel (framed text (checksum text 0)) d ≡ (
          gdb_packet_command host target fuel
            (text ++ 0 ∷ print_02x (checksum text 0) ++ 0 ∷ [])
            (gdb_send_ack d.gdb)
          >>= λ o. finished d o)
  unfolding yylex act_all act
  yylex-framed text d p e =
      let check = checksum text 0 in
      let small = checksum-lt text 0 (omega arith) in
      ap (λ ts. act_all host target fuel ts d) (tokens-framed text check p small)
      ∙ ap (λ x. x >>= λ r. elim r [ none ↦ ok none | some d' ↦ act_all host target fuel [] d' ])
          (bind-ok _ (handle_error-empty d e)
            ∙ ap (λ o. o >>= λ r. finished d r) (gdb_packet_analysis-checksum text d.gdb))
      ∙ act_all-last d _ e
