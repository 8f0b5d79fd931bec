-- ===== src/Scanner.antt =====
-- scanner.l: the rules that find the packets of the debugger in what it sends.
pub mod Tokens
pub mod Noise
pub mod Received
pub mod Conversation
pub mod RegistersSaid
use projet_s5_prog.Memory.{update}
use projet_s5_prog.Common.{
  Bool, List, Option, Outcome, [], false, fault, if◌then◌else◌, ltb, none, ok, some, suc, true,
  zero, ℕ, ◌&&◌, ◌+◌, ◌-◌, ◌==◌, ◌>>=◌, ◌∷◌,
}
use projet_s5_prog.Text.{hex_digit, length}
use projet_s5_prog.Gdb.{Gdb, gdb_require_retransmission, gdb_transmit_packet}
use projet_s5_prog.Gdb.Packet.{gdb_packet_analysis}

-- The rule that matches: `+`, `-`, a packet, another character, and the newline, which no rule
-- has and which is copied to the standard output.
pub data Token : Type 0 where
  ack : Token
  retransmission : Token
  packet_text : List ℕ → Token
  other : ℕ → Token
  echo : ℕ → Token

abbrev pub has_value : Option ℕ → Bool
has_value none = false
has_value (some v) = true

unfoldable pub is_hex : ℕ → Bool
is_hex c = has_value (hex_digit c)

-- `"#"{HEX}{HEX}` behind the `#`: the text and what follows it.
unfoldable pub hex_end : List ℕ → Option (List ℕ × List ℕ)
hex_end [] = none
hex_end (a ∷ []) = none
hex_end (a ∷ b ∷ s) = if is_hex a && is_hex b then some (b'#' ∷ a ∷ b ∷ [], s) else none

abbrev pub in_front : ℕ → Option (List ℕ × List ℕ) → Option (List ℕ × List ℕ)
in_front c none = none
in_front c (some (t, s)) = some (c ∷ t, s)

-- `"$"[^$#]*"#"{HEX}{HEX}` behind the `$`.
unfoldable pub packet_end : List ℕ → Option (List ℕ × List ℕ)
unfolding hex_end
packet_end [] = none
packet_end (c ∷ s) =
    if c == b'#' then hex_end s else if c == b'$' then none else in_front c (packet_end s)

abbrev pub dollar : List ℕ → Option (List ℕ × List ℕ) → Token × List ℕ
dollar s none = (other b'$', s)
dollar s (some (t, rest)) = (packet_text (b'$' ∷ t), rest)

-- The longest match at the start of `c ∷ s`, and what follows it.
unfoldable pub next_token : ℕ → List ℕ → Token × List ℕ
unfolding packet_end
next_token c s =
    if c == b'+'
    then (ack, s)
    else if c == b'-'
    then (retransmission, s)
    else if c == b'$'
    then dollar s (packet_end s)
    else if c == b'\n'
    then (echo c, s)
    else (other c, s)

-- The matches of `yylex`, at most `rounds` of them.
unfoldable pub tokens : ℕ → List ℕ → List Token
tokens rounds [] = []
tokens zero (c ∷ s) = []
tokens (suc rounds) (c ∷ s) = let r = next_token c s in r.0 ∷ tokens rounds r.1

abbrev pub max_error_size : ℕ
max_error_size = 1024

-- `struct parser_data`; the buffer keeps the characters that no rule wants.
pub record Parser : Type 0 where
  pub gdb : Gdb
  pub buffer : ℕ → ℕ
  pub len : ℕ

abbrev pub put_buffer : ℕ → Parser → Outcome Parser
put_buffer c d =
    if ltb d.len max_error_size then ok (record d { buffer = update d.buffer d.len c }) else fault

unfoldable pub handle_error : Parser → Outcome Parser
handle_error d =
    if d.len == 0
    then ok d
    else do d' ← put_buffer 0 d; ok (record d' { gdb = gdb_require_retransmission d'.gdb; len = 0 })

unfoldable pub add_character_to_error : ℕ → Parser → Outcome Parser
unfolding handle_error
add_character_to_error c d = do
  d' ← if ltb (max_error_size - 2) d.len then handle_error d else ok d
  d2 ← put_buffer c d'
  ok (record d2 { len = d2.len + 1 })

abbrev pub finished : Parser → Option Gdb → Outcome (Option Parser)
finished d none = ok none
finished d (some g) = ok (some (record d { gdb = g }))

module _ (host target : Bool) where
  -- The action of the rule; only a command to continue may need more rounds than `fuel`.
  unfoldable pub act : ℕ → Token → Parser → Outcome (Option Parser)
  act fuel ack d = handle_error d >>= λ d'. ok (some d')
  act fuel retransmission d =
      handle_error d >>= λ d'. ok (some (record d' { gdb = gdb_transmit_packet d'.gdb }))
  act fuel (packet_text text) d = handle_error d >>= λ d'.
      gdb_packet_analysis host target fuel text d'.gdb >>= λ o. finished d' o
  act fuel (other c) d = add_character_to_error c d >>= λ d'. ok (some d')
  act fuel (echo c) d = ok (some d)

  unfoldable pub act_all : ℕ → List Token → Parser → Outcome (Option Parser)
  act_all fuel [] d = handle_error d >>= λ d'. ok (some d')
  act_all fuel (t ∷ ts) d =
      act fuel t d >>= λ o. elim o [ none ↦ ok none | some d' ↦ act_all fuel ts d' ]

  -- All that the debugger sends, up to the end of the connection.
  unfoldable pub yylex : ℕ → List ℕ → Parser → Outcome (Option Parser)
  unfolding act_all
  yylex fuel input d = act_all fuel (tokens (length input) input) d

  -- `g` is the block that `gdb_init_data` gives, and the argument before it whether `fdopen` gives
  -- a stream.
  unfoldable pub gdb_scanner : Bool → (ℕ → ℕ) → ℕ → List ℕ → Gdb → Outcome (Option Parser)
  unfolding yylex
  gdb_scanner opened buffer fuel input g =
      let d : Parser = record { gdb = g; buffer = buffer; len = 0 } in
      if opened then yylex fuel input d else ok (some d)
