-- ===== src/Scanner/Conversation.antt =====
-- All that a debugger says on a connection, when it keeps to the protocol.
use projet_s5_prog.Common.{
  Bool, List, Option, Outcome, [], ap, arith, assertion, exit_program, fault, none, ok, refl, some,
  suc, zero, ℕ, ◌++◌, ◌+◌, ◌>>=◌, ◌∙◌, ◌∷◌, ◌≡◌, ◌≤◌,
}
use projet_s5_prog.Text.{length, print_02x}
use projet_s5_prog.Gdb.{Gdb, checksum, framed, gdb_send_ack}
use projet_s5_prog.Gdb.Packet.{gdb_packet_command}
use projet_s5_prog.Scanner.{
  Parser, Token, ack, act, act_all, finished, next_token, packet_text, tokens, yylex,
}
use projet_s5_prog.Scanner.Received.{
  IsPlain, checksum-lt, gdb_packet_analysis-checksum, handle_error-empty, next_token-framed,
}
use projet_s5_prog.Common.Ensures.{bind-ok}
use projet_s5_prog.Text.Lists.{length-append}

-- What the debugger sends: an acknowledgement, or a command in a packet.
pub data Message : Type 0 where
  acknowledge : Message
  command : List ℕ → Message

abbrev pub message_text : Message → List ℕ
message_text acknowledge = b'+' ∷ []
message_text (command text) = framed text (checksum text 0)

abbrev pub all_said : List Message → List ℕ
all_said [] = []
all_said (m ∷ ms) = message_text m ++ all_said ms

-- No command contains `$` or `#`.
abbrev pub AllPlain : List Message → Type 0
AllPlain [] = Unit
AllPlain (acknowledge ∷ ms) = AllPlain ms
AllPlain (command text ∷ ms) = IsPlain text × AllPlain ms

abbrev token_of : Message → Token
token_of acknowledge = ack
token_of (command text) = packet_text (framed text (checksum text 0))

abbrev tokens_of : List Message → List Token
tokens_of [] = []
tokens_of (m ∷ ms) = token_of m ∷ tokens_of ms

length-framed :
    (text rest : List ℕ) → length rest + 1 ≤ length (framed text (checksum text 0) ++ rest)
length-framed text rest =
    let whole = length-append (framed text (checksum text 0)) rest in
    let some_text : 1 ≤ length (framed text (checksum text 0)) = unfold framed in omega arith in
    omega (arith, whole, some_text)

first_token :
    (rounds : ℕ) (text rest : List ℕ)
    → IsPlain text
    → tokens (suc rounds) (framed text (checksum text 0) ++ rest)
      ≡ packet_text (framed text (checksum text 0)) ∷ tokens rounds rest
unfolding tokens framed
first_token rounds text rest p =
    ap (λ (r : Token × List ℕ). r.0 ∷ tokens rounds r.1)
      (next_token-framed text rest (checksum text 0) p (checksum-lt text 0 (omega arith)))

tokens-all_said :
    (ms : List Message) (rounds : ℕ)
    → AllPlain ms
    → length (all_said ms) ≤ rounds
    → tokens rounds (all_said ms) ≡ tokens_of ms
unfolding tokens next_token
tokens-all_said [] rounds p h = refl
tokens-all_said (acknowledge ∷ ms) zero p h = absurd (omega arith)
tokens-all_said (acknowledge ∷ ms) (suc rounds) p h =
    ap (λ ts. ack ∷ ts) (tokens-all_said ms rounds p (omega arith))
tokens-all_said (command text ∷ ms) zero (p, ps) h =
    absurd (omega (arith, length-framed text (all_said ms)))
tokens-all_said (command text ∷ ms) (suc rounds) (p, ps) h =
    first_token rounds text (all_said ms) p
    ∙ ap (λ ts. packet_text (framed text (checksum text 0)) ∷ ts)
        (tokens-all_said ms rounds ps (omega (arith, length-framed text (all_said ms))))

module _ (host target : Bool) (fuel : ℕ) where
  -- What a message makes of the state of the connection.
  abbrev pub answer : Message → Gdb → Outcome (Option Gdb)
  answer acknowledge g = ok (some g)
  answer (command text) g =
      gdb_packet_command host target fuel (text ++ 0 ∷ print_02x (checksum text 0) ++ 0 ∷ [])
        (gdb_send_ack g)

  -- One message after the other.
  unfoldable pub conversation : List Message → Gdb → Outcome (Option Gdb)
  conversation [] g = ok (some g)
  conversation (m ∷ ms) g =
      answer m g >>= λ o. elim o [ none ↦ ok none | some g' ↦ conversation ms g' ]

  act-message :
      (m : Message) (d : Parser)
      → d.len ≡ 0
      → act host target fuel (token_of m) d ≡ (answer m d.gdb >>= λ o. finished d o)
  unfolding act
  act-message acknowledge d e = bind-ok _ (handle_error-empty d e)
  act-message (command text) d e =
      bind-ok _ (handle_error-empty d e)
      ∙ ap (λ o. o >>= λ r. finished d r) (gdb_packet_analysis-checksum host target fuel text d.gdb)

  then_messages :
      (ms : List Message) (d : Parser) (o : Outcome (Option Gdb))
      → ((g : Gdb)
          → act_all host target fuel (tokens_of ms) (record d { gdb = g })
            ≡ (conversation ms g >>= λ r. finished d r))
      → (o >>= (λ r. finished d r) >>= λ r. elim r [
        | none ↦ ok none
        | some d' ↦ act_all host target fuel (tokens_of ms) d'
      ])
        ≡ ((o >>= λ r. elim r [ none ↦ ok none | some g' ↦ conversation ms g' ]) >>= λ r.
            finished d r)
  then_messages ms d (ok none) h = refl
  then_messages ms d (ok (some g)) h = h g
  then_messages ms d exit_program h = refl
  then_messages ms d fault h = refl
  then_messages ms d assertion h = refl

  act_all-messages :
      (ms : List Message) (d : Parser)
      → d.len ≡ 0
      → act_all host target fuel (tokens_of ms) d ≡ (conversation ms d.gdb >>= λ o. finished d o)
  unfolding act_all conversation
  act_all-messages [] d e = bind-ok _ (handle_error-empty d e)
  act_all-messages (m ∷ ms) d e =
      ap
        (λ x. x >>= λ r. elim r [
          | none ↦ ok none
          | some d' ↦ act_all host target fuel (tokens_of ms) d'
        ])
        (act-message m d e)
      ∙ then_messages ms d (answer m d.gdb) (λ g. act_all-messages ms (record d { gdb = g }) e)

  -- What a debugger says that keeps to the protocol, acknowledgements and packets with their
  -- checksums in any order, is taken apart at the right places: the scanner acknowledges the
  -- packets and calls the handlers of their commands one after the other, up to the first that does
  -- not return. No command contains `$` or `#`, and no character that no rule wants was read
  -- before.
  pub yylex-conversation :
      (ms : List Message) (d : Parser)
      → AllPlain ms
      → d.len ≡ 0
      → yylex host target fuel (all_said ms) d ≡ (conversation ms d.gdb >>= λ o. finished d o)
  unfolding yylex
  yylex-conversation ms d p e =
      ap (λ ts. act_all host target fuel ts d)
        (tokens-all_said ms (length (all_said ms)) p (omega arith))
      ∙ act_all-messages ms d e
