-- ===== src/Scanner/Noise.antt =====
-- What is no packet: the buffer for errors of scanner.l does not overflow.
use projet_s5_prog.Common.{
  Bool, Bool-cases, List, [], arith, if-cases, if◌then◌else◌, inl, inr, ltb, ok, refl, some, suc,
  true, zero, ℕ, ◌+◌, ◌-◌, ◌<◌, ◌==◌, ◌∙◌, ◌∷◌, ◌≡◌, ◌≢◌,
}
use projet_s5_prog.Common.Ensures.{bind-ok}
use projet_s5_prog.Text.{length}
use projet_s5_prog.Gdb.{gdb_require_retransmission, gdb_transmit_packet}
use projet_s5_prog.Scanner.{
  Parser, Token, ack, act, act_all, add_character_to_error, dollar, echo, handle_error,
  max_error_size, next_token, other, packet_end, packet_text, retransmission, tokens, yylex,
}
use projet_s5_prog.Memory.{update}

-- The processor stays, and the 0 behind the characters has its place in the buffer.
pub record Calm (d d' : Parser) : Type 0 where
  pub arm_stays : d'.gdb.arm ≡ d.gdb.arm
  pub room : d'.len < 1024

pub handle_error-empties :
    (d : Parser)
    → d.len < 1024
    → (d' : Parser) × (handle_error d ≡ ok d') × (d'.gdb.arm ≡ d.gdb.arm) × (d'.len ≡ 0)
unfolding handle_error gdb_require_retransmission
handle_error-empties d h = elim (Bool-cases (d.len == 0)) [
  | inl x ↦ (d, rw x refl, refl, ground (arith, x))
  | inr x ↦
      let fits : ltb d.len max_error_size ≡ true = ground arith in
      (
        record {
          gdb = gdb_require_retransmission d.gdb;
          buffer = update d.buffer d.len 0;
          len = 0;
        },
        rw x (rw fits refl),
        refl,
        refl,
      )
]

add_character_to_error-Calm :
    (c : ℕ) (d : Parser)
    → d.len < 1024
    → (d' : Parser) × (add_character_to_error c d ≡ ok d') × Calm d d'
unfolding add_character_to_error
add_character_to_error-Calm c d h = elim (Bool-cases (ltb (max_error_size - 2) d.len)) [
  | inl x ↦
      let e = handle_error-empties d h in
      let fits : ltb e.0.len max_error_size ≡ true = ground (arith, e.3) in
      (
        record e.0 { buffer = update e.0.buffer e.0.len c; len = e.0.len + 1 },
        rw x (bind-ok _ e.1 ∙ rw fits refl),
        record { arm_stays = e.2; room = omega (arith, e.3) },
      )
  | inr x ↦
      let fits : ltb d.len max_error_size ≡ true = ground (arith, x) in
      (
        record d { buffer = update d.buffer d.len c; len = d.len + 1 },
        rw x (rw fits refl),
        record { arm_stays = refl; room = ground (arith, x) },
      )
]

-- A match of another rule than that of a packet.
abbrev pub IsNoise : Token → Type 0
IsNoise ack = Unit
IsNoise retransmission = Unit
IsNoise (packet_text text) = ⊥
IsNoise (other c) = Unit
IsNoise (echo c) = Unit

abbrev AreNoise : List Token → Type 0
AreNoise [] = Unit
AreNoise (t ∷ ts) = IsNoise t × AreNoise ts

-- Text without a `$`.
abbrev pub NoDollar : List ℕ → Type 0
NoDollar [] = Unit
NoDollar (c ∷ s) = (c ≢ b'$') × NoDollar s

next_token-IsNoise :
    (c : ℕ) (s : List ℕ) → c ≢ b'$' → IsNoise (next_token c s).0 × ((next_token c s).1 ≡ s)
unfolding next_token
next_token-IsNoise c s h =
    let P : Token × List ℕ → Type 0 = λ r. IsNoise r.0 × (r.1 ≡ s) in
    let last : Token × List ℕ = if c == b'\n' then (echo c, s) else (other c, s) in
    let third : Token × List ℕ = if c == b'$' then dollar s (packet_end s) else last in
    let second : Token × List ℕ = if c == b'-' then (retransmission, s) else third in
    if-cases P (c == b'+') (ack, s) second (λ x. (tt, refl))
      λ x.
        if-cases P (c == b'-') (retransmission, s) third (λ y. (tt, refl))
          λ y.
            if-cases P (c == b'$') (dollar s (packet_end s)) last
              (λ z. let same : c ≡ b'$' = ground (arith, z) in absurd (h same))
              λ z.
                if-cases P (c == b'\n') (echo c, s) (other c, s) (λ u. (tt, refl)) (λ u. (tt, refl))

tokens-AreNoise : (rounds : ℕ) (s : List ℕ) → NoDollar s → AreNoise (tokens rounds s)
unfolding tokens
tokens-AreNoise zero [] h = tt
tokens-AreNoise (suc rounds) [] h = tt
tokens-AreNoise zero (c ∷ s) h = tt
tokens-AreNoise (suc rounds) (c ∷ s) (h, k) =
    let r = next_token-IsNoise c s h in (r.0, rw r.1 (tokens-AreNoise rounds s k))

module _ (host target : Bool) (fuel : ℕ) where
  pub act-noise :
      (t : Token) (d : Parser)
      → IsNoise t
      → d.len < 1024
      → (d' : Parser) × (act host target fuel t d ≡ ok (some d')) × Calm d d'
  unfolding act gdb_transmit_packet
  act-noise ack d q h =
      let e = handle_error-empties d h in
      (e.0, bind-ok _ e.1, record { arm_stays = e.2; room = omega (arith, e.3) })
  act-noise retransmission d q h =
      let e = handle_error-empties d h in
      (
        record e.0 { gdb = gdb_transmit_packet e.0.gdb },
        bind-ok _ e.1,
        record { arm_stays = e.2; room = omega (arith, e.3) },
      )
  act-noise (packet_text text) d q h = absurd q
  act-noise (other c) d q h = let e = add_character_to_error-Calm c d h in (e.0, bind-ok _ e.1, e.2)
  act-noise (echo c) d q h = (d, refl, record { arm_stays = refl; room = h })

  act_all-noise :
      (ts : List Token) (d : Parser)
      → AreNoise ts
      → d.len < 1024
      → (d' : Parser) × (act_all host target fuel ts d ≡ ok (some d'))
        × (d'.gdb.arm ≡ d.gdb.arm)
        × (d'.len ≡ 0)
  unfolding act_all
  act_all-noise [] d q h = let e = handle_error-empties d h in (e.0, bind-ok _ e.1, e.2, e.3)
  act_all-noise (t ∷ ts) d (q, qs) h =
      let a = act-noise t d q h in
      let r = act_all-noise ts a.0 qs a.2.room in
      (r.0, bind-ok _ a.1 ∙ r.1, r.2 ∙ a.2.arm_stays, r.3)

  -- Input without a `$`, however long it is, is scanned to its end without a write outside the
  -- buffer for errors, from each state whose buffer has room for a 0. It leaves the processor as
  -- it is and the buffer empty.
  pub yylex-noise :
      (input : List ℕ) (d : Parser)
      → NoDollar input
      → d.len < 1024
      → (d' : Parser) × (yylex host target fuel input d ≡ ok (some d'))
        × (d'.gdb.arm ≡ d.gdb.arm)
        × (d'.len ≡ 0)
  unfolding yylex
  yylex-noise input d q h =
      act_all-noise (tokens (length input) input) d (tokens-AreNoise (length input) input q) h
