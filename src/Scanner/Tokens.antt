-- ===== src/Scanner/Tokens.antt =====
-- The matches of scanner.l cover what is read.
use projet_s5_prog.Common.{
  List, Option, [], ap, arith, if-cases, if◌then◌else◌, none, refl, some, suc, sym, zero, ℕ, ◌&&◌,
  ◌++◌, ◌+◌, ◌<◌, ◌==◌, ◌∙◌, ◌∷◌, ◌≡◌, ◌≤◌,
}
use projet_s5_prog.Text.{length}
use projet_s5_prog.Scanner.{
  Token, ack, dollar, echo, hex_end, in_front, is_hex, next_token, other, packet_end, packet_text,
  retransmission, tokens,
}
use projet_s5_prog.Text.Lists.{length-append}

-- The characters of a match.
unfoldable pub token_text : Token → List ℕ
token_text ack = b'+' ∷ []
token_text retransmission = b'-' ∷ []
token_text (packet_text text) = text
token_text (other c) = c ∷ []
token_text (echo c) = c ∷ []

unfoldable pub all_text : List Token → List ℕ
unfolding token_text
all_text [] = []
all_text (t ∷ ts) = token_text t ++ all_text ts

-- What a match of the end of a packet says.
abbrev pub Covers : List ℕ → Option (List ℕ × List ℕ) → Type 0
Covers s none = Unit
Covers s (some (t, rest)) = t ++ rest ≡ s

hex_end-Covers : (s : List ℕ) → Covers (b'#' ∷ s) (hex_end s)
unfolding hex_end
hex_end-Covers [] = tt
hex_end-Covers (a ∷ []) = tt
hex_end-Covers (a ∷ b ∷ s) =
    if-cases (Covers (b'#' ∷ a ∷ b ∷ s)) (is_hex a && is_hex b) (some (b'#' ∷ a ∷ b ∷ [], s)) none
      (λ x. refl) (λ x. tt)

packet_end-Covers : (s : List ℕ) → Covers s (packet_end s)
unfolding packet_end
packet_end-Covers [] = tt
packet_end-Covers (c ∷ s) =
    let inner = if c == b'$' then none else in_front c (packet_end s) in
    if-cases (Covers (c ∷ s)) (c == b'#') (hex_end s) inner
      (λ x. let same : c ≡ b'#' = ground (arith, x) in rw same (hex_end-Covers s))
      λ x.
        if-cases (Covers (c ∷ s)) (c == b'$') none (in_front c (packet_end s)) (λ y. tt)
          λ y. in_front-Covers (packet_end s) (packet_end-Covers s)
  where
    in_front-Covers : (o : Option (List ℕ × List ℕ)) → Covers s o → Covers (c ∷ s) (in_front c o)
    in_front-Covers none h = tt
    in_front-Covers (some (t, rest)) h = ap (λ x. c ∷ x) h

-- The first match takes at least one character, and it and the rest are what is read.
abbrev Splits : List ℕ → Token × List ℕ → Type 0
Splits s (t, rest) = (token_text t ++ rest ≡ s) × (length rest < length s)

dollar-Splits :
    (s : List ℕ) (o : Option (List ℕ × List ℕ)) → Covers s o → Splits (b'$' ∷ s) (dollar s o)
unfolding token_text
dollar-Splits s none h = (refl, omega arith)
dollar-Splits s (some (t, rest)) h = (
  ap (λ x. b'$' ∷ x) h,
  (let n : length t + length rest ≡ length s = sym (length-append t rest) ∙ ap length h in
      omega (arith, n)),
)

next_token-Splits : (c : ℕ) (s : List ℕ) → Splits (c ∷ s) (next_token c s)
unfolding next_token token_text
next_token-Splits c s =
    let P = Splits (c ∷ s) in
    let last : Token × List ℕ = if c == b'\n' then (echo c, s) else (other c, s) in
    let third : Token × List ℕ = if c == b'$' then dollar s (packet_end s) else last in
    let second : Token × List ℕ = if c == b'-' then (retransmission, s) else third in
    if-cases P (c == b'+') (ack, s) second
      (λ x. let same : c ≡ b'+' = ground (arith, x) in (rw same refl, omega arith))
      λ x.
        if-cases P (c == b'-') (retransmission, s) third
          (λ y. let same : c ≡ b'-' = ground (arith, y) in (rw same refl, omega arith))
          λ y.
            if-cases P (c == b'$') (dollar s (packet_end s)) last
              (λ z.
                let same : c ≡ b'$' = ground (arith, z) in
                rw same (dollar-Splits s (packet_end s) (packet_end-Covers s)))
              λ z.
                if-cases P (c == b'\n') (echo c, s) (other c, s) (λ u. (refl, omega arith))
                  (λ u. (refl, omega arith))

-- With as many rounds as characters, the matches are all of what is read, in its order: nothing
-- is skipped, read twice, or left when the rounds are spent.
pub tokens-text : (rounds : ℕ) (s : List ℕ) → length s ≤ rounds → all_text (tokens rounds s) ≡ s
unfolding tokens all_text
tokens-text rounds [] h = refl
tokens-text zero (c ∷ s) h = absurd (omega arith)
tokens-text (suc rounds) (c ∷ s) h =
    let r = next_token-Splits c s in
    ap (λ x. token_text (next_token c s).0 ++ x)
      (tokens-text rounds (next_token c s).1 (omega (arith, r.1, h)))
    ∙ r.0
