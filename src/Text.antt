-- ===== src/Text.antt =====
-- C strings and what the code calls of the standard library on them. A string is the list of its
-- bytes up to the end of its array; the functions look at it up to the first byte 0.
pub mod Scanned
pub mod Lists
use Prim.Native.Char.{code}
use Prim.Native.String.{String}
use projet_s5_prog.Common.{
  Bool, List, Option, Outcome, [], false, fault, if◌then◌else◌, leb, ltb, none, ok, some, suc, true,
  u32, zero, ℕ, ◌%◌, ◌&&◌, ◌*◌, ◌+◌, ◌-◌, ◌/◌, ◌==◌, ◌^◌, ◌||◌, ◌∷◌,
}

-- The bytes of a literal.
abbrev pub bytes : String → List ℕ
bytes String.[] = []
bytes (String.◌∷◌ c s) = code c ∷ bytes s

abbrev pub length {ℓ} : {A : Type ℓ} → List A → ℕ
length [] = 0
length (x ∷ xs) = suc (length xs)

-- The bytes before the first 0.
unfoldable pub c_string : List ℕ → List ℕ
c_string [] = []
c_string (c ∷ s) = if c == 0 then [] else c ∷ c_string s

-- `strcmp(a, b) == 0` on such bytes.
unfoldable pub same_text : List ℕ → List ℕ → Bool
same_text [] [] = true
same_text [] (d ∷ t) = false
same_text (c ∷ s) [] = false
same_text (c ∷ s) (d ∷ t) = c == d && same_text s t

-- `strncmp(s, prefix, n) == 0`, with `n` the length of the prefix.
unfoldable pub has_prefix : List ℕ → List ℕ → Bool
has_prefix [] s = true
has_prefix (c ∷ p) [] = false
has_prefix (c ∷ p) (d ∷ s) = c == d && has_prefix p s

-- What stands behind the first `c`, as `index(s, c) + 1`.
unfoldable pub after_char : ℕ → List ℕ → Option (List ℕ)
after_char c [] = none
after_char c (d ∷ s) = if d == c then some s else if d == 0 then none else after_char c s

-- A digit of `%x`, and the two digits of `%02x` for a byte.
abbrev pub hex_char : ℕ → ℕ
hex_char d = if ltb d 10 then b'0' + d else b'a' + (d - 10)

abbrev pub print_02x : ℕ → List ℕ
print_02x v = hex_char (v / 16) ∷ hex_char (v % 16) ∷ []

abbrev pub hex_digit : ℕ → Option ℕ
hex_digit c =
    if leb b'0' c && leb c b'9'
    then some (c - b'0')
    else if leb b'a' c && leb c b'f'
    then some (c - b'a' + 10)
    else if leb b'A' c && leb c b'F'
    then some (c - b'A' + 10)
    else none

-- The value of at most `width` digits, after those that make `seen`; `any` tells if there was one.
unfoldable pub scan_digits : ℕ → List ℕ → Bool → ℕ → Bool × ℕ × List ℕ
scan_digits zero s any seen = (any, seen, s)
scan_digits (suc width) [] any seen = (any, seen, [])
scan_digits (suc width) (c ∷ s) any seen = elim (hex_digit c) [
  | none ↦ (any, seen, c ∷ s)
  | some d ↦ scan_digits width s true (seen * 16 + d)
]

-- What a conversion does: it sets nothing, sets a value, or has a value that is no `unsigned`.
pub data Scan : Type 0 where
  missing overflow : Scan
  found : ℕ → List ℕ → Scan

unfoldable pub drop_blanks : List ℕ → List ℕ
drop_blanks [] = []
drop_blanks (c ∷ s) = if c == 32 || leb 9 c && leb c 13 then drop_blanks s else c ∷ s

-- A sign in front, the width that is left and the rest.
unfoldable pub scan_sign : ℕ → List ℕ → Bool × ℕ × List ℕ
scan_sign width [] = (false, width, [])
scan_sign width (c ∷ s) =
    if c == b'-'
    then (true, width - 1, s)
    else if c == b'+'
    then (false, width - 1, s)
    else (false, width, c ∷ s)

-- The prefix `0x`, if it fits.
unfoldable pub scan_prefix : ℕ → List ℕ → ℕ × List ℕ
scan_prefix width [] = (width, [])
scan_prefix width (c ∷ []) = (width, c ∷ [])
scan_prefix width (c ∷ d ∷ s) =
    if leb 2 width && c == b'0' && (d == b'x' || d == b'X')
    then (width - 2, s)
    else (width, c ∷ d ∷ s)

abbrev pub scanned : Bool → Bool × ℕ × List ℕ → Scan
scanned negative (false, v, rest) = missing
scanned negative (true, v, rest) =
    if ltb v (2 ^ 32) then found (if negative then u32 (2 ^ 32 - v) else v) rest else overflow

-- The conversion `%x` with a width; without one the width is the length of the string.
unfoldable pub scan_x : ℕ → List ℕ → Scan
unfolding scan_digits scan_prefix scan_sign drop_blanks
scan_x width s =
    let signed = scan_sign width (drop_blanks s) in
    let prefixed = scan_prefix signed.1 signed.2 in
    scanned signed.0 (scan_digits prefixed.0 prefixed.1 false 0)

-- The decimal digits in front.
unfoldable pub decimal : List ℕ → ℕ → ℕ
decimal [] seen = seen
decimal (c ∷ s) seen =
    let rest = decimal s (seen * 10 + (c - b'0')) in if leb b'0' c && leb c b'9' then rest else seen

-- `atoi`, as the bits of the `int`; a value that is no `int` is undefined.
unfoldable pub atoi : List ℕ → Outcome ℕ
unfolding decimal scan_sign drop_blanks
atoi s =
    let signed = scan_sign 1 (drop_blanks s) in
    let v = decimal signed.2 0 in
    if signed.0
    then if leb v (2 ^ 31) then ok (u32 (2 ^ 32 - v)) else fault
    else if ltb v (2 ^ 31)
    then ok v
    else fault

unfoldable pub take : ℕ → List ℕ → List ℕ
take zero s = []
take (suc n) [] = []
take (suc n) (c ∷ s) = c ∷ take n s

unfoldable pub drop : ℕ → List ℕ → List ℕ
drop zero s = s
drop (suc n) [] = []
drop (suc n) (c ∷ s) = drop n s
