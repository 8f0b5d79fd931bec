-- ===== src/Text/Scanned.antt =====
-- `%02x` read back.
use projet_s5_prog.Common.{
  Bool, List, arith, false, refl, some, suc, true, ℕ, ◌%◌, ◌*◌, ◌+◌, ◌/◌, ◌<◌, ◌∙◌, ◌∷◌, ◌≡◌,
}
use projet_s5_prog.Text.{
  drop_blanks, found, hex_char, hex_digit, scan_digits, scan_prefix, scan_sign, scan_x,
}

pub hex_digit-hex_char : (d : ℕ) → d < 16 → hex_digit (hex_char d) ≡ some d
hex_digit-hex_char d h = ground arith

pub drop_blanks-hex : (d : ℕ) (s : List ℕ) → d < 16 → drop_blanks (hex_char d ∷ s) ≡ hex_char d ∷ s
unfolding drop_blanks
drop_blanks-hex d s h = ground arith

pub scan_sign-hex :
    (d w : ℕ) (s : List ℕ) → d < 16 → scan_sign w (hex_char d ∷ s) ≡ (false, w, hex_char d ∷ s)
unfolding scan_sign
scan_sign-hex d w s h = ground arith

scan_prefix-hex :
    (a b w : ℕ) (s : List ℕ)
    → a < 16
    → b < 16
    → scan_prefix w (hex_char a ∷ hex_char b ∷ s) ≡ (w, hex_char a ∷ hex_char b ∷ s)
unfolding scan_prefix
scan_prefix-hex a b w s h g = ground arith

-- One digit more.
pub scan_digits-suc :
    (w c d : ℕ) (s : List ℕ) (any : Bool) (seen : ℕ)
    → hex_digit c ≡ some d
    → scan_digits (suc w) (c ∷ s) any seen ≡ scan_digits w s true (seen * 16 + d)
unfolding scan_digits
scan_digits-suc w c d s any seen e = ground (arith, e)

scan_digits-two :
    (a b : ℕ) (s : List ℕ)
    → a < 16
    → b < 16
    → scan_digits 2 (hex_char a ∷ hex_char b ∷ s) false 0 ≡ (true, a * 16 + b, s)
scan_digits-two a b s h g =
    let value : (0 * 16 + a) * 16 + b ≡ a * 16 + b = omega arith in
    scan_digits-suc 1 (hex_char a) a (hex_char b ∷ s) false 0 (hex_digit-hex_char a h)
    ∙ scan_digits-suc 0 (hex_char b) b s true (0 * 16 + a) (hex_digit-hex_char b g)
    ∙ (unfold scan_digits in rw value refl)

-- A byte printed as two digits is read back from there, whatever stands behind.
pub scan_x-print_02x :
    (v : ℕ) (s : List ℕ)
    → v < 256
    → scan_x 2 (hex_char (v / 16) ∷ hex_char (v % 16) ∷ s) ≡ found v s
unfolding scan_x
scan_x-print_02x v s h =
    let high : v / 16 < 16 = omega arith in
    let low : v % 16 < 16 = omega arith in
    let whole : v / 16 * 16 + v % 16 ≡ v = omega arith in
    rw
      (
        drop_blanks-hex (v / 16) (hex_char (v % 16) ∷ s) high,
        scan_sign-hex (v / 16) 2 (hex_char (v % 16) ∷ s) high,
        scan_prefix-hex (v / 16) (v % 16) 2 s high low,
        scan_digits-two (v / 16) (v % 16) s high low,
        whole,
      )
      (ground arith)
