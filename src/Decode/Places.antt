-- ===== src/Decode/Places.antt =====
-- What the shifts of util.c by `n` places do, for 0 < n < 32.
use native.Mathlib.Nat.{
  add-mul-mod_self_right, add-mul, add_comm, div-add-mod', mod-eq_of_lt, mod-lt, div-lt_iff_lt-mul,
  mul_assoc, mul_comm, mul-suc, pow-le-pow_right, mul-lt-mul_of_pos_right, zero-add, suc-add,
  pow-succ', one-mul,
}
use projet_s5_prog.Common.{
  Bool, ap, arith, bit_or, false, if◌then◌else◌, ltb, ok, refl, suc, sym, true, u32, zero, ℕ, ◌%◌,
  ◌*◌, ◌+◌, ◌-◌, ◌/◌, ◌<◌, ◌==◌, ◌>>=◌, ◌^◌, ◌∙◌, ◌≡◌,
}
use projet_s5_prog.Common.Bits.{bit_or-above, or-zero}
use projet_s5_prog.Common.Ensures.{bind-ok}
use projet_s5_prog.Util.{asr, get_bit, ror, shl32, shr32}

two-pow-pos : (k : ℕ) → 0 < 2 ^ k
two-pow-pos k = pow-le-pow_right {n = 2} (omega arith) {i = 0} {j = k} (omega arith)

two-pow-add : (a b : ℕ) → 2 ^ (a + b) ≡ 2 ^ a * 2 ^ b
two-pow-add zero b = rw zero-add (sym (one-mul (2 ^ b)))
two-pow-add (suc a) b =
    rw (suc-add, pow-succ' 2 (a + b), pow-succ' 2 a, two-pow-add a b)
      (sym (mul_assoc 2 (2 ^ a) (2 ^ b)))

-- A shift to the left keeps the low bits.
mul-mod : (v p q : ℕ) → 0 < p → 0 < q → v * q % (p * q) ≡ v % p * q
mul-mod v p q hp hq =
    let parts : v * q ≡ v % p * q + v / p * (p * q) =
      sym (ap (λ x. x * q) (div-add-mod' v p))
      ∙ add-mul (v / p * p) (v % p) q
      ∙ rw (mul_assoc (v / p) p q) (add_comm (v / p * (p * q)) (v % p * q)) in
    let small : v % p * q < p * q = mul-lt-mul_of_pos_right (mod-lt v hp) hq in
    rw parts (add-mul-mod_self_right (v % p * q) (v / p) (p * q) ∙ mod-eq_of_lt small)

-- A word of ones, cut in two.
ones_cut : (a b : ℕ) → 0 < a → 0 < b → a * b - 1 ≡ a - 1 + (b - 1) * a
ones_cut a zero ha hb = absurd (omega arith)
ones_cut a (suc b) ha hb =
    let one_less : suc b - 1 ≡ b = omega arith in
    rw (one_less, mul-suc a b) (omega (arith, mul_comm a b))

module _ (n : ℕ) (some_places : 0 < n) (few : n < 32) where
  word_size : 2 ^ 32 ≡ 2 ^ n * 2 ^ (32 - n)
  word_size =
      let parts : 32 ≡ n + (32 - n) = omega arith in ap (λ k. 2 ^ k) parts ∙ two-pow-add n (32 - n)

  low_bits : (v : ℕ) → u32 (v * 2 ^ (32 - n)) ≡ v % 2 ^ n * 2 ^ (32 - n)
  low_bits v =
      ap (λ m. v * 2 ^ (32 - n) % m) word_size
      ∙ mul-mod v (2 ^ n) (2 ^ (32 - n)) (two-pow-pos n) (two-pow-pos (32 - n))

  high_bits-lt : (v : ℕ) → v < 2 ^ 32 → v / 2 ^ n < 2 ^ (32 - n)
  high_bits-lt v h =
      (div-lt_iff_lt-mul {k = 2 ^ n} {x = v} {y = 2 ^ (32 - n)} (two-pow-pos n)).1
        (let whole = mul_comm (2 ^ (32 - n)) (2 ^ n) ∙ sym word_size in omega (arith, whole))

  ones-mod : (2 ^ 32 - 1) % 2 ^ n ≡ 2 ^ n - 1
  ones-mod =
      let cut =
        ap (λ w. w - 1) word_size
        ∙ ones_cut (2 ^ n) (2 ^ (32 - n)) (two-pow-pos n) (two-pow-pos (32 - n)) in
      let below : 2 ^ n - 1 < 2 ^ n = omega (arith, two-pow-pos n) in
      ap (λ w. w % 2 ^ n) cut
      ∙ add-mul-mod_self_right (2 ^ n - 1) (2 ^ (32 - n) - 1) (2 ^ n)
      ∙ mod-eq_of_lt below

  pub few_left : ltb n 32 ≡ true
  few_left = ground arith

  pub few_right : ltb (32 - n) 32 ≡ true
  few_right = ground arith

  pub shl32_lem : (v k : ℕ) → ltb k 32 ≡ true → shl32 v k ≡ ok (u32 (v * 2 ^ k))
  unfolding shl32
  shl32_lem v k h = rw h refl

  pub shr32_lem : (v k : ℕ) → ltb k 32 ≡ true → shr32 v k ≡ ok (v / 2 ^ k)
  unfolding shr32
  shr32_lem v k h = rw h refl

  pub ror_lem : (v : ℕ) → v < 2 ^ 32 → ror v n ≡ ok (v / 2 ^ n + v % 2 ^ n * 2 ^ (32 - n))
  unfolding ror
  ror_lem v h =
      bind-ok _ (shr32_lem v n few_left)
      ∙ bind-ok _ (shl32_lem v (32 - n) few_right)
      ∙ ap ok (
          ap (bit_or (v / 2 ^ n)) (low_bits v)
          ∙ bit_or-above (32 - n) (v % 2 ^ n) (v / 2 ^ n) (high_bits-lt v h)
          ∙ add_comm (v % 2 ^ n * 2 ^ (32 - n)) (v / 2 ^ n))

  pub asr_lem :
      (v : ℕ)
      → v < 2 ^ 32
      → asr v n ≡ ok (v / 2 ^ n + (if get_bit v 31 == 0 then 0 else (2 ^ n - 1) * 2 ^ (32 - n)))
  unfolding asr
  asr_lem v h = bind-ok _ (shr32_lem v n few_left) ∙ signed (get_bit v 31 == 0)
    where
      signed :
          (b : Bool)
          → ((if b then ok 0 else shl32 (2 ^ 32 - 1) (32 - n)) >>= λ high.
              ok (bit_or (v / 2 ^ n) high))
            ≡ ok (v / 2 ^ n + (if b then 0 else (2 ^ n - 1) * 2 ^ (32 - n)))
      signed true = ap ok (or-zero (v / 2 ^ n) ∙ omega arith)
      signed false =
          bind-ok _ (shl32_lem (2 ^ 32 - 1) (32 - n) few_right)
          ∙ ap ok (
              ap (bit_or (v / 2 ^ n)) (low_bits (2 ^ 32 - 1) ∙ ap (λ x. x * 2 ^ (32 - n)) ones-mod)
              ∙ bit_or-above (32 - n) (2 ^ n - 1) (v / 2 ^ n) (high_bits-lt v h)
              ∙ add_comm ((2 ^ n - 1) * 2 ^ (32 - n)) (v / 2 ^ n))
