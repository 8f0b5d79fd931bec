-- ===== src/Common/Bits.antt =====
-- Masks, single bits and fields of `&` and `|` at variables, at every width.
use Prim.Native.Nat.{
  ℕ, zero, suc, ◌+◌, ◌-◌, ◌*◌, ◌/◌, ◌%◌, ◌^◌, ◌≤◌, ◌<◌, bit_and, bit_or, bit_and-bitwise,
  bit_or-bitwise,
}
use mathlib.Core.Path.{◌≡◌, refl, ap, ◌∙◌}
use native.Mathlib.Nat.{
  two-pow-succ, one-le-pow, div-div-eq-div-mul, mod-eq-sub-div-mul, div-mul-le_self, mod-eq_of_lt,
  le_trans,
}
use native.Mathlib.Omega.{arith}
use projet_s5_prog.Common.Digits.{bit_and-digit, bit_or-digit}
pub use projet_s5_prog.Common.Digits.{bit_and-lt, bit_or-lt, bit_xor-lt}

-- The empty mask, and the mask of `k` ones: the remainder by `2 ^ k`.
bit_and-zero_below : (n a : ℕ) → a ≤ n → bit_and a 0 ≡ 0
bit_and-zero_below n zero h = refl
bit_and-zero_below zero (suc a) h = absurd (omega arith)
bit_and-zero_below (suc n) (suc a) h =
    omega (arith, bit_and-digit (suc a) 0, bit_and-zero_below n (suc a / 2) (omega arith))

pub bit_and-zero : (a : ℕ) → bit_and a 0 ≡ 0
bit_and-zero a = bit_and-zero_below a a (omega arith)

pub bit_or-zero : (a : ℕ) → bit_or 0 a ≡ a
bit_or-zero a = bit_or-bitwise 0 a

-- How a power of two divides a number and half of it.
pub div-two-pow-suc : (a i : ℕ) → a / 2 ^ suc i ≡ a / 2 / 2 ^ i
div-two-pow-suc a i = rw (div-div-eq-div-mul, two-pow-succ) (ap (λ t. a / t) (omega arith))

pub mod-two-pow-suc : (a k : ℕ) → a % 2 ^ suc k ≡ a / 2 % 2 ^ k * 2 + a % 2
mod-two-pow-suc a k =
    let whole : a % 2 ^ suc k ≡ a - a / 2 / 2 ^ k * (2 ^ k + 2 ^ k) =
      mod-eq-sub-div-mul a (2 ^ suc k) ∙ rw (div-two-pow-suc a k, two-pow-succ k) in
    omega (arith, whole, mod-eq-sub-div-mul (a / 2) (2 ^ k), div-mul-le_self (a / 2) (2 ^ k))

pub bit_and-ones : (k a : ℕ) → bit_and a (2 ^ k - 1) ≡ a % 2 ^ k
bit_and-ones zero a = omega (arith, bit_and-zero a)
bit_and-ones (suc k) a = omega (
  arith,
  bit_and-digit a (2 ^ suc k - 1),
  two-pow-succ k,
  one-le-pow k 2,
  mod-two-pow-suc a k,
  ap (λ (m : ℕ). bit_and (a / 2) m) (half_ones k),
  bit_and-ones k (a / 2),
)
  where
    half_ones : (k : ℕ) → (2 ^ suc k - 1) / 2 ≡ 2 ^ k - 1
    half_ones k = omega (arith, two-pow-succ k, one-le-pow k 2)

bit_or-zero_below : (n a : ℕ) → a ≤ n → bit_or a 0 ≡ a
bit_or-zero_below n zero h = refl
bit_or-zero_below zero (suc a) h = absurd (omega arith)
bit_or-zero_below (suc n) (suc a) h =
    omega (arith, bit_or-digit (suc a) 0, bit_or-zero_below n (suc a / 2) (omega arith))

pub or-zero : (a : ℕ) → bit_or a 0 ≡ a
or-zero a = bit_or-zero_below a a (omega arith)

half_pow : (i : ℕ) → 2 ^ suc i / 2 ≡ 2 ^ i
half_pow i = omega (arith, two-pow-succ i)

even_pow : (i : ℕ) → 2 ^ suc i % 2 ≡ 0
even_pow i = omega (arith, two-pow-succ i)

bit-mul-le : (b p : ℕ) → b < 2 → b * p ≤ p
bit-mul-le zero p h = omega arith
bit-mul-le (suc zero) p h = omega arith
bit-mul-le (suc (suc b)) p h = absurd (omega arith)

mul-two-pow-suc : (x i : ℕ) → x * 2 ^ suc i ≡ x * 2 ^ i * 2
mul-two-pow-suc x i = omega (arith, ap (λ p. x * p) (two-pow-succ i))

-- One bit set, and one bit cleared, in the form that `omega` reads at a numeral position.
pub bit_or-single : (i x : ℕ) → bit_or x (2 ^ i) ≡ x + 2 ^ i - x / 2 ^ i % 2 * 2 ^ i
bit_or-single zero x = omega (arith, bit_or-digit x 1, or-zero (x / 2))
bit_or-single (suc i) x =
    let half : bit_or x (2 ^ suc i) ≡ bit_or (x / 2) (2 ^ i) * 2 + x % 2 =
      bit_or-digit x (2 ^ suc i) ∙ rw (half_pow i, even_pow i) (omega arith) in
    rw (half, bit_or-single i (x / 2), div-two-pow-suc x i)
      (omega (
        arith,
        two-pow-succ i,
        bit-mul-le (x / 2 / 2 ^ i % 2) (2 ^ i) (omega arith),
        mul-two-pow-suc (x / 2 / 2 ^ i % 2) i,
      ))

two_pow_mono : (i w : ℕ) → i < w → 2 ^ i < 2 ^ w
two_pow_mono i zero h = absurd (omega arith)
two_pow_mono zero (suc w) h = omega (arith, two-pow-succ w, one-le-pow w 2)
two_pow_mono (suc i) (suc w) h =
    omega (arith, two-pow-succ w, two-pow-succ i, two_pow_mono i w (omega arith))

bit-le : (n p : ℕ) → n / p % 2 * p ≤ n
bit-le n p = le_trans (mul_mono (n / p % 2) (n / p) p (omega arith)) (div-mul-le_self n p)
  where
    mul_mono : (a b c : ℕ) → a ≤ b → a * c ≤ b * c
    mul_mono a b c h = grind arith

-- All ones but one, over `w` bits.
pub bit_and-but_single :
    (w i x : ℕ) → i < w → x < 2 ^ w → bit_and x (2 ^ w - 1 - 2 ^ i) ≡ x - x / 2 ^ i % 2 * 2 ^ i
bit_and-but_single zero i x h g = absurd (omega arith)
bit_and-but_single (suc w) zero x h g =
    let mask : (2 ^ suc w - 1 - 1) / 2 ≡ 2 ^ w - 1 = omega (arith, two-pow-succ w) in
    let low : (2 ^ suc w - 1 - 1) % 2 ≡ 0 = omega (arith, two-pow-succ w, one-le-pow w 2) in
    let small : x / 2 < 2 ^ w = omega (arith, two-pow-succ w) in
    bit_and-digit x (2 ^ suc w - 1 - 1)
    ∙ rw (mask, low, bit_and-ones w (x / 2), mod-eq_of_lt small) (omega arith)
bit_and-but_single (suc w) (suc i) x h g =
    let room : 2 ^ i < 2 ^ w = two_pow_mono i w (omega arith) in
    let mask : (2 ^ suc w - 1 - 2 ^ suc i) / 2 ≡ 2 ^ w - 1 - 2 ^ i =
      omega (arith, two-pow-succ w, two-pow-succ i) in
    let low : (2 ^ suc w - 1 - 2 ^ suc i) % 2 ≡ 1 = omega (arith, two-pow-succ w, two-pow-succ i) in
    let small : x / 2 < 2 ^ w = omega (arith, two-pow-succ w) in
    bit_and-digit x (2 ^ suc w - 1 - 2 ^ suc i)
    ∙ rw (mask, low, bit_and-but_single w i (x / 2) (omega arith) small, div-two-pow-suc x i)
        (omega
          (arith, two-pow-succ i, mul-two-pow-suc (x / 2 / 2 ^ i % 2) i, bit-le (x / 2) (2 ^ i)))

-- Two fields that do not overlap, the high one to the left, are put together by `|`.
pub bit_or-fields : (k q r : ℕ) → r < 2 ^ k → bit_or (q * 2 ^ k) r ≡ q * 2 ^ k + r
bit_or-fields zero q zero h = or-zero (q * 1) ∙ omega arith
bit_or-fields zero q (suc r) h = absurd (omega arith)
bit_or-fields (suc k) q r h =
    let half : q * 2 ^ suc k / 2 ≡ q * 2 ^ k = omega (arith, mul-two-pow-suc q k) in
    let low : q * 2 ^ suc k % 2 ≡ 0 = omega (arith, mul-two-pow-suc q k) in
    bit_or-digit (q * 2 ^ suc k) r
    ∙ rw (half, low, bit_or-fields k q (r / 2) (omega (arith, two-pow-succ k)))
        (omega (arith, mul-two-pow-suc q k))

-- A left operand that ends in zeros.
pub bit_or-shifted : (k q r : ℕ) → bit_or (q * 2 ^ k) r ≡ bit_or q (r / 2 ^ k) * 2 ^ k + r % 2 ^ k
bit_or-shifted zero q r = rw (whole q, whole_div r) (omega arith)
  where
    whole : (x : ℕ) → x * 2 ^ 0 ≡ x
    whole x = omega arith

    whole_div : (x : ℕ) → x / 2 ^ 0 ≡ x
    whole_div x = omega arith
bit_or-shifted (suc k) q r =
    let half : q * 2 ^ suc k / 2 ≡ q * 2 ^ k = omega (arith, mul-two-pow-suc q k) in
    let low : q * 2 ^ suc k % 2 ≡ 0 = omega (arith, mul-two-pow-suc q k) in
    bit_or-digit (q * 2 ^ suc k) r
    ∙ rw (half, low, bit_or-shifted k q (r / 2), div-two-pow-suc r k)
        (omega (arith, mul-two-pow-suc (bit_or q (r / 2 / 2 ^ k)) k, mod-two-pow-suc r k))

pub bit_or-above : (k q r : ℕ) → r < 2 ^ k → bit_or r (q * 2 ^ k) ≡ q * 2 ^ k + r
bit_or-above zero q zero h = bit_or-zero (q * 1) ∙ omega arith
bit_or-above zero q (suc r) h = absurd (omega arith)
bit_or-above (suc k) q r h =
    let half : q * 2 ^ suc k / 2 ≡ q * 2 ^ k = omega (arith, mul-two-pow-suc q k) in
    let low : q * 2 ^ suc k % 2 ≡ 0 = omega (arith, mul-two-pow-suc q k) in
    bit_or-digit r (q * 2 ^ suc k)
    ∙ rw (half, low, bit_or-above k q (r / 2) (omega (arith, two-pow-succ k)))
        (omega (arith, mul-two-pow-suc q k))

-- A mask that ends in ones, over a value of no more digits.
pub bit_and-below : (k q r : ℕ) → r < 2 ^ k → bit_and r (q * 2 ^ k + (2 ^ k - 1)) ≡ r
bit_and-below zero q r h = omega (arith, bit_and-lt 0 r (q * 2 ^ 0 + (2 ^ 0 - 1)) h)
bit_and-below (suc k) q r h =
    let half : (q * 2 ^ suc k + (2 ^ suc k - 1)) / 2 ≡ q * 2 ^ k + (2 ^ k - 1) =
      omega (arith, mul-two-pow-suc q k, two-pow-succ k, one-le-pow k 2) in
    let low : (q * 2 ^ suc k + (2 ^ suc k - 1)) % 2 ≡ 1 =
      omega (arith, mul-two-pow-suc q k, two-pow-succ k, one-le-pow k 2) in
    bit_and-digit r (q * 2 ^ suc k + (2 ^ suc k - 1))
    ∙ rw (half, low, bit_and-below k q (r / 2) (omega (arith, two-pow-succ k))) (omega arith)

-- A mask with a single one.
pub single-bit_and : (i x : ℕ) → bit_and (2 ^ i) x ≡ x / 2 ^ i % 2 * 2 ^ i
single-bit_and zero x = omega (arith, bit_and-digit 1 x, bit_and-bitwise 0 (x / 2))
single-bit_and (suc i) x =
    bit_and-digit (2 ^ suc i) x
    ∙ rw (half_pow i, even_pow i, single-bit_and i (x / 2), div-two-pow-suc x i)
        (omega (arith, mul-two-pow-suc (x / 2 / 2 ^ i % 2) i))
