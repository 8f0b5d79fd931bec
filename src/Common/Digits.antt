-- ===== src/Common/Digits.antt =====
-- `&`, `|` and `^` at variables: the law of the lowest digit, and bounds at every width. The native operations are defined by a recursion on digits with fuel.
use Prim.Native.Nat.{
  ℕ, zero, suc, ◌+◌, ◌*◌, ◌/◌, ◌%◌, ◌^◌, ◌≤◌, ◌<◌, min, max, bit_and, bit_or, bit_xor, digits,
  differ, bit_and-bitwise, bit_or-bitwise, bit_xor-bitwise,
}
use mathlib.Core.Path.{◌≡◌, refl, ap}
use native.Mathlib.Nat.{two-pow-succ}
use native.Mathlib.Omega.{arith}

-- Once the fuel covers the left number, more of it changes nothing; so the lowest digit splits off.
module _ (left : ℕ → ℕ) (f : ℕ → ℕ → ℕ) where
  enough_fuel : (n k a b : ℕ) → a ≤ n → a ≤ k → digits left f n a b ≡ digits left f k a b
  enough_fuel zero zero zero b h g = refl
  enough_fuel zero (suc k) zero b h g = refl
  enough_fuel (suc n) zero zero b h g = refl
  enough_fuel (suc n) (suc k) zero b h g = refl
  enough_fuel zero k (suc a) b h g = absurd (omega arith)
  enough_fuel (suc n) zero (suc a) b h g = absurd (omega arith)
  enough_fuel (suc n) (suc k) (suc a) b h g =
      ap (λ t. t * 2 + f (suc a % 2) (b % 2))
        (enough_fuel n k (suc a / 2) (b / 2) (omega arith) (omega arith))

  lowest_digit :
      (a b : ℕ)
      → digits left f (suc a) (suc a) b
        ≡ digits left f (suc a / 2) (suc a / 2) (b / 2) * 2 + f (suc a % 2) (b % 2)
  lowest_digit a b =
      ap (λ t. t * 2 + f (suc a % 2) (b % 2))
        (enough_fuel a (suc a / 2) (suc a / 2) (b / 2) (omega arith) (omega arith))

pub bit_and-digit : (a b : ℕ) → bit_and a b ≡ bit_and (a / 2) (b / 2) * 2 + min (a % 2) (b % 2)
bit_and-digit zero b = simp bit_and-bitwise (omega arith)
bit_and-digit (suc a) b = simp bit_and-bitwise (lowest_digit (λ y. 0) min a b)

pub bit_or-digit : (a b : ℕ) → bit_or a b ≡ bit_or (a / 2) (b / 2) * 2 + max (a % 2) (b % 2)
bit_or-digit zero b = simp bit_or-bitwise (omega arith)
bit_or-digit (suc a) b = simp bit_or-bitwise (lowest_digit (λ y. y) max a b)

pub bit_xor-digit : (a b : ℕ) → bit_xor a b ≡ bit_xor (a / 2) (b / 2) * 2 + differ (a % 2) (b % 2)
bit_xor-digit zero b = simp bit_xor-bitwise (omega arith)
bit_xor-digit (suc a) b = simp bit_xor-bitwise (lowest_digit (λ y. y) differ a b)

-- Bounds.
pub bit_or-lt : (w a b : ℕ) → a < 2 ^ w → b < 2 ^ w → bit_or a b < 2 ^ w
bit_or-lt zero zero zero h g = h
bit_or-lt zero zero (suc b) h g = absurd (omega arith)
bit_or-lt zero (suc a) b h g = absurd (omega arith)
bit_or-lt (suc w) a b h g = omega (
  arith,
  two-pow-succ w,
  bit_or-digit a b,
  bit_or-lt w (a / 2) (b / 2) (omega (arith, two-pow-succ w)) (omega (arith, two-pow-succ w)),
)

differ-lt : (a b : ℕ) → a < 2 → b < 2 → differ a b < 2
differ-lt zero b h g = g
differ-lt (suc a) zero h g = h
differ-lt (suc a) (suc b) h g = differ-lt a b (omega arith) (omega arith)

pub bit_xor-lt : (w a b : ℕ) → a < 2 ^ w → b < 2 ^ w → bit_xor a b < 2 ^ w
bit_xor-lt zero zero zero h g = h
bit_xor-lt zero zero (suc b) h g = absurd (omega arith)
bit_xor-lt zero (suc a) b h g = absurd (omega arith)
bit_xor-lt (suc w) a b h g = omega (
  arith,
  two-pow-succ w,
  bit_xor-digit a b,
  differ-lt (a % 2) (b % 2) (omega arith) (omega arith),
  bit_xor-lt w (a / 2) (b / 2) (omega (arith, two-pow-succ w)) (omega (arith, two-pow-succ w)),
)

pub bit_and-lt : (w a b : ℕ) → a < 2 ^ w → bit_and a b < 2 ^ w
bit_and-lt zero zero b h = rw bit_and-bitwise h
bit_and-lt zero (suc a) b h = absurd (omega arith)
bit_and-lt (suc w) a b h = omega (
  arith,
  two-pow-succ w,
  bit_and-digit a b,
  bit_and-lt w (a / 2) (b / 2) (omega (arith, two-pow-succ w)),
)
