-- ===== src/Util.antt =====
-- util.h and util.c: single bits, bit fields, byte reversal and shifts of a `uint32_t`.
-- A left shift of an `int` keeps the low 32 bits, as the compilers of the project do.
pub mod Laws
use projet_s5_prog.Common.{
  ℕ, ◌+◌, ◌-◌, ◌*◌, ◌/◌, ◌%◌, ◌^◌, bit_and, bit_or, u32, ltb, ◌==◌, if◌then◌else◌, Outcome, ok,
  fault, ◌>>=◌,
}

abbrev pub get_bit : ℕ → ℕ → ℕ
get_bit x i = x / 2 ^ i % 2

unfoldable pub set_bit : ℕ → ℕ → ℕ
set_bit x i = bit_or x (2 ^ i)

unfoldable pub clr_bit : ℕ → ℕ → ℕ
clr_bit x i = bit_and x (2 ^ 32 - 1 - 2 ^ i)

-- The macro's mask `~((~0 >> n) << n)` is `n` ones; `& ` with it is the remainder by `2 ^ n`.
abbrev pub get_bits : ℕ → ℕ → ℕ → ℕ
get_bits x h l = x / 2 ^ l % 2 ^ (h - l + 1)

unfoldable pub reverse_2 : ℕ → ℕ
reverse_2 x = bit_or (bit_and x 0xFF * 2 ^ 8) (bit_and (x / 2 ^ 8) 0xFF)

unfoldable pub reverse_4 : ℕ → ℕ
reverse_4 x =
    bit_or
      (bit_or (bit_or (bit_and x 0xFF * 2 ^ 24) (bit_and (x / 2 ^ 8) 0xFF * 2 ^ 16))
        (bit_and (x / 2 ^ 16) 0xFF * 2 ^ 8))
      (bit_and (x / 2 ^ 24) 0xFF)

-- `x << k` and `x >> k`: C defines them for fewer than 32 places.
unfoldable pub shl32 : ℕ → ℕ → Outcome ℕ
shl32 x k = if ltb k 32 then ok (u32 (x * 2 ^ k)) else fault

unfoldable pub shr32 : ℕ → ℕ → Outcome ℕ
shr32 x k = if ltb k 32 then ok (x / 2 ^ k) else fault

-- The sign bits are asked for only when bit 31 is set; `~0 << n` is `2 ^ 32 - 2 ^ n`.
unfoldable pub asr : ℕ → ℕ → Outcome ℕ
unfolding shr32 shl32
asr value shift = do
  low ← shr32 value shift
  high ← if get_bit value 31 == 0 then ok 0 else shl32 (2 ^ 32 - 1) (32 - shift)
  ok (bit_or low high)

-- For `rotation` above 32 the first shift is already undefined, so `32 - rotation` is not read.
unfoldable pub ror : ℕ → ℕ → Outcome ℕ
unfolding shr32 shl32
ror value rotation = do
  low ← shr32 value rotation
  high ← shl32 value (32 - rotation)
  ok (bit_or low high)
