-- ===== src/Util/Laws.antt =====
-- The macros of util.h in arithmetic, and the shifts of util.c against their meaning.
use projet_s5_prog.Common.{ℕ, ◌+◌, ◌-◌, ◌*◌, ◌/◌, ◌%◌, ◌^◌, ◌<◌, ◌≡◌, bit_and, bit_or, arith}
use projet_s5_prog.Common.Bits.{bit_and-ones, bit_or-fields, bit_or-single, bit_and-but_single}
use projet_s5_prog.Util.{get_bit, get_bits, set_bit, clr_bit, reverse_2, reverse_4}

-- The mask of the macro `get_bits` selects the field that the model reads by division.
pub get_bits-mask : (x h l : ℕ) → bit_and (x / 2 ^ l) (2 ^ (h - l + 1) - 1) ≡ get_bits x h l
get_bits-mask x h l = bit_and-ones (h - l + 1) (x / 2 ^ l)

pub set_bit-sum : (x i : ℕ) → set_bit x i ≡ x + 2 ^ i - get_bit x i * 2 ^ i
unfolding set_bit
set_bit-sum x i = bit_or-single i x

pub clr_bit-sum : (x i : ℕ) → i < 32 → x < 2 ^ 32 → clr_bit x i ≡ x - get_bit x i * 2 ^ i
unfolding clr_bit
clr_bit-sum x i h g = bit_and-but_single 32 i x h g

pub reverse_2-sum : (x : ℕ) → reverse_2 x ≡ x % 256 * 2 ^ 8 + x / 2 ^ 8 % 256
unfolding reverse_2
reverse_2-sum x =
    rw (bit_and-ones 8 x, bit_and-ones 8 (x / 2 ^ 8))
      (bit_or-fields 8 (x % 256) (x / 2 ^ 8 % 256) (omega arith))

pub reverse_4-sum :
    (x : ℕ)
    → reverse_4 x
      ≡ x % 256 * 2 ^ 24 + x / 2 ^ 8 % 256 * 2 ^ 16 + x / 2 ^ 16 % 256 * 2 ^ 8 + x / 2 ^ 24 % 256
unfolding reverse_4
reverse_4-sum x =
    rw
      (
        bit_and-ones 8 x,
        bit_and-ones 8 (x / 2 ^ 8),
        bit_and-ones 8 (x / 2 ^ 16),
        bit_and-ones 8 (x / 2 ^ 24),
      )
      (fields (x % 256) (x / 2 ^ 8 % 256) (x / 2 ^ 16 % 256) (x / 2 ^ 24 % 256) (omega arith)
        (omega arith) (omega arith))
  where
    fields :
        (a b c d : ℕ)
        → b < 256
        → c < 256
        → d < 256
        → bit_or (bit_or (bit_or (a * 2 ^ 24) (b * 2 ^ 16)) (c * 2 ^ 8)) d
          ≡ a * 2 ^ 24 + b * 2 ^ 16 + c * 2 ^ 8 + d
    fields a b c d hb hc hd =
        let two : a * 2 ^ 24 + b * 2 ^ 16 ≡ (a * 2 ^ 8 + b) * 2 ^ 16 = omega arith in
        let three : (a * 2 ^ 8 + b) * 2 ^ 16 + c * 2 ^ 8 ≡ (a * 2 ^ 16 + b * 2 ^ 8 + c) * 2 ^ 8 =
          omega arith in
        rw
          (
            bit_or-fields 24 a (b * 2 ^ 16) (omega arith),
            two,
            bit_or-fields 16 (a * 2 ^ 8 + b) (c * 2 ^ 8) (omega arith),
            three,
            bit_or-fields 8 (a * 2 ^ 16 + b * 2 ^ 8 + c) d hd,
          )
          (omega arith)
