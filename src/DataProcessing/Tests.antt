-- ===== src/DataProcessing/Tests.antt =====
-- `CarryFrom` and `OverflowFrom` against the carry and the overflow of 32-bit arithmetic.
use projet_s5_prog.Common.{arith, ltb, of_bool, ℕ, ◌%◌, ◌+◌, ◌/◌, ◌<◌, ◌^◌, ◌↔◌, ◌≡◌, ◌≤◌}
use projet_s5_prog.DataProcessing.{carry_from, overflow_from}

-- On the operands that `maj_flags` gives it, a register number and a 12-bit field, `CarryFrom` is
-- 1 exactly if the sum exceeds 33, while the sum never carries out of 32 bits.
pub carry_from_lem :
    (a b : ℕ)
    → a < 16
    → b < 2 ^ 12
    → ((a + b) / 2 ^ 32 ≡ 0) × (carry_from a b ≡ of_bool (ltb 33 (a + b)))
unfolding carry_from
carry_from_lem a b ha hb = (omega arith, ground arith)

-- The signed value of a word, plus 2 ^ 31.
abbrev pub biased : ℕ → ℕ
biased a = (a + 2 ^ 31) % 2 ^ 32

-- For words, `OverflowFrom` with '+' is 0 exactly if the sum of the signed values fits in 32 bits,
-- and with '-' exactly if their difference does; signed values are compared with 2^31 added.
pub overflow_from_lem :
    (a b : ℕ)
    → a < 2 ^ 32
    → b < 2 ^ 32
    → ((overflow_from a b b'+' ≡ 0)
        ↔ ((2 ^ 31 ≤ biased a + biased b) × (biased a + biased b < 2 ^ 31 + 2 ^ 32)))
      × ((overflow_from a b b'-' ≡ 0)
          ↔ ((biased b ≤ biased a + 2 ^ 31) × (biased a < biased b + 2 ^ 31)))
unfolding overflow_from
overflow_from_lem a b ha hb = ground arith
