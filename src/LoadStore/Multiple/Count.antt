-- ===== src/LoadStore/Multiple/Count.antt =====
-- `number_set_bits_in` counts the ones of a 16-bit list.
use native.Mathlib.Nat.{one-le-pow, pow-suc}
use native.Mathlib.Numerals.{add-one}
use projet_s5_prog.Common.{
  ap, arith, bit_and, if◌then◌else◌, suc, sym, zero, ℕ, ◌*◌, ◌+◌, ◌<◌, ◌==◌, ◌^◌, ◌∙◌, ◌≡◌, ◌≤◌,
}
use projet_s5_prog.Common.Bits.{single-bit_and}
use projet_s5_prog.Util.{get_bit}
use projet_s5_prog.LoadStore.Multiple.{count_bits, number_set_bits_in}

-- The number of ones among the bits from `i` on, `left` of them.
abbrev pub ones : ℕ → ℕ → ℕ → ℕ
ones zero i n = 0
ones (suc left) i n = get_bit n i + ones left (i + 1) n

-- The test of the loop, and what it adds to the count.
masked : (b m count : ℕ) → b < 2 → 1 ≤ m → (if b * m == m then count + 1 else count) ≡ count + b
masked zero m count h g = ground arith
masked (suc zero) m count h g = ground arith
masked (suc (suc b)) m count h g = absurd (omega arith)

-- The loop from bit `i` on, with the mask `2 ^ i`.
count_bits-ones : (left i n count : ℕ) → count_bits left n (2 ^ i) count ≡ count + ones left i n
unfolding count_bits
count_bits-ones zero i n count = omega arith
count_bits-ones (suc left) i n count =
    ap (λ m. count_bits left n m (if bit_and (2 ^ i) n == 2 ^ i then count + 1 else count))
      (sym (pow-suc 2 i))
    ∙ count_bits-ones left (suc i) n (if bit_and (2 ^ i) n == 2 ^ i then count + 1 else count)
    ∙ rw
        (
          single-bit_and i n,
          masked (get_bit n i) (2 ^ i) count (omega arith) (one-le-pow i 2 (omega arith)),
          add-one,
        )
        (omega arith)

-- `number_set_bits_in` gives the number of ones among the low 16 bits of its argument.
pub number_set_bits_in-ones : (n : ℕ) → number_set_bits_in n ≡ ones 16 0 n
unfolding number_set_bits_in
number_set_bits_in-ones n = omega (arith, count_bits-ones 16 0 n 0)

pub ones-le : (left i n : ℕ) → ones left i n ≤ left
ones-le zero i n = omega arith
ones-le (suc left) i n = omega (arith, ones-le left (i + 1) n)
