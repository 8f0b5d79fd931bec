-- ===== src/InsertionSort/Endless.antt =====
-- The inner loop of Examples/insertion_sort.c does not end.
use mathlib.Core.Option
use projet_s5_prog.Common.{
  ap, arith, false, if◌then◌else◌, ltb, none, refl, some, suc, zero, ℕ, ◌≡◌,
}
use projet_s5_prog.InsertionSort.{insertion_sort, ordered_at, while_positive}

while_positive-none : (fuel j : ℕ) (t : ℕ → ℕ) → while_positive fuel (suc j) t ≡ none
unfolding while_positive
while_positive-none zero j t = refl
while_positive-none (suc fuel) j t = while_positive-none fuel j (ordered_at (suc j) t)

-- An array of two entries or more is never sorted: whatever it holds and however many rounds the
-- inner loop gets, it does not end in the second round of the outer loop. A shorter array is left
-- as it is.
pub insertion_sort-endless :
    (fuel size : ℕ) (t : ℕ → ℕ)
    → insertion_sort fuel size 0 t ≡ (if ltb size 2 then some t else none)
unfolding insertion_sort Option.bind
insertion_sort-endless fuel zero t = refl
insertion_sort-endless fuel (suc zero) t = refl
insertion_sort-endless fuel (suc (suc left)) t =
    let long : ltb (suc (suc left)) 2 ≡ false = ground arith in
    rw long
      (ap (λ o. Option.bind o (λ t'. insertion_sort fuel left 2 t')) (while_positive-none fuel 0 t))
