-- ===== src/InsertionSort.antt =====
-- Examples/insertion_sort.c: the program for the simulated machine that is meant to sort.
pub mod Endless
use mathlib.Core.Option
use projet_s5_prog.Memory.{update}
use projet_s5_prog.Common.{Option, if◌then◌else◌, ltb, none, some, suc, zero, ℕ, ◌+◌, ◌-◌, ◌==◌}

-- The array `t` with two neighbours put in order.
unfoldable pub ordered_at : ℕ → (ℕ → ℕ) → ℕ → ℕ
ordered_at j t = if ltb (t j) (t (j - 1)) then update (update t (j - 1) (t j)) j (t (j - 1)) else t

-- `while (j > 0)`, with `fuel` rounds at most. The body does not change `j`.
unfoldable pub while_positive : ℕ → ℕ → (ℕ → ℕ) → Option (ℕ → ℕ)
unfolding ordered_at
while_positive fuel zero t = some t
while_positive zero (suc j) t = none
while_positive (suc fuel) (suc j) t = while_positive fuel (suc j) (ordered_at (suc j) t)

-- The outer loop from `i` on, with `left` rounds to go.
unfoldable pub insertion_sort : ℕ → ℕ → ℕ → (ℕ → ℕ) → Option (ℕ → ℕ)
unfolding while_positive
insertion_sort fuel zero i t = some t
insertion_sort fuel (suc left) i t =
    Option.bind (while_positive fuel i t) (λ t'. insertion_sort fuel left (i + 1) t')

abbrev pub first_array : ℕ → ℕ
first_array j =
    if j == 0
    then 3
    else if j == 1
    then 6
    else if j == 2
    then 2
    else if j == 3
    then 0
    else if j == 4
    then 4
    else if j == 5
    then 1
    else if j == 6
    then 9
    else if j == 7
    then 8
    else if j == 8
    then 5
    else 7

-- `main`, with the number of rounds of each inner loop.
unfoldable pub sort_main : ℕ → Option (ℕ → ℕ)
unfolding insertion_sort
sort_main fuel = insertion_sort fuel 10 0 first_array
