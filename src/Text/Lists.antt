-- ===== src/Text/Lists.antt =====
-- `length`, `take` and `drop` over `++`.
use projet_s5_prog.Common.{List, [], arith, refl, suc, ℕ, ◌++◌, ◌+◌, ◌∷◌, ◌≡◌}
use projet_s5_prog.Text.{drop, length, take}

pub length-append : (s t : List ℕ) → length (s ++ t) ≡ length s + length t
length-append [] t = omega arith
length-append (c ∷ s) t = omega (arith, length-append s t)

pub take-append : (s t : List ℕ) → take (length s) (s ++ t) ≡ s
unfolding take
take-append [] t = refl
take-append (c ∷ s) t = rw (take-append s t) refl

pub drop-append_suc : (s t : List ℕ) (c : ℕ) → drop (suc (length s)) (s ++ c ∷ t) ≡ t
unfolding drop
drop-append_suc [] t c = refl
drop-append_suc (d ∷ s) t c = drop-append_suc s t c

pub drop-append : (s t : List ℕ) → drop (length s) (s ++ t) ≡ t
unfolding drop
drop-append [] t = refl
drop-append (c ∷ s) t = drop-append s t
