-- ===== src/Debug/Order.antt =====
-- The order of the strings in the table of debug.c.
use projet_s5_prog.Common.{List, [], arith, refl, sym, true, ℕ, ◌∙◌, ◌∷◌, ◌≡◌, ◌≢◌, ◌≤◌}
use projet_s5_prog.Debug.{Sign, above, below, equal, is_equal, strcmp}

-- The order by `strcmp`.
abbrev pub AtMost : List ℕ → List ℕ → Type 0
AtMost a b = strcmp a b ≢ above

pub strcmp-same : (a : List ℕ) → strcmp a a ≡ equal
unfolding strcmp
strcmp-same [] = refl
strcmp-same (c ∷ s) = ground (arith, strcmp-same s)

pub AtMost-refl : (a : List ℕ) → AtMost a a
AtMost-refl a e = let t : equal ≡ above = sym (strcmp-same a) ∙ e in absurd cc

pub strcmp-equal : (a b : List ℕ) → strcmp a b ≡ equal → a ≡ b
unfolding strcmp
strcmp-equal [] [] h = refl
strcmp-equal [] (d ∷ t) h = absurd cc
strcmp-equal (c ∷ s) [] h = absurd cc
strcmp-equal (c ∷ s) (d ∷ t) h =
    let heads : c ≡ d = ground arith in
    let tails : strcmp s t ≡ equal = ground arith in cc (heads, strcmp-equal s t tails)

pub strcmp-above : (a b : List ℕ) → strcmp a b ≡ above → strcmp b a ≡ below
unfolding strcmp
strcmp-above [] [] h = absurd cc
strcmp-above [] (d ∷ t) h = absurd cc
strcmp-above (c ∷ s) [] h = refl
strcmp-above (c ∷ s) (d ∷ t) h = ground (arith, strcmp-above s t)

pub strcmp-below : (a b : List ℕ) → strcmp a b ≡ below → strcmp b a ≡ above
unfolding strcmp
strcmp-below [] [] h = absurd cc
strcmp-below [] (d ∷ t) h = refl
strcmp-below (c ∷ s) [] h = absurd cc
strcmp-below (c ∷ s) (d ∷ t) h = ground (arith, strcmp-below s t)

pub is_equal-strcmp : (a b : List ℕ) → is_equal (strcmp a b) ≡ true → a ≡ b
is_equal-strcmp a b h = strcmp-equal a b (only_equal (strcmp a b) h)
  where
    only_equal : (s : Sign) → is_equal s ≡ true → s ≡ equal
    only_equal below e = absurd cc
    only_equal equal e = refl
    only_equal above e = absurd cc

pub AtMost-trans : (a b c : List ℕ) → AtMost a b → AtMost b c → AtMost a c
unfolding strcmp
AtMost-trans [] b [] h k = cc
AtMost-trans [] b (z ∷ c) h k = cc
AtMost-trans (x ∷ a) [] c h k = absurd (h refl)
AtMost-trans (x ∷ a) (y ∷ b) [] h k = absurd (k refl)
AtMost-trans (x ∷ a) (y ∷ b) (z ∷ c) h k = λ e.
    let xy : x ≤ y = ground (arith, h) in
    let yz : y ≤ z = ground (arith, k) in
    let zx : z ≤ x = ground (arith, e) in
    let ab : AtMost a b = λ e'. h (ground arith) in
    let bc : AtMost b c = λ e'. k (ground arith) in
    let ac : strcmp a c ≡ above = ground arith in AtMost-trans a b c ab bc ac
