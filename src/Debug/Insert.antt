-- ===== src/Debug/Insert.antt =====
-- The place that debug.c finds for a name, and the table with the name at that place.
use projet_s5_prog.Common.{
  Bool-cases, List, ap, arith, false, inl, inr, ltb, ok, refl, subst, suc, sym, true, zero, ℕ, ◌&&◌,
  ◌+◌, ◌-◌, ◌<◌, ◌||◌, ◌∙◌, ◌≡◌, ◌≢◌, ◌≤◌,
}
use projet_s5_prog.Debug.{
  equal, is_below, is_equal, make_room, max_files_number, place_of, replaced, strcmp,
}
use projet_s5_prog.Debug.Order.{
  AtMost, AtMost-refl, AtMost-trans, is_equal-strcmp, strcmp-above, strcmp-same,
}
use projet_s5_prog.Debug.Search.{InOrder, listed, listed-at, listed-none, listed-place}
use native.Mathlib.Decide.{ℕ_discrete}

-- The place found: the names before it are smaller, and the name at it is not.
pub record Placed (n : ℕ) (name : List ℕ) (f : ℕ → List ℕ) (i : ℕ) : Type 0 where
  pub inside : i ≤ n
  pub smaller : (k : ℕ) → k < i → AtMost (f k) name
  pub larger : i < n → i < max_files_number → AtMost name (f i)

is_below-AtMost : (a b : List ℕ) → is_below (strcmp a b) ≡ true → AtMost a b
is_below-AtMost a b h e = let t : false ≡ true = ap is_below (sym e) ∙ h in absurd cc

not_below-AtMost : (a b : List ℕ) → is_below (strcmp a b) ≡ false → AtMost b a
not_below-AtMost a b h e =
    let t : true ≡ false = ap is_below (sym (strcmp-above b a e)) ∙ h in absurd cc

pub place_of-Placed :
    (left i n : ℕ) (name : List ℕ) (f : ℕ → List ℕ)
    → i + left ≡ n
    → ((k : ℕ) → k < i → AtMost (f k) name)
    → Placed n name f (place_of left i name f)
unfolding place_of
place_of-Placed zero i n name f h s = record {
  inside = omega arith;
  smaller = s;
  larger = λ x y. absurd (omega arith);
}
place_of-Placed (suc left) i n name f h s =
    elim (Bool-cases (ltb i max_files_number && is_below (strcmp (f i) name))) [
      | inl x ↦ rw x (
          place_of-Placed left (i + 1) n name f (omega arith) λ k c. elim (ℕ_discrete k i) [
            | yes same ↦ rw same (is_below-AtMost (f i) name (ground (arith, x)))
            | no other ↦ s k (omega arith)
          ])
      | inr x ↦ rw x (record {
        inside = omega arith;
        smaller = s;
        larger = λ a b. not_below-AtMost (f i) name (ground (arith, x, b));
      })
    ]

-- The names after the loop that makes room.
pub make_room-moved :
    (left i : ℕ) (f : ℕ → List ℕ)
    → i + left < max_files_number
    → (f' : ℕ → List ℕ) × (make_room left i f ≡ ok f')
      × ((k : ℕ) → k ≤ i → f' k ≡ f k)
      × ((k : ℕ) → i ≤ k → k < i + left → f' (k + 1) ≡ f k)
      × ((k : ℕ) → i + left < k → f' k ≡ f k)
unfolding make_room
make_room-moved zero i f h = (f, refl, (λ k a. refl), (λ k a b. absurd (omega arith)), λ k a. refl)
make_room-moved (suc left) i f h =
    let g = replaced f (i + suc left) (f (i + left)) in
    let r = make_room-moved left i g (omega arith) in
    let room : ltb (i + suc left) max_files_number ≡ true = ground arith in
    let kept : (k : ℕ) → k ≢ i + suc left → g k ≡ f k = λ k d. ground arith in
    (
      r.0,
      rw room r.1,
      (λ k a. r.2 k a ∙ kept k (omega arith)),
      (λ k a b. elim (ℕ_discrete k (i + left)) [
        | yes same ↦
            r.4 (k + 1) (omega arith)
            ∙ (let moved : g (k + 1) ≡ f (i + left) = ground arith in moved)
            ∙ ap f (sym same)
        | no other ↦ r.3 k a (omega arith) ∙ kept k (omega arith)
      ]),
      λ k a. r.4 k (omega arith) ∙ kept k (omega arith),
    )

-- The table with `name` at the place `i`.
pub record Inserted (n : ℕ) (name : List ℕ) (f : ℕ → List ℕ) (i : ℕ) (f2 : ℕ → List ℕ)
    : Type 0 where
  pub before_it : (k : ℕ) → k < i → f2 k ≡ f k
  pub at_it : f2 i ≡ name
  pub behind_it : (k : ℕ) → i ≤ k → k < n → f2 (k + 1) ≡ f k

-- The place of an entry of the new table.
data Spot (i n : ℕ) : ℕ → Type 0 where
  before : (k : ℕ) → k < i → Spot i n k
  at_place : Spot i n i
  behind : (k : ℕ) → i ≤ k → k < n → Spot i n (k + 1)

Spot-at : (i n j : ℕ) → i ≤ n → j < n + 1 → Spot i n j
Spot-at i n j h c = elim (ℕ_discrete j i) [
  | yes same ↦ subst (Spot i n) (sym same) at_place
  | no other ↦ elim (Bool-cases (ltb j i)) [
    | inl x ↦ before j (ground arith)
    | inr x ↦
        let step_back : j - 1 + 1 ≡ j = ground arith in
        subst (Spot i n) step_back (behind (j - 1) (ground arith) (omega arith))
  ]
]

module _ {n i : ℕ} {name : List ℕ} {f f2 : ℕ → List ℕ} (t : Inserted n name f i f2)
    (p : Placed n name f i) where
  spots-AtMost :
      (a b : ℕ)
      → InOrder n f
      → n < max_files_number
      → Spot i n a
      → Spot i n b
      → a ≤ b
      → AtMost (f2 a) (f2 b)
  spots-AtMost _ _ o small (before k c) (before l d) h =
      rw (t.before_it k c) (rw (t.before_it l d) (o k l h (omega (arith, p.inside))))
  spots-AtMost _ _ o small (before k c) at_place h =
      rw (t.before_it k c) (rw t.at_it (p.smaller k c))
  spots-AtMost _ _ o small (before l c) (behind k x y) h =
      rw (t.before_it l c) (rw (t.behind_it k x y) (o l k (omega arith) y))
  spots-AtMost _ _ o small at_place (before l d) h = absurd (omega arith)
  spots-AtMost _ _ o small at_place at_place h = λ e. AtMost-refl (f2 i) e
  spots-AtMost _ _ o small at_place (behind k x y) h = rw t.at_it (
      rw (t.behind_it k x y)
        (AtMost-trans name (f i) (f k) (p.larger (omega arith) (omega arith)) (o i k x y)))
  spots-AtMost _ _ o small (behind k x y) (before l d) h = absurd (omega arith)
  spots-AtMost _ _ o small (behind k x y) at_place h = absurd (omega arith)
  spots-AtMost _ _ o small (behind k x y) (behind l u v) h =
      rw (t.behind_it k x y) (rw (t.behind_it l u v) (o k l (omega arith) v))

  pub Inserted-InOrder : InOrder n f → n < max_files_number → InOrder (n + 1) f2
  Inserted-InOrder o small a b h c =
      spots-AtMost a b o small (Spot-at i n a p.inside (omega arith)) (Spot-at i n b p.inside c) h

  -- The names of the new table.
  Spot-listed :
      (other : List ℕ) (j : ℕ)
      → Spot i n j
      → f2 j ≡ other
      → (is_equal (strcmp name other) || listed n other f) ≡ true
  Spot-listed other _ (before k c) e =
      let old = listed-at n k other f (omega (arith, p.inside)) (sym (t.before_it k c) ∙ e) in
      ground (arith, old)
  Spot-listed other _ at_place e =
      let same : strcmp name other ≡ equal = rw (sym e) (rw t.at_it (strcmp-same name)) in
      rw same refl
  Spot-listed other _ (behind k x y) e =
      let old = listed-at n k other f y (sym (t.behind_it k x y) ∙ e) in ground (arith, old)

  old-listed : (other : List ℕ) (k : ℕ) → k < n → f k ≡ other → listed (n + 1) other f2 ≡ true
  old-listed other k c e = elim (Bool-cases (ltb k i)) [
    | inl x ↦ listed-at (n + 1) k other f2 (omega arith) (t.before_it k (ground arith) ∙ e)
    | inr x ↦ listed-at (n + 1) (k + 1) other f2 (omega arith) (t.behind_it k (ground arith) c ∙ e)
  ]

  pub Inserted-listed :
      (other : List ℕ)
      → listed (n + 1) other f2 ≡ (is_equal (strcmp name other) || listed n other f)
  Inserted-listed other = elim (Bool-cases (is_equal (strcmp name other) || listed n other f)) [
    | inl x ↦ present x ∙ sym x
    | inr x ↦ listed-none (n + 1) other f2 (absent x) ∙ sym x
  ]
    where
      present :
          (is_equal (strcmp name other) || listed n other f) ≡ true → listed (n + 1) other f2 ≡ true
      present x = elim (Bool-cases (is_equal (strcmp name other))) [
        | inl y ↦
            listed-at (n + 1) i other f2 (omega (arith, p.inside))
              (t.at_it ∙ is_equal-strcmp name other y)
        | inr y ↦
            let old : listed n other f ≡ true = ground (arith, x, y) in
            let r = listed-place n other f old in old-listed other r.0 r.1 r.2
      ]

      absent :
          (is_equal (strcmp name other) || listed n other f) ≡ false
          → (j : ℕ) → j < n + 1
          → f2 j ≢ other
      absent x j c e =
          let y : true ≡ false = sym (Spot-listed other j (Spot-at i n j p.inside c) e) ∙ x in
          absurd cc
