-- ===== src/Debug/Search.antt =====
-- The binary search of debug.c against a search from one end to the other.
use native.Mathlib.Decide.{ℕ_discrete}
use projet_s5_prog.Common.{
  Bool, Bool-cases, List, Option, ap, arith, false, inl, inr, ltb, refl, some, suc, sym, true, zero,
  ℕ, ◌&&◌, ◌+◌, ◌-◌, ◌/◌, ◌<◌, ◌==◌, ◌||◌, ◌∙◌, ◌≡◌, ◌≢◌, ◌≤◌,
}
use projet_s5_prog.Debug.{
  Debug, Sign, above, below, equal, is_debugged, is_equal, search_loop, strcmp,
}
use projet_s5_prog.Debug.Order.{AtMost, is_equal-strcmp, strcmp-below, strcmp-equal, strcmp-same}

-- The first `n` names are in order.
abbrev pub InOrder : ℕ → (ℕ → List ℕ) → Type 0
InOrder n f = (i j : ℕ) → i ≤ j → j < n → AtMost (f i) (f j)

-- Whether `name` is one of the first `n` names.
unfoldable pub listed : ℕ → List ℕ → (ℕ → List ℕ) → Bool
listed zero name f = false
listed (suc n) name f = is_equal (strcmp (f n) name) || listed n name f

-- What the answer says of the names from `from` on, before `end`.
abbrev pub Answer : ℕ → ℕ → List ℕ → (ℕ → List ℕ) → Bool → Type 0
Answer from end name f true = (k : ℕ) × (from ≤ k) × (k < end) × (f k ≡ name)
Answer from end name f false = (k : ℕ) → from ≤ k → k < end → f k ≢ name

abbrev Searched : ℕ → ℕ → List ℕ → (ℕ → List ℕ) → Option Bool → Type 0
Searched from end name f o = (b : Bool) × (o ≡ some b) × Answer from end name f b

-- A part of the names that the answer does not depend on is left out.
narrowed :
    (from from' end end' : ℕ) (name : List ℕ) (f : ℕ → List ℕ) (b : Bool)
    → from ≤ from'
    → end' ≤ end
    → ((k : ℕ) → from ≤ k → k < from' → f k ≢ name)
    → ((k : ℕ) → end' ≤ k → k < end → f k ≢ name)
    → Answer from' end' name f b
    → Answer from end name f b
narrowed from from' end end' name f true lo hi before behind (k, a, c, e) =
    (k, omega arith, omega arith, e)
narrowed from from' end end' name f false lo hi before behind missing = λ k a c.
    elim (Bool-cases (ltb k from')) [
      | inl x ↦ before k a (ground arith)
      | inr x ↦ elim (Bool-cases (ltb k end')) [
        | inl y ↦ missing k (ground arith) (ground arith)
        | inr y ↦ behind k (ground arith) c
      ]
    ]

differs : (a name : List ℕ) → is_equal (strcmp a name) ≡ false → a ≢ name
differs a name h e =
    let same : strcmp a name ≡ equal = rw e (strcmp-same name) in
    let t : true ≡ false = ap is_equal (sym same) ∙ h in absurd cc

module _ (name : List ℕ) (f : ℕ → List ℕ) where
  -- The names before and behind the middle one, as it differs from `name`.
  none_before :
      (m end : ℕ)
      → InOrder end f
      → m < end
      → strcmp (f m) name ≡ below
      → (k : ℕ) → k < m + 1
      → f k ≢ name
  none_before m end o h s k c e = o k m (omega arith) h (rw e (strcmp-below (f m) name s))

  none_behind :
      (m end : ℕ)
      → InOrder end f
      → strcmp (f m) name ≡ above
      → (k : ℕ) → m ≤ k
      → k < end
      → f k ≢ name
  none_behind m end o s k a c e = o m k a c (rw e s)

  last_one :
      (from end : ℕ) (b c : Bool)
      → end ≤ from + 1
      → (from + 1 == end) ≡ b
      → is_equal (strcmp (f from) name) ≡ c
      → Searched from end name f (some (b && c))
  last_one from end false c h g e = (false, refl, λ k x y. absurd (ground arith))
  last_one from end true true h g e =
      (true, refl, (from, omega arith, ground arith, is_equal-strcmp (f from) name e))
  last_one from end true false h g e =
      (false, refl, λ k x y. let at : k ≡ from = ground arith in rw at (differs (f from) name e))

  -- A round of the search, given what the next one finds.
  compared :
      (fuel from m end : ℕ) (s : Sign)
      → InOrder end f
      → from ≤ m
      → m < end
      → end < from + suc fuel
      → strcmp (f m) name ≡ s
      → ((from' end' : ℕ)
          → InOrder end' f
          → from' ≤ end'
          → end' < from' + fuel
          → Searched from' end' name f (search_loop fuel from' end' name f))
      → Searched from end name f (elim s [
        | below ↦ search_loop fuel (m + 1) end name f
        | equal ↦ some true
        | above ↦ search_loop fuel from m name f
      ])
  compared fuel from m end below o a c room e next =
      let r = next (m + 1) end o (omega arith) (omega arith) in
      (
        r.0,
        r.1,
        narrowed from (m + 1) end end name f r.0 (omega arith) (omega arith)
            (λ k x y. none_before m end o c e k y) (λ k x y. absurd (omega arith)) r.2,
      )
  compared fuel from m end equal o a c room e next =
      (true, refl, (m, a, c, strcmp-equal (f m) name e))
  compared fuel from m end above o a c room e next =
      let r = next from m (λ i j x y. o i j x (omega arith)) a (omega arith) in
      (
        r.0,
        r.1,
        narrowed from from end m name f r.0 (omega arith) (omega arith)
            (λ k x y. absurd (omega arith)) (λ k x y. none_behind m end o e k x y) r.2,
      )

  pub search_loop-Searched :
      (fuel from end : ℕ)
      → InOrder end f
      → from ≤ end
      → end < from + fuel
      → Searched from end name f (search_loop fuel from end name f)
  unfolding search_loop
  search_loop-Searched zero from end o lo h = absurd (omega arith)
  search_loop-Searched (suc fuel) from end o lo h =
      let m = (from + (end - 1)) / 2 in
      elim (Bool-cases (ltb (from + 1) end)) [
        | inl x ↦ rw x (
            compared fuel from m end (strcmp (f m) name) o (ground arith) (ground arith) h refl
              (λ from' end'. search_loop-Searched fuel from' end'))
        | inr x ↦ rw x (
            last_one from end (from + 1 == end) (is_equal (strcmp (f from) name)) (ground arith)
              refl refl)
      ]

pub listed-at :
    (n k : ℕ) (name : List ℕ) (f : ℕ → List ℕ) → k < n → f k ≡ name → listed n name f ≡ true
unfolding listed
listed-at zero k name f h e = absurd (omega arith)
listed-at (suc n) k name f h e = elim (ℕ_discrete k n) [
  | yes same ↦
      let found : strcmp (f n) name ≡ equal = rw (sym same) (rw e (strcmp-same name)) in
      rw found refl
  | no other ↦
      let before : listed n name f ≡ true = listed-at n k name f (omega arith) e in
      ground (arith, before)
]

pub listed-none :
    (n : ℕ) (name : List ℕ) (f : ℕ → List ℕ)
    → ((k : ℕ) → k < n → f k ≢ name)
    → listed n name f ≡ false
unfolding listed
listed-none zero name f h = refl
listed-none (suc n) name f h =
    let before : listed n name f ≡ false = listed-none n name f (λ k x. h k (omega arith)) in
    elim (Bool-cases (is_equal (strcmp (f n) name))) [
      | inl x ↦ absurd (h n (omega arith) (is_equal-strcmp (f n) name x))
      | inr x ↦ rw x before
    ]

-- The place of a name that is listed.
pub listed-place :
    (n : ℕ) (name : List ℕ) (f : ℕ → List ℕ)
    → listed n name f ≡ true
    → (k : ℕ) × (k < n) × (f k ≡ name)
unfolding listed
listed-place zero name f h = absurd cc
listed-place (suc n) name f h = elim (Bool-cases (is_equal (strcmp (f n) name))) [
  | inl x ↦ (n, omega arith, is_equal-strcmp (f n) name x)
  | inr x ↦
      let before : listed n name f ≡ true = ground (arith, h, x) in
      let r = listed-place n name f before in (r.0, omega arith, r.2)
]

Answer-listed :
    (n : ℕ) (name : List ℕ) (f : ℕ → List ℕ) (b : Bool) → Answer 0 n name f b → listed n name f ≡ b
Answer-listed n name f true (k, a, c, e) = listed-at n k name f c e
Answer-listed n name f false h = listed-none n name f (λ k c. h k (omega arith) c)

-- On names in order, the binary search ends within one round more than the names are many, and
-- finds a name if and only if the search from one end to the other does.
pub is_debugged-listed :
    (name : List ℕ) (d : Debug)
    → InOrder d.nb d.files
    → is_debugged name d ≡ some (listed d.nb name d.files)
unfolding is_debugged
is_debugged-listed name d o =
    let s = search_loop-Searched name d.files (d.nb + 1) 0 d.nb o (omega arith) (omega arith) in
    s.1 ∙ ap some (sym (Answer-listed d.nb name d.files s.0 s.2))
