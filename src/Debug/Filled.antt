-- ===== src/Debug/Filled.antt =====
-- Names that are put into the table of debug.c one after the other.
use projet_s5_prog.Common.{
  Bool, List, Outcome, [], ap, arith, false, ltb, ok, refl, some, true, ℕ, ◌+◌, ◌-◌, ◌<◌, ◌>>=◌,
  ◌||◌, ◌∙◌, ◌∷◌, ◌≡◌, ◌≢◌, ◌≤◌,
}
use projet_s5_prog.Common.Ensures.{bind-ok}
use projet_s5_prog.Debug.{
  Debug, add_debug_to, insert_at, is_debugged, is_equal, max_files_number, place_of, replaced,
  strcmp,
}
use projet_s5_prog.Text.{length}
use projet_s5_prog.Debug.Search.{InOrder, is_debugged-listed, listed}
use projet_s5_prog.Debug.Insert.{
  Inserted, Inserted-InOrder, Inserted-listed, make_room-moved, place_of-Placed,
}

-- What `add_debug_to` does to a table in order that is not full.
record Added (name : List ℕ) (d d' : Debug) : Type 0 where
  one_more : d'.nb ≡ d.nb + 1
  in_order : InOrder d'.nb d'.files
  names :
      (other : List ℕ)
      → listed d'.nb other d'.files ≡ (is_equal (strcmp name other) || listed d.nb other d.files)

add_debug_to-Added :
    (name : List ℕ) (d : Debug)
    → InOrder d.nb d.files
    → d.nb < max_files_number
    → (d' : Debug) × (add_debug_to name d ≡ ok d') × Added name d d'
unfolding add_debug_to insert_at
add_debug_to-Added name d o h =
    let i = place_of d.nb 0 name d.files in
    let p = place_of-Placed d.nb 0 d.nb name d.files (omega arith) (λ k c. absurd (omega arith)) in
    let inside : i ≤ d.nb = p.inside in
    let room : ltb i max_files_number ≡ true = ground (arith, inside, h) in
    let m = make_room-moved (d.nb - i) i d.files (omega (arith, inside, h)) in
    let f2 = replaced m.0 i name in
    let other_place : (k : ℕ) → k ≢ i → f2 k ≡ m.0 k = λ k c. ground arith in
    let t : Inserted d.nb name d.files i f2 = record {
      before_it = λ k c. other_place k (omega arith) ∙ m.2 k (omega arith);
      at_it = ground arith;
      behind_it = λ k x y. other_place (k + 1) (omega arith) ∙ m.3 k x (omega arith);
    } in
    (
      record { files = f2; nb = d.nb + 1 },
      rw room (bind-ok _ m.1),
      record { one_more = refl; in_order = Inserted-InOrder t p o h; names = Inserted-listed t p },
    )

-- The calls of `add_debug_to` with some names, one after the other.
unfoldable pub add_all : List (List ℕ) → Debug → Outcome Debug
add_all [] d = ok d
add_all (name ∷ rest) d = add_debug_to name d >>= λ d'. add_all rest d'

-- Whether `other` is one of `names`.
unfoldable pub mentioned : List ℕ → List (List ℕ) → Bool
mentioned other [] = false
mentioned other (name ∷ rest) = is_equal (strcmp name other) || mentioned other rest

add_all-listed :
    (names : List (List ℕ)) (d : Debug)
    → InOrder d.nb d.files
    → d.nb + length names ≤ max_files_number
    → (d' : Debug) × (add_all names d ≡ ok d')
      × InOrder d'.nb d'.files
      × ((other : List ℕ)
          → listed d'.nb other d'.files ≡ (mentioned other names || listed d.nb other d.files))
unfolding add_all mentioned
add_all-listed [] d o h = (d, refl, o, λ other. refl)
add_all-listed (name ∷ rest) d o h =
    let a = add_debug_to-Added name d o (omega arith) in
    let r = add_all-listed rest a.0 a.2.in_order (omega (arith, h, a.2.one_more)) in
    (r.0, bind-ok _ a.1 ∙ r.1, r.2, λ other. ground (arith, r.3 other, a.2.names other))

-- The table after the names are put in is the same for every file that is asked for.
pub add_all-is_debugged :
    (names : List (List ℕ)) (f : ℕ → List ℕ)
    → length names ≤ 64
    → (d : Debug) × (add_all names (record { files = f; nb = 0 }) ≡ ok d)
      × ((other : List ℕ) → is_debugged other d ≡ some (mentioned other names))
add_all-is_debugged names f h =
    let r =
      add_all-listed names (record { files = f; nb = 0 }) (λ i j x y. absurd (omega arith))
        (omega arith) in
    let none_before : (other : List ℕ)
        → (mentioned other names || listed 0 other f) ≡ mentioned other names =
      λ other. unfold listed in ground arith in
    (r.0, r.1, λ other. is_debugged-listed other r.0 r.2 ∙ ap some (r.3 other ∙ none_before other))

-- From the empty table, at most 64 names can be put in one after the other, whatever their order
-- and whether or not they repeat, and then the binary search ends and finds a name if and only if
-- it is one of them.
pub is_debugged-add_all :
    (names : List (List ℕ)) (other : List ℕ) (f : ℕ → List ℕ)
    → length names ≤ 64
    → (d : Debug) × (add_all names (record { files = f; nb = 0 }) ≡ ok d)
      × (is_debugged other d ≡ some (mentioned other names))
is_debugged-add_all names other f h = let r = add_all-is_debugged names f h in (r.0, r.1, r.2 other)
