-- ===== src/Debug/Cached.antt =====
-- The answers of the macro `is_debugged` of debug.h when they are cached.
use mathlib.Core.Option
use projet_s5_prog.Debug.{Debug, is_debugged, search_loop}
use projet_s5_prog.Debug.Macros.{Cache, asked, cached_is_debugged, fresh}
use projet_s5_prog.Debug.Filled.{add_all, is_debugged-add_all, mentioned}
use projet_s5_prog.Common.{
  Bool, List, [], ap, arith, false, ok, refl, some, suc, zero, ℕ, ◌+◌, ◌∷◌, ◌≡◌, ◌≤◌,
}
use projet_s5_prog.Text.{length}

abbrev pub same_answers : ℕ → Bool → List Bool
same_answers zero b = []
same_answers (suc n) b = b ∷ same_answers n b

abbrev known : Bool → Cache
known b = record { first = false; result = b }

-- Once it is known, the table is not looked at any more.
asked-known :
    (n : ℕ) (file : List ℕ) (d : Debug) (b : Bool)
    → asked n file d (known b) ≡ some (same_answers n b, known b)
unfolding asked Option.bind
asked-known zero file d b = refl
asked-known (suc n) file d b = ap (Option.map _) (asked-known n file d b)

asked-fresh :
    (n : ℕ) (file : List ℕ) (d : Debug) (b : Bool)
    → is_debugged file d ≡ some b
    → asked (suc n) file d fresh ≡ some (same_answers (suc n) b, known b)
unfolding asked cached_is_debugged Option.bind
asked-fresh n file d b e = rw e (ap (Option.map _) (asked-known n file d b))

-- A file that first asks after the options were read, with at most 64 names in the table, has in
-- all its uses the answer of the search: whether it is one of the names. A file that asks once
-- before the options were read has the answer no in all its uses afterwards, even if it is one of
-- the names.
pub asked-add_all :
    (n : ℕ) (file : List ℕ) (names : List (List ℕ)) (f : ℕ → List ℕ)
    → length names ≤ 64
    → (d : Debug) × (c : Cache) × (add_all names (record { files = f; nb = 0 }) ≡ ok d)
      × (is_debugged file d ≡ some (mentioned file names))
      × (asked (n + 1) file d fresh ≡ some (same_answers (n + 1) (mentioned file names), c))
      × (early : Cache) × (asked 1 file (record { files = f; nb = 0 }) fresh
          ≡ some (false ∷ [], early))
      × (asked n file d early ≡ some (same_answers n false, early))
asked-add_all n file names f h =
    let a = is_debugged-add_all names file f h in
    let none_yet = is_debugged-add_all [] file f (omega arith) in
    let next : n + 1 ≡ suc n = omega arith in
    (
      a.0,
      known (mentioned file names),
      a.1,
      a.2,
      rw next (asked-fresh n file a.0 (mentioned file names) a.2),
      known false,
      asked-fresh 0 file (record { files = f; nb = 0 }) false
          (unfold is_debugged search_loop in refl),
      asked-known n file a.0 false,
    )
