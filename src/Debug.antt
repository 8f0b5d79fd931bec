-- ===== src/Debug.antt =====
-- debug.c: the sorted table of the files whose debug output is on, and its binary search.
pub mod Order
pub mod Search
pub mod Insert
pub mod Filled
pub mod Full
pub mod Macros
pub mod Cached
use projet_s5_prog.Common.{
  Bool, List, Option, Outcome, [], false, fault, if◌then◌else◌, ltb, none, ok, some, suc, true,
  zero, ℕ, ◌&&◌, ◌+◌, ◌-◌, ◌/◌, ◌==◌, ◌>>=◌, ◌∷◌,
}

-- The sign of what `strcmp` gives for two strings, the lists of their characters.
pub data Sign : Type 0 where
  below : Sign
  equal : Sign
  above : Sign

unfoldable pub strcmp : List ℕ → List ℕ → Sign
strcmp [] [] = equal
strcmp [] (d ∷ t) = below
strcmp (c ∷ s) [] = above
strcmp (c ∷ s) (d ∷ t) = if ltb c d then below else if ltb d c then above else strcmp s t

abbrev pub is_below : Sign → Bool
is_below below = true
is_below equal = false
is_below above = false

abbrev pub is_equal : Sign → Bool
is_equal below = false
is_equal equal = true
is_equal above = false

-- `debugged_files` and `nb_debugged_files`; only the first entries of the array are set.
pub record Debug : Type 0 where
  pub files : ℕ → List ℕ
  pub nb : ℕ

abbrev pub max_files_number : ℕ
max_files_number = 64

abbrev pub replaced : (ℕ → List ℕ) → ℕ → List ℕ → ℕ → List ℕ
replaced f i name j = if i == j then name else f j

-- The first loop of `add_debug_to` from `i` on, with `left` entries behind.
unfoldable pub place_of : ℕ → ℕ → List ℕ → (ℕ → List ℕ) → ℕ
place_of zero i name f = i
place_of (suc left) i name f =
    if ltb i max_files_number && is_below (strcmp (f i) name)
    then place_of left (i + 1) name f
    else i

-- The second loop, from `j = i + left` down to `i`; a place behind the array is not written.
unfoldable pub make_room : ℕ → ℕ → (ℕ → List ℕ) → Outcome (ℕ → List ℕ)
make_room zero i f = ok f
make_room (suc left) i f =
    if ltb (i + suc left) max_files_number
    then make_room left i (replaced f (i + suc left) (f (i + left)))
    else fault

-- The end of `add_debug_to`, with the place of the name.
unfoldable pub insert_at : ℕ → List ℕ → Debug → Outcome Debug
insert_at i name d = do
  f ← make_room (d.nb - i) i d.files
  ok (record { files = replaced f i name; nb = d.nb + 1 })

unfoldable pub add_debug_to : List ℕ → Debug → Outcome Debug
add_debug_to name d =
    let i = place_of d.nb 0 name d.files in
    if ltb i max_files_number then insert_at i name d else ok d

-- The loop of `__is_debugged`, for at most `fuel` rounds. The `int` variable `to` may be -1: `end`
-- stands for `to + 1`.
unfoldable pub search_loop : ℕ → ℕ → ℕ → List ℕ → (ℕ → List ℕ) → Option Bool
search_loop zero from end name f = none
search_loop (suc fuel) from end name f =
    if ltb (from + 1) end
    then (let middle = (from + (end - 1)) / 2 in
        elim (strcmp (f middle) name) [
          | below ↦ search_loop fuel (middle + 1) end name f
          | equal ↦ some true
          | above ↦ search_loop fuel from middle name f
        ])
    else some (from + 1 == end && is_equal (strcmp (f from) name))

unfoldable pub is_debugged : List ℕ → Debug → Option Bool
is_debugged name d = search_loop (d.nb + 1) 0 d.nb name d.files
