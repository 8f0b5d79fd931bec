-- ===== src/Debug/Full.antt =====
-- The table of debug.c with all its entries in use.
use native.Mathlib.Decide.{ℕ_discrete}
use projet_s5_prog.Common.{
  List, ap, arith, false, fault, ltb, ok, suc, true, zero, ℕ, ◌+◌, ◌-◌, ◌<◌, ◌>>=◌, ◌≡◌, ◌≤◌,
}
use projet_s5_prog.Debug.{
  Debug, add_debug_to, insert_at, is_below, make_room, max_files_number, place_of, replaced, strcmp,
}

place_of-at_most :
    (left i k : ℕ) (name : List ℕ) (f : ℕ → List ℕ)
    → i ≤ k
    → k < i + left
    → is_below (strcmp (f k) name) ≡ false
    → place_of left i name f ≤ k
unfolding place_of
place_of-at_most zero i k name f a b e = absurd (omega arith)
place_of-at_most (suc left) i k name f a b e = elim (ℕ_discrete i k) [
  | yes same ↦ let here : is_below (strcmp (f i) name) ≡ false = rw same e in ground (arith, here)
  | no other ↦
      let r = place_of-at_most left (i + 1) k name f (omega arith) (omega arith) e in
      ground (arith, r)
]

make_room-fault :
    (left i : ℕ) (f : ℕ → List ℕ)
    → i + left ≡ max_files_number
    → i < max_files_number
    → make_room left i f ≡ fault
unfolding make_room
make_room-fault zero i f h c = absurd (omega arith)
make_room-fault (suc left) i f h c = ground arith

-- In a full table, one of 64 entries, a name that does not come behind all the others makes the
-- code write behind the end of the array.
pub add_debug_to-full :
    (name : List ℕ) (d : Debug) (k : ℕ)
    → d.nb ≡ 64
    → k < 64
    → is_below (strcmp (d.files k) name) ≡ false
    → add_debug_to name d ≡ fault
unfolding add_debug_to insert_at
add_debug_to-full name d k full h e =
    let i = place_of d.nb 0 name d.files in
    let low : i ≤ k = place_of-at_most d.nb 0 k name d.files (omega arith) (omega arith) e in
    let room : ltb i max_files_number ≡ true = ground (arith, low, h) in
    rw room (
      ap (λ o. o >>= λ f. ok (record { files = replaced f i name; nb = d.nb + 1 }))
        (make_room-fault (d.nb - i) i d.files (omega (arith, low, h, full))
          (omega (arith, low, h))))
