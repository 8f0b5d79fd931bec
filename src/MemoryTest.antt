-- ===== src/MemoryTest.antt =====
-- memory_test.c: the program that tests the accesses to memories of both byte orders.
pub mod Succeeds
pub mod Objects
use projet_s5_prog.Common.{
  Bool, List, Option, Outcome, [], exit_program, false, fault, if◌then◌else◌, none, ok, some, suc,
  true, u8, zero, ℕ, ◌&&◌, ◌*◌, ◌++◌, ◌+◌, ◌-◌, ◌/◌, ◌==◌, ◌>>=◌, ◌^◌, ◌∷◌,
}
use projet_s5_prog.Memory.{
  Created, Memory, created, dangling, memory_read_byte, memory_read_half, memory_read_word,
  memory_write_byte, memory_write_half, memory_write_word, null,
}

-- The address of the byte compared in round `i` of the loops of `compare` and
-- `compare_with_sim`, over `size` bytes.
abbrev pub step_to : Bool → ℕ → ℕ → ℕ
step_to reverse size i = if reverse then size - 1 - i else i

-- A byte of an integer of `size` bytes that stands in the memory of the host.
abbrev pub object_byte : Bool → ℕ → ℕ → ℕ → ℕ
object_byte host size value i = u8 (value / 2 ^ (8 * (if host then size - 1 - i else i)))

-- `compare` from round `i` on, with `left` rounds to go, on two objects given by their bytes.
unfoldable pub compare_from : (ℕ → ℕ) → (ℕ → ℕ) → ℕ → Bool → ℕ → ℕ → Bool
compare_from a b size reverse zero i = true
compare_from a b size reverse (suc left) i =
    a i == b (step_to reverse size i) && compare_from a b size reverse left (i + 1)

unfoldable pub compare_objects : (ℕ → ℕ) → (ℕ → ℕ) → ℕ → Bool → Bool
unfolding compare_from
compare_objects a b size reverse = compare_from a b size reverse size 0

-- A variable after a read that is given its address: what it held stays where the read fails.
abbrev pub latest : Option ℕ → Option ℕ → Outcome ℕ
latest old (some v) = ok v
latest none none = fault
latest (some v) none = ok v

-- The same against the memory `m`; `value` is the variable of this name.
unfoldable pub compare_with_sim_from : (ℕ → ℕ) → Memory → ℕ → Bool → ℕ → ℕ → Option ℕ → Outcome Bool
compare_with_sim_from a m size reverse zero i value = ok true
compare_with_sim_from a m size reverse (suc left) i value = do
  r ← memory_read_byte m (step_to reverse size i)
  v ← latest value r
  if a i == v then compare_with_sim_from a m size reverse left (i + 1) (some v) else ok false

unfoldable pub compare_with_sim : (ℕ → ℕ) → Memory → ℕ → Bool → Outcome Bool
unfolding compare_with_sim_from
compare_with_sim a m size reverse = compare_with_sim_from a m size reverse size 0 none

-- The memory after a write whose result is not looked at.
abbrev pub after_write : Memory → Option Memory → Memory
after_write m none = m
after_write m (some m') = m'

-- The loop that writes the bytes of an object into one memory.
unfoldable pub write_object : (ℕ → ℕ) → ℕ → ℕ → Memory → Outcome Memory
write_object a zero i m = ok m
write_object a (suc left) i m = do
  r ← memory_write_byte m i (a i)
  write_object a left (i + 1) (after_write m r)

module _ (host : Bool) (word_value half_value : ℕ) where
  abbrev pub word_object : ℕ → ℕ
  word_object = object_byte host 4 word_value

  abbrev pub half_object : ℕ → ℕ
  half_object = object_byte host 2 half_value

  -- The four tests that read, on a memory of the host's byte order and on one of the other.
  unfoldable pub read_tests : Memory → Memory → Outcome (List Bool)
  unfolding compare_objects
  read_tests same different = do
    r1 ← memory_read_word same 0
    w1 ← latest none r1
    r2 ← memory_read_half same 0
    h1 ← latest none r2
    r3 ← memory_read_word different 0
    w2 ← latest (some w1) r3
    r4 ← memory_read_half different 0
    h2 ← latest (some h1) r4
    ok (
        compare_objects word_object (object_byte host 4 w1) 4 false
        ∷ compare_objects word_object (object_byte host 2 h1) 2 false
        ∷ compare_objects word_object (object_byte host 4 w2) 4 true
        ∷ compare_objects word_object (object_byte host 2 h2) 2 true
        ∷ [])

  -- The two tests that write, on one memory.
  unfoldable pub write_tests : Bool → Memory → Outcome (List Bool)
  unfolding compare_with_sim
  write_tests reverse m = do
    r1 ← memory_write_word m 0 word_value
    let m1 = after_write m r1
    t1 ← compare_with_sim word_object m1 4 reverse
    r2 ← memory_write_half m1 0 half_value
    t2 ← compare_with_sim half_object (after_write m1 r2) 2 reverse
    ok (t1 ∷ t2 ∷ [])

  -- The eight arguments of `print_test`, on `m[0]` and `m[1]`.
  unfoldable pub memory_tests : Memory → Memory → Outcome (List Bool)
  unfolding read_tests write_tests write_object
  memory_tests little big = do
    little' ← write_object word_object 4 0 little
    big' ← write_object word_object 4 0 big
    let same = if host then big' else little'
    let different = if host then little' else big'
    reads ← read_tests same different
    writes ← write_tests false same
    reversed ← write_tests true different
    ok (reads ++ (writes ++ reversed))

-- `main`, on what the two calls of `memory_create` give.
unfoldable pub test_main : Bool → Created → Created → Outcome (List Bool)
unfolding memory_tests
test_main host null little = exit_program
test_main host (created big) null = exit_program
test_main host dangling null = exit_program
test_main host (created big) (created little) = memory_tests host 0x11223344 0x5566 little big
test_main host (created big) dangling = fault
test_main host dangling (created little) = fault
test_main host dangling dangling = fault
