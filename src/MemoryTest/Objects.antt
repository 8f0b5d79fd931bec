-- ===== src/MemoryTest/Objects.antt =====
-- The four bytes of an object in memories of both byte orders (memory_test.c), and what is read
-- of them.
use projet_s5_prog.Common.{
  Bool, ap, arith, false, if◌then◌else◌, not, ok, refl, some, true, u8, ℕ, ◌%◌, ◌*◌, ◌+◌, ◌/◌, ◌<◌,
  ◌^◌, ◌≡◌,
}
use projet_s5_prog.Memory.{
  Memory, load_cell, memory_read_half, memory_read_word, memory_write_byte, store_cell, update,
}
use projet_s5_prog.MemoryTest.{compare_objects, object_byte, write_object}
use projet_s5_prog.Util.Laws.{reverse_2-sum, reverse_4-sum}

abbrev pub memory_of : Bool → (ℕ → ℕ) → Memory
memory_of order cells = record { is_big_endian = order; adresses = cells; size = 4 }

abbrev pub object_cells : (ℕ → ℕ) → (ℕ → ℕ) → ℕ → ℕ
object_cells a cells =
    update (update (update (update cells 0 (u8 (a 0))) 1 (u8 (a 1))) 2 (u8 (a 2))) 3 (u8 (a 3))

pub write_object-object_cells :
    (order : Bool) (a cells : ℕ → ℕ)
    → write_object a 4 0 (memory_of order cells) ≡ ok (memory_of order (object_cells a cells))
unfolding write_object memory_write_byte store_cell
write_object-object_cells order a cells = refl

-- The words and halves that are read: the value, or the value with its bytes reversed.
abbrev pub swapped : ℕ → ℕ
swapped word =
    word % 256 * 2 ^ 24 + word / 2 ^ 8 % 256 * 2 ^ 16 + word / 2 ^ 16 % 256 * 2 ^ 8 + word / 2 ^ 24

abbrev pub read_value : Bool → ℕ → ℕ
read_value true word = word
read_value false word = swapped word

-- The half word at the first address of an object of four bytes.
abbrev pub first_half : Bool → Bool → ℕ → ℕ
first_half true true word = word / 2 ^ 16
first_half true false word = word / 2 ^ 16 % 256 * 2 ^ 8 + word / 2 ^ 24
first_half false true word = word % 2 ^ 16
first_half false false word = word % 256 * 2 ^ 8 + word / 2 ^ 8 % 256

-- The order of the memory that the host's bytes are read in.
abbrev pub order_of : Bool → Bool → Bool
order_of host same = if same then host else not host

module _ (word : ℕ) (fits : word < 2 ^ 32) (cells : ℕ → ℕ) where
  abbrev pub object_in : Bool → Bool → Memory
  object_in host same =
      memory_of (order_of host same) (object_cells (object_byte host 4 word) cells)

  pub memory_read_word-object :
      (host same : Bool)
      → memory_read_word (object_in host same) 0 ≡ ok (some (read_value same word))
  unfolding memory_read_word load_cell
  memory_read_word-object true true = ap (λ v. ok (some v)) (omega arith)
  memory_read_word-object true false = ap (λ v. ok (some v)) (omega (arith, reverse_4-sum))
  memory_read_word-object false true = ap (λ v. ok (some v)) (omega (arith, reverse_4-sum))
  memory_read_word-object false false = ap (λ v. ok (some v)) (omega arith)

  pub memory_read_half-object :
      (host same : Bool)
      → memory_read_half (object_in host same) 0 ≡ ok (some (first_half host same word))
  unfolding memory_read_half load_cell
  memory_read_half-object true true = ap (λ v. ok (some v)) (omega arith)
  memory_read_half-object true false = ap (λ v. ok (some v)) (omega (arith, reverse_2-sum))
  memory_read_half-object false true = ap (λ v. ok (some v)) (omega (arith, reverse_2-sum))
  memory_read_half-object false false = ap (λ v. ok (some v)) (omega arith)

  pub compared_words :
      (host same : Bool)
      → compare_objects
          (object_byte host 4 word)
          (object_byte host 4 (read_value same word))
          4
          (not same)
        ≡ true
  unfolding compare_objects
  compared_words true true = ground arith
  compared_words true false = ground arith
  compared_words false true = ground arith
  compared_words false false = ground arith

  pub compared_halves :
      (host same : Bool)
      → compare_objects
          (object_byte host 4 word)
          (object_byte host 2 (first_half host same word))
          2
          (not same)
        ≡ true
  unfolding compare_objects
  compared_halves true true = ground arith
  compared_halves true false = ground arith
  compared_halves false true = ground arith
  compared_halves false false = ground arith
