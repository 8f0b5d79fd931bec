-- ===== src/MemoryTest/Succeeds.antt =====
-- The program of memory_test.c reports no failure.
use projet_s5_prog.Common.{
  Bool, [], arith, false, if◌then◌else◌, not, ok, refl, some, true, u16, u32, u8, ℕ, ◌/◌, ◌<◌, ◌^◌,
  ◌∙◌, ◌∷◌, ◌≡◌,
}
use projet_s5_prog.Memory.{
  load_cell, memory_read_byte, memory_write_half, memory_write_word, store_cell, update,
}
use projet_s5_prog.MemoryTest.{compare_with_sim, memory_tests, object_byte, read_tests, write_tests}
use projet_s5_prog.Util.Laws.{reverse_2-sum, reverse_4-sum}
use projet_s5_prog.Util.{reverse_2, reverse_4}
use projet_s5_prog.Common.Ensures.{bind-ok}
use projet_s5_prog.MemoryTest.Objects.{
  compared_halves, compared_words, memory_of, memory_read_half-object, memory_read_word-object,
  object_in, order_of, write_object-object_cells, object_cells,
}

-- The cells after a write of a word or a half at 0, of the value in the order of the memory.
abbrev word_cells : (ℕ → ℕ) → ℕ → ℕ → ℕ
word_cells cells v =
    update (update (update (update cells 0 (u8 v)) 1 (u8 (v / 2 ^ 8))) 2 (u8 (v / 2 ^ 16))) 3
      (u8 (v / 2 ^ 24))

abbrev word_stored : Bool → ℕ → ℕ
word_stored order word = if order then u32 (reverse_4 word) else word

abbrev half_cells : (ℕ → ℕ) → ℕ → ℕ → ℕ
half_cells cells v = update (update cells 1 (u8 (v / 2 ^ 8))) 0 (u8 v)

abbrev half_stored : Bool → ℕ → ℕ
half_stored order half = if order then u16 (reverse_2 half) else half

module _ (cells : ℕ → ℕ) where
  memory_write_word-cells :
      (order : Bool) (word : ℕ)
      → memory_write_word (memory_of order cells) 0 word
        ≡ ok (some (memory_of order (word_cells cells (word_stored order word))))
  unfolding memory_write_word store_cell
  memory_write_word-cells order word = refl

  word_compared :
      (host same : Bool) (word : ℕ)
      → word < 2 ^ 32
      → compare_with_sim
          (object_byte host 4 word)
          (memory_of
            (order_of host same)
            (word_cells cells (word_stored (order_of host same) word)))
          4
          (not same)
        ≡ ok true
  unfolding compare_with_sim memory_read_byte load_cell
  word_compared true true word h = ground (arith, reverse_4-sum word)
  word_compared true false word h = ground (arith, reverse_4-sum word)
  word_compared false true word h = ground (arith, reverse_4-sum word)
  word_compared false false word h = ground (arith, reverse_4-sum word)

  memory_write_half-cells :
      (order : Bool) (half : ℕ)
      → memory_write_half (memory_of order cells) 0 half
        ≡ ok (some (memory_of order (half_cells cells (half_stored order half))))
  unfolding memory_write_half store_cell
  memory_write_half-cells order half = refl

  half_compared :
      (host same : Bool) (half : ℕ)
      → half < 2 ^ 16
      → compare_with_sim
          (object_byte host 2 half)
          (memory_of
            (order_of host same)
            (half_cells cells (half_stored (order_of host same) half)))
          2
          (not same)
        ≡ ok true
  unfolding compare_with_sim memory_read_byte load_cell
  half_compared true true half h = ground (arith, reverse_2-sum half)
  half_compared true false half h = ground (arith, reverse_2-sum half)
  half_compared false true half h = ground (arith, reverse_2-sum half)
  half_compared false false half h = ground (arith, reverse_2-sum half)

module _ (host : Bool) (word half : ℕ) (fits : word < 2 ^ 32) (half_fits : half < 2 ^ 16) where
  write_tests-succeed :
      (same : Bool) (cells : ℕ → ℕ)
      → write_tests host word half (not same) (memory_of (order_of host same) cells)
        ≡ ok (true ∷ true ∷ [])
  unfolding write_tests
  write_tests-succeed same cells =
      let o = order_of host same in
      let c1 = word_cells cells (word_stored o word) in
      bind-ok _ (memory_write_word-cells cells o word)
      ∙ bind-ok _ (word_compared cells host same word fits)
      ∙ bind-ok _ (memory_write_half-cells c1 o half)
      ∙ bind-ok _ (half_compared c1 host same half half_fits)

  read_tests-succeed :
      (cells others : ℕ → ℕ)
      → read_tests host word half
          (object_in word fits cells host true)
          (object_in word fits others host false)
        ≡ ok (true ∷ true ∷ true ∷ true ∷ [])
  unfolding read_tests
  read_tests-succeed cells others =
      bind-ok _ (memory_read_word-object word fits cells host true)
      ∙ bind-ok _ (memory_read_half-object word fits cells host true)
      ∙ bind-ok _ (memory_read_word-object word fits others host false)
      ∙ bind-ok _ (memory_read_half-object word fits others host false)
      ∙ cc (
        compared_words word fits cells host true,
        compared_halves word fits cells host true,
        compared_words word fits others host false,
        compared_halves word fits others host false,
      )

-- On memories of 4 bytes with any contents, all eight tests succeed, for each byte order of the
-- host, each word and each half word.
pub memory_tests-succeed :
    (host : Bool) (word half : ℕ) (cells others : ℕ → ℕ)
    → word < 2 ^ 32
    → half < 2 ^ 16
    → memory_tests host word half (memory_of false cells) (memory_of true others)
      ≡ ok (true ∷ true ∷ true ∷ true ∷ true ∷ true ∷ true ∷ true ∷ [])
unfolding memory_tests
memory_tests-succeed true word half cells others h k =
    let object = object_byte true 4 word in
    bind-ok _ (write_object-object_cells false object cells)
    ∙ bind-ok _ (write_object-object_cells true object others)
    ∙ bind-ok _ (read_tests-succeed true word half h k others cells)
    ∙ bind-ok _ (write_tests-succeed true word half h k true (object_cells object others))
    ∙ bind-ok _ (write_tests-succeed true word half h k false (object_cells object cells))
memory_tests-succeed false word half cells others h k =
    let object = object_byte false 4 word in
    bind-ok _ (write_object-object_cells false object cells)
    ∙ bind-ok _ (write_object-object_cells true object others)
    ∙ bind-ok _ (read_tests-succeed false word half h k cells others)
    ∙ bind-ok _ (write_tests-succeed false word half h k true (object_cells object cells))
    ∙ bind-ok _ (write_tests-succeed false word half h k false (object_cells object others))
