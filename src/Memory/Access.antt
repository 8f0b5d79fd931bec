-- ===== src/Memory/Access.antt =====
-- What the accesses of memory.c do inside the array: the order of the bytes, and that a read
-- gives back what was written.
use projet_s5_prog.Common.{
  ap, arith, if◌then◌else◌, ok, some, u16, u32, u8, ℕ, ◌%◌, ◌*◌, ◌+◌, ◌/◌, ◌<◌, ◌^◌, ◌∙◌, ◌≡◌, ◌≤◌,
  ◌⊎◌,
}
use projet_s5_prog.Util.Laws.{reverse_2-sum, reverse_4-sum}
use projet_s5_prog.Memory.{
  Memory, load_cell, memory_read_half, memory_read_word, memory_write_half, memory_write_word,
  store_cell, update,
}
use projet_s5_prog.Util.{reverse_2, reverse_4}

-- The number that four bytes make, the first the highest.
abbrev pub big_endian_word : ℕ → ℕ → ℕ → ℕ → ℕ
big_endian_word a b c d = a * 2 ^ 24 + b * 2 ^ 16 + c * 2 ^ 8 + d

-- The word at `address` in the byte order of the memory.
abbrev pub word_at : Memory → ℕ → ℕ
word_at mem address =
    let b = λ (k : ℕ). mem.adresses (address + k) in
    if mem.is_big_endian
    then big_endian_word (mem.adresses address) (b 1) (b 2) (b 3)
    else big_endian_word (b 3) (b 2) (b 1) (mem.adresses address)

module _ (mem : Memory) where
  load_cell-inside : (i : ℕ) → i < mem.size → load_cell mem i ≡ ok (mem.adresses i)
  unfolding load_cell
  load_cell-inside i h = ground arith

  store_cell-inside :
      (i v : ℕ)
      → i < mem.size
      → store_cell mem i v ≡ ok (record mem { adresses = update mem.adresses i (u8 v) })
  unfolding store_cell
  store_cell-inside i v h = ground arith

  pub memory_read_word_lem :
      (address : ℕ)
      → address % 4 ≡ 0
      → address + 3 < mem.size
      → ((j : ℕ) → mem.adresses j < 256)
      → memory_read_word mem address ≡ ok (some (word_at mem address))
  unfolding memory_read_word
  memory_read_word_lem address aligned fits bytes = ground (
    arith,
    load_cell-inside address,
    load_cell-inside (address + 1),
    load_cell-inside (address + 2),
    load_cell-inside (address + 3),
    bytes address,
    bytes (address + 1),
    bytes (address + 2),
    bytes (address + 3),
    reverse_4-sum (
        big_endian_word (mem.adresses address) (mem.adresses (address + 1))
          (mem.adresses (address + 2)) (mem.adresses (address + 3))),
  )

  -- What a byte, a half or a word stores: the bytes of the value in the order of the memory.
  abbrev pub stored_word : ℕ → ℕ
  stored_word value = if mem.is_big_endian then u32 (reverse_4 value) else value

  abbrev pub written_word : ℕ → ℕ → Memory
  written_word address value =
      let v = stored_word value in
      record mem {
        adresses =
            update
              (update (update (update mem.adresses address (u8 v)) (address + 1) (u8 (v / 2 ^ 8)))
                (address + 2) (u8 (v / 2 ^ 16)))
              (address + 3) (u8 (v / 2 ^ 24));
      }

  memory_write_word_lem :
      (address value : ℕ)
      → address % 4 ≡ 0
      → address + 3 < mem.size
      → memory_write_word mem address value ≡ ok (some (written_word address value))
  unfolding memory_write_word store_cell
  memory_write_word_lem address value aligned fits = ground arith

  word_at-written_word :
      (address value : ℕ) → value < 2 ^ 32 → word_at (written_word address value) address ≡ value
  word_at-written_word address value word = ground (arith, reverse_4-sum value)

  written_word-bytes :
      (address value : ℕ)
      → ((j : ℕ) → mem.adresses j < 256)
      → (j : ℕ) → (written_word address value).adresses j < 256
  written_word-bytes address value bytes j = ground (arith, bytes j)

-- A word written at an aligned address inside the memory is read back from there, in either
-- byte order, and every byte outside these four is as before. The memory's cells are given as
-- bytes and the value as a word.
pub memory_read_word-write_word :
    (mem : Memory) (address value j : ℕ)
    → address % 4 ≡ 0
    → address + 3 < mem.size
    → value < 2 ^ 32
    → ((i : ℕ) → mem.adresses i < 256)
    → (j < address) ⊎ (address + 4 ≤ j)
    → (mem' : Memory) × (memory_write_word mem address value ≡ ok (some mem'))
      × (memory_read_word mem' address ≡ ok (some value))
      × (mem'.adresses j ≡ mem.adresses j)
memory_read_word-write_word mem address value j aligned fits word bytes other = (
  written_word mem address value,
  memory_write_word_lem mem address value aligned fits,
  memory_read_word_lem (written_word mem address value) address aligned fits
        (written_word-bytes mem address value bytes)
      ∙ ap (λ v. ok (some v)) (word_at-written_word mem address value word),
  ground arith,
)

-- A half word written at an address inside the memory that is not 3 modulo 4 is read back from
-- there, in either byte order, and every byte outside these two is as before.
pub memory_read_half-write_half :
    (mem : Memory) (address value j : ℕ)
    → address % 4 ≤ 2
    → address + 1 < mem.size
    → value < 2 ^ 16
    → (j < address) ⊎ (address + 2 ≤ j)
    → (mem' : Memory) × (memory_write_half mem address value ≡ ok (some mem'))
      × (memory_read_half mem' address ≡ ok (some value))
      × (mem'.adresses j ≡ mem.adresses j)
unfolding memory_write_half memory_read_half store_cell load_cell
memory_read_half-write_half mem address value j aligned fits half other = (
  record mem {
    adresses =
        let v = if mem.is_big_endian then u16 (reverse_2 value) else value in
        update (update mem.adresses (address + 1) (u8 (v / 2 ^ 8))) address (u8 v);
  },
  ground arith,
  ground (
    arith,
    reverse_2-sum value,
    reverse_2-sum (value % 256 * 256 + value / 256),
    reverse_2-sum (value / 256 * 256 + value % 256),
  ),
  ground arith,
)
