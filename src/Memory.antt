-- ===== src/Memory.antt =====
-- memory.c: a byte array with the endianness of its words. `none` is the result -1, and `some`
-- the result 0 with the value read or the memory after the write.
pub mod Access
pub mod Safety
use projet_s5_prog.Common.{
  ℕ, ◌+◌, ◌*◌, ◌/◌, ◌%◌, ◌^◌, u8, u16, u32, ltb, ◌==◌, if◌then◌else◌, Bool, true, false, ◌||◌,
  Option, none, some, Outcome, ok, fault, ◌>>=◌,
}
use projet_s5_prog.Util.{reverse_2, reverse_4}

-- `adresses` points to `size` bytes; `load_cell` and `store_cell` guard each use of the pointer.
pub record Memory : Type 0 where
  pub is_big_endian : Bool
  pub adresses : ℕ → ℕ
  pub size : ℕ

abbrev pub update : (ℕ → ℕ) → ℕ → ℕ → ℕ → ℕ
update f i v j = if i == j then v else f j

unfoldable pub load_cell : Memory → ℕ → Outcome ℕ
load_cell mem i = if ltb i mem.size then ok (mem.adresses i) else fault

unfoldable pub store_cell : Memory → ℕ → ℕ → Outcome Memory
store_cell mem i v =
    if ltb i mem.size then ok (record mem { adresses = update mem.adresses i (u8 v) }) else fault

-- What `malloc` gives: the block of `struct memory_data` or not, then the bytes or not.
pub data Created : Type 0 where
  null : Created
  created : Memory → Created
  -- the block was freed and is returned all the same
  dangling : Created

unfoldable pub memory_create : Bool → Option (ℕ → ℕ) → ℕ → Bool → Created
memory_create false bytes size is_big_endian = null
memory_create true none size is_big_endian = dangling
memory_create true (some bytes) size is_big_endian =
    created (record { is_big_endian = is_big_endian; adresses = bytes; size = size })

unfoldable pub memory_get_size : Memory → ℕ
memory_get_size mem = mem.size

unfoldable pub memory_read_byte : Memory → ℕ → Outcome (Option ℕ)
memory_read_byte mem address =
    if ltb mem.size (address / 4)
    then ok none
    else do value ← load_cell mem address; ok (some value)

-- An accepted address is not 3 modulo 4, so `address + 1` does not wrap.
unfoldable pub memory_read_half : Memory → ℕ → Outcome (Option ℕ)
memory_read_half mem address =
    if ltb mem.size (address / 4) || ltb 2 (address % 4) then ok none else do
      high ← load_cell mem address
      low ← load_cell mem (address + 1)
      let value = u16 (high * 2 ^ 8 + low)
      ok (some (if mem.is_big_endian then value else u16 (reverse_2 value)))

unfoldable pub memory_read_word : Memory → ℕ → Outcome (Option ℕ)
memory_read_word mem address =
    if ltb mem.size (address / 4) || ltb 0 (address % 4) then ok none else do
      b3 ← load_cell mem address
      b2 ← load_cell mem (address + 1)
      b1 ← load_cell mem (address + 2)
      b0 ← load_cell mem (address + 3)
      let value = u32 (b3 * 2 ^ 24 + b2 * 2 ^ 16 + b1 * 2 ^ 8 + b0)
      ok (some (if mem.is_big_endian then value else u32 (reverse_4 value)))

unfoldable pub memory_write_byte : Memory → ℕ → ℕ → Outcome (Option Memory)
memory_write_byte mem address value =
    if ltb mem.size (address / 4)
    then ok none
    else do mem' ← store_cell mem address value; ok (some mem')

unfoldable pub memory_write_half : Memory → ℕ → ℕ → Outcome (Option Memory)
memory_write_half mem address value =
    if ltb mem.size (address / 4) || ltb 2 (address % 4) then ok none else do
      let value' = if mem.is_big_endian then u16 (reverse_2 value) else value
      m1 ← store_cell mem (address + 1) (value' / 2 ^ 8)
      m2 ← store_cell m1 address value'
      ok (some m2)

unfoldable pub memory_write_word : Memory → ℕ → ℕ → Outcome (Option Memory)
memory_write_word mem address value =
    if ltb mem.size (address / 4) || ltb 0 (address % 4) then ok none else do
      let value' = if mem.is_big_endian then u32 (reverse_4 value) else value
      m1 ← store_cell mem address value'
      m2 ← store_cell m1 (address + 1) (value' / 2 ^ 8)
      m3 ← store_cell m2 (address + 2) (value' / 2 ^ 16)
      m4 ← store_cell m3 (address + 3) (value' / 2 ^ 24)
      ok (some m4)
