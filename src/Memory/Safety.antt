-- ===== src/Memory/Safety.antt =====
-- When the accesses of memory.c leave the array: the guard compares `address / 4` with the size
-- in bytes.
use projet_s5_prog.Common.{arith, fault, ℕ, ◌%◌, ◌+◌, ◌/◌, ◌↔◌, ◌≡◌, ◌≤◌}
use projet_s5_prog.Memory.{
  Memory, load_cell, memory_read_byte, memory_read_word, memory_write_word, store_cell,
}

module _ (mem : Memory) (address : ℕ) where
  -- A read of a word leaves the array exactly if the address is a multiple of 4, passes the guard
  -- `address / 4 <= size` and is not followed by three more bytes of the memory.
  pub memory_read_word-fault :
      (memory_read_word mem address ≡ fault)
      ↔ ((address % 4 ≡ 0) × (address / 4 ≤ mem.size) × (mem.size ≤ address + 3))
  unfolding memory_read_word load_cell
  memory_read_word-fault = ground arith

  pub memory_write_word-fault :
      (value : ℕ)
      → (memory_write_word mem address value ≡ fault)
        ↔ ((address % 4 ≡ 0) × (address / 4 ≤ mem.size) × (mem.size ≤ address + 3))
  unfolding memory_write_word store_cell
  memory_write_word-fault value = ground arith

  pub memory_read_byte-fault :
      (memory_read_byte mem address ≡ fault) ↔ ((address / 4 ≤ mem.size) × (mem.size ≤ address))
  unfolding memory_read_byte load_cell
  memory_read_byte-fault = ground arith
