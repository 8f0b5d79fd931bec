-- ===== src/Gdb/Access/Bytes.antt =====
-- The commands on the memory: what is written is read back, and what the answer has room for.
use mathlib.Core.List.{append-nil, append_assoc}
use native.Mathlib.Decide.{ℕ_discrete}
use projet_s5_prog.Common.{
  Bool, Bool-cases, List, [], add32, ap, arith, bit_xor, false, if◌then◌else◌, inl, inr, ltb, ok,
  refl, some, sym, true, u8, ℕ, ◌*◌, ◌++◌, ◌+◌, ◌/◌, ◌<◌, ◌==◌, ◌^◌, ◌||◌, ◌∙◌, ◌∷◌, ◌≡◌, ◌≤◌,
}
use projet_s5_prog.Common.Ensures.{bind-ok}
use projet_s5_prog.Text.{after_char, bytes, length, print_02x}
use projet_s5_prog.Memory.{
  Memory, load_cell, memory_get_size, memory_read_byte, memory_write_byte, store_cell, update,
}
use projet_s5_prog.Gdb.Access.{
  memory_text, put_byte, read_memory, scan_pair, take_byte, write_bytes, write_memory_binary,
}
use projet_s5_prog.Gdb.{
  Gdb, checksum, framed, gdb_send_data, gdb_transmit_packet, max_packet_size, rio_writen,
}
use projet_s5_prog.Text.Lists.{length-append}
use projet_s5_prog.Gdb.Sent.{gdb_send_buffer-fits, sent}

-- The characters that stand for something else in a packet, and how a byte is sent.
abbrev pub special : ℕ → Bool
special c = c == 0x7d || c == b'#' || c == b'$' || c == b'*'

abbrev pub escaped : List ℕ → List ℕ
escaped [] = []
escaped (c ∷ s) = if special c then 0x7d ∷ bit_xor c 0x20 ∷ escaped s else c ∷ escaped s

special-xor : (c : ℕ) → special c ≡ true → bit_xor (bit_xor c 0x20) 0x20 ≡ c
special-xor c h = elim (ℕ_discrete c 0x7d) [
  | yes e ↦ rw e refl
  | no n0 ↦ elim (ℕ_discrete c b'#') [
    | yes e ↦ rw e refl
    | no n1 ↦ elim (ℕ_discrete c b'$') [
      | yes e ↦ rw e refl
      | no n2 ↦ elim (ℕ_discrete c b'*') [ yes e ↦ rw e refl | no n3 ↦ absurd (ground arith) ]
    ]
  ]
]

take_byte-escaped :
    (c : ℕ) (s rest : List ℕ) → take_byte (escaped (c ∷ s) ++ rest) ≡ ok (c, escaped s ++ rest)
unfolding take_byte
take_byte-escaped c s rest = elim (Bool-cases (special c)) [
  | inl e ↦ rw e (ap (λ d. ok (d, escaped s ++ rest)) (special-xor c e))
  | inr e ↦ let plain : (c == 0x7d) ≡ false = ground arith in rw e (rw plain refl)
]

-- Bytes, the cells after they were stored, and cells that hold them.
abbrev pub AreBytes : List ℕ → Type 0
AreBytes [] = Unit
AreBytes (c ∷ s) = (c < 256) × AreBytes s

abbrev cells_after : ℕ → List ℕ → (ℕ → ℕ) → ℕ → ℕ
cells_after a [] f = f
cells_after a (c ∷ s) f = cells_after (a + 1) s (update f a c)

abbrev HoldAt : (ℕ → ℕ) → ℕ → List ℕ → Type 0
HoldAt f a [] = Unit
HoldAt f a (c ∷ s) = (f a ≡ c) × HoldAt f (a + 1) s

cells_after-below : (a j : ℕ) (s : List ℕ) (f : ℕ → ℕ) → j < a → cells_after a s f j ≡ f j
cells_after-below a j [] f h = refl
cells_after-below a j (c ∷ s) f h =
    cells_after-below (a + 1) j s (update f a c) (omega arith) ∙ ground arith

cells_after-HoldAt : (a : ℕ) (s : List ℕ) (f : ℕ → ℕ) → HoldAt (cells_after a s f) a s
cells_after-HoldAt a [] f = tt
cells_after-HoldAt a (c ∷ s) f = (
  cells_after-below (a + 1) a s (update f a c) (omega arith) ∙ ground arith,
  cells_after-HoldAt (a + 1) s (update f a c),
)

memory_write_byte-inside :
    (mem : Memory) (a c : ℕ)
    → a < mem.size
    → c < 256
    → memory_write_byte mem a (u8 c) ≡ ok (some (record mem { adresses = update mem.adresses a c }))
unfolding memory_write_byte store_cell
memory_write_byte-inside mem a c h b =
    let value : u8 (u8 c) ≡ c = omega arith in
    let near : ltb mem.size (a / 4) ≡ false = ground arith in
    let inside : ltb a mem.size ≡ true = ground arith in rw (near, inside, value) refl

memory_read_byte-inside :
    (mem : Memory) (a c : ℕ)
    → mem.adresses a ≡ c
    → a < mem.size
    → memory_read_byte mem a ≡ ok (some c)
unfolding memory_read_byte load_cell
memory_read_byte-inside mem a c e h =
    let near : ltb mem.size (a / 4) ≡ false = ground arith in
    let inside : ltb a mem.size ≡ true = ground arith in rw (near, inside, e) refl

put_byte-room :
    (text : List ℕ) (c : ℕ) → length text < 1021 → put_byte text c ≡ ok (text ++ print_02x c)
unfolding put_byte
put_byte-room text c h =
    let room : ltb (length text + 3) max_packet_size ≡ true = ground arith in rw room refl

write_bytes-escaped :
    (bs rest : List ℕ) (a : ℕ) (mem : Memory)
    → AreBytes bs
    → a + length bs ≤ mem.size
    → mem.size < 2 ^ 32
    → write_bytes (length bs) a (escaped bs ++ rest) mem
      ≡ ok (true, record mem { adresses = cells_after a bs mem.adresses })
unfolding write_bytes
write_bytes-escaped [] rest a mem b h small = refl
write_bytes-escaped (c ∷ s) rest a mem b h small =
    let next : add32 a 1 ≡ a + 1 = omega arith in
    bind-ok _ (take_byte-escaped c s rest)
    ∙ bind-ok _ (memory_write_byte-inside mem a c (omega arith) b.0)
    ∙ rw next (
        write_bytes-escaped s rest (a + 1) (record mem { adresses = update mem.adresses a c }) b.1
          (omega arith) small)

-- The bytes in hexadecimal.
abbrev pub hex_bytes : List ℕ → List ℕ
hex_bytes [] = []
hex_bytes (c ∷ s) = print_02x c ++ hex_bytes s

-- The loop that reads, where the cells hold `bs`.
memory_text-HoldAt :
    (bs text : List ℕ) (a : ℕ) (mem : Memory)
    → AreBytes bs
    → HoldAt mem.adresses a bs
    → a + length bs ≤ mem.size
    → mem.size < 2 ^ 32
    → length text + 2 * length bs < 1022
    → memory_text (length bs) a text mem ≡ ok (text ++ hex_bytes bs)
unfolding memory_text
memory_text-HoldAt [] text a mem b hold h small room = ap ok (sym (append-nil text))
memory_text-HoldAt (c ∷ s) text a mem b hold h small room =
    let next : add32 a 1 ≡ a + 1 = omega arith in
    bind-ok _ (memory_read_byte-inside mem a c hold.0 (omega arith))
    ∙ bind-ok _ (put_byte-room text c (omega arith))
    ∙ rw next (
        memory_text-HoldAt s (text ++ print_02x c) (a + 1) mem b.1 hold.1 (omega arith) small
          (omega (arith, length-append text (print_02x c)))
        ∙ ap ok (append_assoc text (print_02x c) (hex_bytes s)))

length-hex_bytes : (bs : List ℕ) → length (hex_bytes bs) ≡ 2 * length bs
length-hex_bytes [] = omega arith
length-hex_bytes (c ∷ s) = omega (arith, length-hex_bytes s)

-- The command to write bytes, whose content is escaped as the protocol asks, and then the command
-- to read as many from the same address succeed. The packet OK and then the packet with the bytes
-- in hexadecimal are written to the connection, and nothing else. The bytes lie inside the memory,
-- there is at least one and at most 509 of them, and both commands name the address and the
-- number; `rest` is what lies behind the content.
pub read_memory-write_memory_binary :
    (g : Gdb) (a : ℕ) (bs rest write_data read_data : List ℕ)
    → AreBytes bs
    → 0 < length bs
    → length bs ≤ 509
    → a + length bs ≤ g.arm.mem.size
    → g.arm.mem.size < 2 ^ 32
    → scan_pair write_data ≡ ok (a, length bs)
    → after_char b':' write_data ≡ some (escaped bs ++ rest)
    → scan_pair read_data ≡ ok (a, length bs)
    → (g1 g2 : Gdb) × (write_memory_binary write_data g ≡ ok g1)
      × (read_memory read_data g1 ≡ ok g2)
      × (g2.calls
          ≡ rio_writen (framed (hex_bytes bs) (checksum (hex_bytes bs) 0))
            ∷ rio_writen (framed (bytes "OK") (checksum (bytes "OK") 0))
            ∷ g.calls)
unfolding write_memory_binary read_memory memory_get_size gdb_send_data
read_memory-write_memory_binary g a bs rest wd rd b some_byte few h small ws content rs =
    let mem' = record g.arm.mem { adresses = cells_after a bs g.arm.mem.adresses } in
    let g0 = record g { arm = record g.arm { mem = mem' } } in
    let inside : ltb a g.arm.mem.size ≡ true = ground arith in
    (
      sent (bytes "OK") g0,
      sent (hex_bytes bs) (sent (bytes "OK") g0),
      bind-ok _ ws
          ∙ rw (inside, content)
              (bind-ok _ (write_bytes-escaped bs rest a g.arm.mem b h small)
                ∙ gdb_send_buffer-fits (bytes "OK") g0 (omega arith)),
      bind-ok _ rs
          ∙ bind-ok _ (
              memory_text-HoldAt bs [] a mem' b (cells_after-HoldAt a bs g.arm.mem.adresses) h small
                (omega arith))
          ∙ gdb_send_buffer-fits (hex_bytes bs) (sent (bytes "OK") g0)
              (omega (arith, length-hex_bytes bs)),
      (unfold gdb_transmit_packet in refl),
    )
