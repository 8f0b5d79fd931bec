-- ===== src/Gdb/Access/Kept.antt =====
-- What the commands on registers and memory keep: the shape of the memory and the widths.
use mathlib.Core.Option
use projet_s5_prog.Common.{
  Bool, List, Option, Outcome, [], add32, arith, assertion, exit_program, false, fault,
  if◌then◌else◌, ltb, none, ok, refl, some, suc, u8, zero, ℕ, ◌+◌, ◌<◌, ◌^◌, ◌∙◌, ◌≡◌,
}
use projet_s5_prog.Common.Ensures.{
  Ensures, asserts, bind-Ensures, exits, faults, if-Ensures, returns, some_result, weaken-Ensures,
}
use projet_s5_prog.Memory.{Memory, memory_get_size, memory_write_byte, store_cell}
use projet_s5_prog.Registers.{write_cpsr}
use projet_s5_prog.Core.{ArmCore, arm_write_cpsr}
use projet_s5_prog.Core.Keeps.{IsWords, Keeps, arm_write_register-Keeps}
use projet_s5_prog.Gdb.{Gdb, gdb_send_buffer, gdb_send_data}
use projet_s5_prog.Gdb.Sent.{arm-gdb_send_buffer, arm-gdb_send_data}
use projet_s5_prog.Gdb.Hex.{integer_of, read_byte, read_uint32}
use projet_s5_prog.Text.{Scan, after_char, atoi, bytes, c_string, drop, found, missing, overflow}
use projet_s5_prog.Gdb.Access.{
  memory_text, read_general_registers, read_memory, read_register, scan_pair, skip_words, take_byte,
  write_bytes, write_general_registers, write_memory_binary, write_register, write_registers,
  write_scanned, write_value,
}

-- From `p` to `q` the memory keeps its size and order, and all values their width.
pub record SameShape (p q : ArmCore) : Type 0 where
  pub size : q.mem.size ≡ p.mem.size
  pub order : q.mem.is_big_endian ≡ p.mem.is_big_endian
  pub words : IsWords q

pub Keeps-SameShape : {p q : ArmCore} → Keeps p q → SameShape p q
Keeps-SameShape k = record { size = k.size; order = k.order; words = k.words }

pub SameShape-trans : {p q s : ArmCore} → SameShape p q → SameShape q s → SameShape p s
SameShape-trans h k = record { size = k.size ∙ h.size; order = k.order ∙ h.order; words = k.words }

-- A run of the connection that keeps the shape.
abbrev pub KeepsShape : Gdb → Outcome Gdb → Type 0
KeepsShape g o = Ensures (λ (g' : Gdb). SameShape g.arm g'.arm) o

-- A packet that is sent from a state of the same shape.
pub send-KeepsShape :
    (g : Gdb) (text : List ℕ) (h : Gdb)
    → SameShape g.arm h.arm
    → KeepsShape g (gdb_send_buffer text h)
send-KeepsShape g text h k = weaken-Ensures (arm-gdb_send_buffer text h) λ g' e. rw e k

pub data-KeepsShape :
    (g : Gdb) (text : List ℕ) (h : Gdb)
    → SameShape g.arm h.arm
    → KeepsShape g (gdb_send_data text h)
data-KeepsShape g text h k = weaken-Ensures (arm-gdb_send_data text h) λ g' e. rw e k

-- The memory after a run of writes: its size, its order, and that its cells are bytes.
abbrev pub SameMemory : Memory → Memory → Type 0
SameMemory m m' =
    (m'.size ≡ m.size) × (m'.is_big_endian ≡ m.is_big_endian) × ((j : ℕ) → m'.adresses j < 256)

abbrev pub Written : Memory → Option Memory → Type 0
Written m none = Unit
Written m (some m') = SameMemory m m'

store_cell-SameMemory :
    (m : Memory) (address value : ℕ)
    → ((j : ℕ) → m.adresses j < 256)
    → value < 256
    → Ensures (SameMemory m) (store_cell m address value)
unfolding store_cell
store_cell-SameMemory m address value w h =
    if-Ensures _ _ _ (returns (refl, refl, λ j. ground (arith, w j))) faults

pub memory_write_byte-SameMemory :
    (m : Memory) (address value : ℕ)
    → ((j : ℕ) → m.adresses j < 256)
    → value < 256
    → Ensures (Written m) (memory_write_byte m address value)
unfolding memory_write_byte
memory_write_byte-SameMemory m address value w h =
    if-Ensures _ _ _ (returns tt)
      (bind-Ensures (store_cell-SameMemory m address value w h) λ m' k. returns k)

pub SameShape-refl : {p : ArmCore} → IsWords p → SameShape p p
SameShape-refl w = record { size = refl; order = refl; words = w }

SameMemory-trans : (a b c : Memory) → SameMemory a b → SameMemory b c → SameMemory a c
SameMemory-trans a b c h k = (k.0 ∙ h.0, k.1 ∙ h.1, k.2)

write_bytes-SameMemory :
    (size address : ℕ) (content : List ℕ) (m : Memory)
    → ((j : ℕ) → m.adresses j < 256)
    → Ensures (λ (r : Bool × Memory). SameMemory m r.1) (write_bytes size address content m)
unfolding write_bytes
write_bytes-SameMemory zero address content m w = returns (refl, refl, w)
write_bytes-SameMemory (suc size) address content m w =
    bind-Ensures (some_result (take_byte content)) λ b u.
      bind-Ensures (memory_write_byte-SameMemory m address (u8 b.0) w (omega arith))
        λ o k. next o k λ m'. write_bytes-SameMemory size (add32 address 1) b.1 m'
  where
    next :
        {f : Memory → Outcome (Bool × Memory)} (o : Option Memory)
        → Written m o
        → ((m' : Memory)
            → ((j : ℕ) → m'.adresses j < 256)
            → Ensures (λ (r : Bool × Memory). SameMemory m' r.1) (f m'))
        → Ensures
            (λ (r : Bool × Memory). SameMemory m r.1)
            (elim o [ none ↦ ok (false, m) | some m' ↦ f m' ])
    next none k g = returns (refl, refl, w)
    next (some m') k g = weaken-Ensures (g m' k.2) λ r h. SameMemory-trans m m' r.1 k h

module _ (g : Gdb) (w : IsWords g.arm) where
  pub read_memory-KeepsShape : (data_ : List ℕ) → KeepsShape g (read_memory data_ g)
  unfolding read_memory
  read_memory-KeepsShape data_ = bind-Ensures (some_result (scan_pair data_)) λ r u.
      bind-Ensures (some_result (memory_text r.1 r.0 [] g.arm.mem))
        λ text v. send-KeepsShape g text g (SameShape-refl w)

  written-KeepsShape :
      (done : Bool × Memory)
      → SameMemory g.arm.mem done.1
      → KeepsShape g (
          gdb_send_data
            (if done.0 then bytes "OK" else bytes "E02")
            (record g { arm = record g.arm { mem = done.1 } }))
  written-KeepsShape done k = data-KeepsShape g _ _ (record {
    size = k.0;
    order = k.1;
    words = record { regs_fit = w.regs_fit; cells_fit = k.2 };
  })

  pub write_memory_binary-KeepsShape : (data_ : List ℕ) → KeepsShape g (write_memory_binary data_ g)
  unfolding write_memory_binary
  write_memory_binary-KeepsShape data_ = bind-Ensures (some_result (scan_pair data_)) λ r u.
      let content = Option.get_or (after_char b':' data_) [] in
      let o : Outcome (Bool × Memory) = write_bytes r.1 r.0 content g.arm.mem in
      let refused : Outcome (Bool × Memory) = ok (false, g.arm.mem) in
      bind-Ensures
        (if-Ensures (ltb r.0 (memory_get_size g.arm.mem)) o refused
          (write_bytes-SameMemory r.1 r.0 content g.arm.mem w.cells_fit)
          (returns (refl, refl, w.cells_fit)))
        λ done k. written-KeepsShape done k

module _ (host target : Bool) where
  pub read_uint32-lt : (s : List ℕ) → Ensures (λ v. v < 2 ^ 32) (read_uint32 host target s)
  unfolding read_uint32
  read_uint32-lt s = bind-Ensures {o = read_byte host target none s} (some_result _) λ r0 u0.
      bind-Ensures {o = read_byte host target (some r0.0) r0.1} (some_result _) λ r1 u1.
        bind-Ensures {o = read_byte host target (some r1.0) r1.1} (some_result _) λ r2 u2.
          bind-Ensures {o = read_byte host target (some r2.0) r2.1} (some_result _)
            λ r3 u3. returns (integer_of-lt r0.0 r1.0 r2.0 r3.0)
    where
      integer_of-lt : (a b c d : ℕ) → integer_of host target a b c d < 2 ^ 32
      integer_of-lt a b c d = ground arith

  module _ (g : Gdb) (w : IsWords g.arm) where
    pub read_register-KeepsShape :
        (data_ : List ℕ) → KeepsShape g (read_register host target data_ g)
    unfolding read_register
    read_register-KeepsShape data_ =
        bind-Ensures (some_result (atoi (c_string data_)))
          λ reg u. if-Ensures _ _ _ (send-KeepsShape g _ g (SameShape-refl w)) asserts

    pub read_general_registers-KeepsShape : KeepsShape g (read_general_registers host target g)
    unfolding read_general_registers
    read_general_registers-KeepsShape = send-KeepsShape g _ g (SameShape-refl w)

    write_value-KeepsShape :
        (reg value : ℕ) → value < 2 ^ 32 → KeepsShape g (write_value host target reg g value)
    unfolding write_value
    write_value-KeepsShape reg value h =
        if-Ensures _ _ _
          (data-KeepsShape g _ _ (Keeps-SameShape (arm_write_register-Keeps w reg value h))) asserts

    write_scanned-KeepsShape :
        (data_ : List ℕ) (s : Scan) → KeepsShape g (write_scanned host target data_ g s)
    unfolding write_scanned
    write_scanned-KeepsShape data_ missing = faults
    write_scanned-KeepsShape data_ overflow = faults
    write_scanned-KeepsShape data_ (found reg rest) =
        bind-Ensures (read_uint32-lt _) λ value h. write_value-KeepsShape reg value h

    pub write_register-KeepsShape :
        (data_ : List ℕ) → KeepsShape g (write_register host target data_ g)
    unfolding write_register
    write_register-KeepsShape data_ = write_scanned-KeepsShape data_ _

  write_registers-SameShape :
      (left i : ℕ) (data_ : List ℕ) (p : ArmCore)
      → IsWords p
      → Ensures (SameShape p) (write_registers host target left i data_ p)
  unfolding write_registers
  write_registers-SameShape zero i data_ p w = returns (SameShape-refl w)
  write_registers-SameShape (suc left) i data_ p w = bind-Ensures (read_uint32-lt data_) λ value h.
      let k = arm_write_register-Keeps w i value h in
      weaken-Ensures (write_registers-SameShape left (i + 1) (drop 8 data_) _ k.words)
        λ q s. SameShape-trans (Keeps-SameShape k) s

  pub arm_write_cpsr-SameShape :
      (p : ArmCore) (value : ℕ) → IsWords p → value < 2 ^ 32 → SameShape p (arm_write_cpsr p value)
  unfolding arm_write_cpsr write_cpsr
  arm_write_cpsr-SameShape p value w h = record {
    size = refl;
    order = refl;
    words = record { regs_fit = λ j. ground (arith, w.regs_fit j); cells_fit = w.cells_fit };
  }

  pub write_general_registers-KeepsShape :
      (g : Gdb) (data_ : List ℕ)
      → IsWords g.arm
      → KeepsShape g (write_general_registers host target data_ g)
  unfolding write_general_registers
  write_general_registers-KeepsShape g data_ w =
      bind-Ensures (write_registers-SameShape 16 0 data_ g.arm w) λ p k.
        bind-Ensures (anything (skip_words host target 25 (drop 128 data_))) λ position _.
          bind-Ensures (read_uint32-lt position) λ value h.
            data-KeepsShape g _ _ (SameShape-trans k (arm_write_cpsr-SameShape p value k.words h))
    where
      anything : (o : Outcome (List ℕ)) → Ensures (λ _. Unit {0}) o
      anything (ok s) = returns tt
      anything fault = faults
      anything assertion = asserts
      anything exit_program = exits
