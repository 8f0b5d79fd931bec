-- ===== src/Core/Access.antt =====
-- What the memory accesses of the processor keep, and the width of what they read.
use projet_s5_prog.Common.{
  Option, Outcome, arith, none, refl, some, ℕ, ◌+◌, ◌<◌, ◌>>=◌, ◌^◌, ◌∙◌, ◌≡◌,
}
use projet_s5_prog.Memory.{
  Memory, load_cell, memory_read_byte, memory_read_half, memory_read_word, memory_write_byte,
  memory_write_half, memory_write_word, store_cell,
}
use projet_s5_prog.Core.{
  ArmCore, arm_read_byte, arm_read_half, arm_read_word, arm_write_byte, arm_write_half,
  arm_write_word, written,
}
use projet_s5_prog.Core.Keeps.{IsWords, Keeps, Keeps-refl}
use projet_s5_prog.Common.Ensures.{
  Ensures, Ensures-Holds, Ensures-Safe, Safe, bind-Ensures, faults, if-Ensures, returns,
}

record KeepsCells (m n : Memory) : Type 0 where
  size : n.size ≡ m.size
  order : n.is_big_endian ≡ m.is_big_endian
  cells : ((j : ℕ) → m.adresses j < 256) → (j : ℕ) → n.adresses j < 256

abbrev CellsKept : Memory → Option Memory → Type 0
CellsKept m none = Unit
CellsKept m (some n) = KeepsCells m n

KeepsCells-trans : {m n o : Memory} → KeepsCells m n → KeepsCells n o → KeepsCells m o
KeepsCells-trans h k = record {
  size = k.size ∙ h.size;
  order = k.order ∙ h.order;
  cells = λ c. k.cells (h.cells c);
}

store_cell-Keeps : (m : Memory) (i v : ℕ) → Ensures (KeepsCells m) (store_cell m i v)
unfolding store_cell
store_cell-Keeps m i v =
    if-Ensures _ _ _
      (returns (record { size = refl; order = refl; cells = λ c j. ground (arith, c j) })) faults

-- One more store after some.
then_store :
    {m n : Memory} (i v : ℕ) {f : Memory → Outcome (Option Memory)}
    → KeepsCells m n
    → ((o : Memory) → KeepsCells m o → Ensures (CellsKept m) (f o))
    → Ensures (CellsKept m) (store_cell n i v >>= f)
then_store {n} i v h k = bind-Ensures (store_cell-Keeps n i v) λ o e. k o (KeepsCells-trans h e)

KeepsCells-refl : (m : Memory) → KeepsCells m m
KeepsCells-refl m = record { size = refl; order = refl; cells = λ c. c }

module _ (m : Memory) (address value : ℕ) where
  memory_write_word-Keeps : Ensures (CellsKept m) (memory_write_word m address value)
  unfolding memory_write_word
  memory_write_word-Keeps = if-Ensures _ _ _ (returns tt) (
      then_store address _ (KeepsCells-refl m) λ m1 h1. then_store (address + 1) _ h1 λ m2 h2.
        then_store (address + 2) _ h2 λ m3 h3. then_store (address + 3) _ h3 λ m4 h4. returns h4)

  memory_write_half-Keeps : Ensures (CellsKept m) (memory_write_half m address value)
  unfolding memory_write_half
  memory_write_half-Keeps = if-Ensures _ _ _ (returns tt) (
      then_store (address + 1) _ (KeepsCells-refl m)
        λ m1 h1. then_store address _ h1 λ m2 h2. returns h2)

  memory_write_byte-Keeps : Ensures (CellsKept m) (memory_write_byte m address value)
  unfolding memory_write_byte
  memory_write_byte-Keeps =
      if-Ensures _ _ _ (returns tt) (then_store address _ (KeepsCells-refl m) λ m1 h1. returns h1)

written-Keeps :
    {p : ArmCore} (w : IsWords p) (result : Option Memory)
    → CellsKept p.mem result
    → Keeps p (written p result).1
written-Keeps w none h = Keeps-refl w
written-Keeps w (some n) h = record {
  status = refl;
  cycles = refl;
  size = h.size;
  order = h.order;
  words = record { regs_fit = w.regs_fit; cells_fit = h.cells w.cells_fit };
}

-- What a run that returns a result beside the processor keeps.
abbrev pub KeepsRun {ℓ} : {A : Type ℓ} → ArmCore → Outcome (A × ArmCore) → Type ℓ
KeepsRun {A} p o = Ensures {A = A × ArmCore} (λ r. Keeps p r.1) o

module _ {p : ArmCore} (w : IsWords p) (address value : ℕ) where
  pub arm_write_word-Keeps : KeepsRun p (arm_write_word p address value)
  unfolding arm_write_word
  arm_write_word-Keeps =
      bind-Ensures (memory_write_word-Keeps p.mem address value)
        λ r h. returns (written-Keeps w r h)

  pub arm_write_half-Keeps : KeepsRun p (arm_write_half p address value)
  unfolding arm_write_half
  arm_write_half-Keeps =
      bind-Ensures (memory_write_half-Keeps p.mem address value)
        λ r h. returns (written-Keeps w r h)

  pub arm_write_byte-Keeps : KeepsRun p (arm_write_byte p address value)
  unfolding arm_write_byte
  arm_write_byte-Keeps =
      bind-Ensures (memory_write_byte-Keeps p.mem address value)
        λ r h. returns (written-Keeps w r h)

-- A value that a read gives is a word.
abbrev pub WordRead : Option ℕ → Type 0
WordRead none = Unit
WordRead (some v) = v < 2 ^ 32

module _ {p : ArmCore} (w : IsWords p) (address : ℕ) where
  pub arm_read_word-WordRead : Ensures WordRead (arm_read_word p address)
  unfolding arm_read_word memory_read_word load_cell
  arm_read_word-WordRead = Ensures-Holds WordRead _ (ground arith)

  pub arm_read_half-WordRead : Ensures WordRead (arm_read_half p address)
  unfolding arm_read_half memory_read_half load_cell
  arm_read_half-WordRead = Ensures-Holds WordRead _ (ground arith)

  pub arm_read_byte-WordRead : Ensures WordRead (arm_read_byte p address)
  unfolding arm_read_byte memory_read_byte load_cell
  arm_read_byte-WordRead = Ensures-Holds WordRead _ (ground (arith, w.cells_fit address))

-- The accesses end normally or fault.
module _ {p : ArmCore} (w : IsWords p) (address : ℕ) where
  pub arm_read_word-Safe : Safe WordRead (arm_read_word p address)
  arm_read_word-Safe =
      Ensures-Safe (arm_read_word-WordRead w address)
        (unfold arm_read_word memory_read_word load_cell in ground arith)
        (unfold arm_read_word memory_read_word load_cell in ground arith)

  pub arm_write_word-Safe : (value : ℕ) → Safe (λ r. Keeps p r.1) (arm_write_word p address value)
  arm_write_word-Safe value =
      Ensures-Safe (arm_write_word-Keeps w address value)
        (unfold arm_write_word memory_write_word store_cell in ground arith)
        (unfold arm_write_word memory_write_word store_cell in ground arith)
