-- ===== src/Registers/Laws.antt =====
-- What the users of registers.c rely on: reads see the last write, modes keep apart, the CPSR is
-- not touched by writes to general registers; and where the file departs from this.
use projet_s5_prog.Common.{arith, if◌then◌else◌, true, ℕ, ◌<◌, ◌==◌, ◌≡◌, ◌≢◌, ◌≤◌}
use projet_s5_prog.Constants.{cpsr}
use projet_s5_prog.Registers.{
  Registers, get_mode, read_cpsr, read_register, read_spsr, read_usr_register, write_register,
  write_spsr, write_usr_register,
}
use projet_s5_prog.Registers.Bank.{bank, is_mode, read_register-slot, slot, write_register-slot}

-- The place of a register is inside the array and is not the CPSR's.
pub slot-lt : (m reg : ℕ) → reg ≤ 15 → (slot m reg < 37) × (slot m reg ≢ cpsr)
slot-lt m reg h = ground arith

slot-injective : (m a b : ℕ) → a ≤ 15 → b ≤ 15 → slot m a ≡ slot m b → a ≡ b
slot-injective m a b ha hb e = ground arith

-- Two modes with different banks share neither R13 nor R14.
pub slot-disjoint :
    (m n a b : ℕ)
    → is_mode m ≡ true
    → is_mode n ≡ true
    → bank m ≢ bank n
    → 13 ≤ a
    → a ≤ 14
    → 13 ≤ b
    → b ≤ 14
    → slot m a ≢ slot n b
slot-disjoint m n a b hm hn ne la ha lb hb e = ground arith

pub read_cpsr-write_register :
    (r : Registers) (reg value : ℕ) → read_cpsr (write_register r reg value) ≡ read_cpsr r
unfolding read_cpsr write_register
read_cpsr-write_register r reg value = ground arith

pub get_mode-write_register :
    (r : Registers) (reg value : ℕ) → get_mode (write_register r reg value) ≡ get_mode r
unfolding get_mode
get_mode-write_register r reg value = rw read_cpsr-write_register

-- In each of the seven modes, a read of a register 0 to 15 after a write to one of them gives the
-- written value if the numbers are the same, and otherwise what it gave before.
pub read_register-write_register :
    (r : Registers) (a b value : ℕ)
    → a ≤ 15
    → b ≤ 15
    → is_mode (get_mode r) ≡ true
    → read_register (write_register r a value) b ≡ (if a == b then value else read_register r b)
read_register-write_register r a b value ha hb mode = ground (
  arith,
  get_mode-write_register r a value,
  read_register-slot r b hb mode,
  read_register-slot (write_register r a value) b hb (rw get_mode-write_register mode),
  write_register-slot r a ha mode value (slot (get_mode r) b),
  slot-injective (get_mode r) a b ha hb,
)

-- After `write_spsr` a read of the saved status gives 0, in every mode and whatever was written.
pub read_spsr-write_spsr : (r : Registers) (value : ℕ) → read_spsr (write_spsr r value) ≡ 0
unfolding read_spsr
read_spsr-write_spsr r value = ground arith

pub write_usr_register_lem :
    (r : Registers) (reg value : ℕ) → write_usr_register r reg value ≡ write_register r reg value
unfolding write_usr_register write_register
write_usr_register_lem r reg value = ground arith

read_usr_register_lem : (r : Registers) (reg : ℕ) → reg ≤ 15 → read_usr_register r reg ≡ r.regs reg
unfolding read_usr_register
read_usr_register_lem r reg h = ground arith

-- In each of the seven modes, a register of the user bank read after it was written with
-- `write_usr_register` holds the value if the mode has no own register of this number, and
-- otherwise what it held before.
pub read_usr_register-write_usr_register :
    (r : Registers) (reg value : ℕ)
    → reg ≤ 15
    → is_mode (get_mode r) ≡ true
    → read_usr_register (write_usr_register r reg value) reg
      ≡ (if slot (get_mode r) reg == reg then value else read_usr_register r reg)
read_usr_register-write_usr_register r reg value h mode =
    rw
      (
        write_usr_register_lem,
        read_usr_register_lem (write_register r reg value) reg h,
        read_usr_register_lem r reg h,
      )
      (ground (arith, write_register-slot r reg h mode value reg))
