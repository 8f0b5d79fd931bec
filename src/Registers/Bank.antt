-- ===== src/Registers/Bank.antt =====
-- The banks of registers.c against a table: for each mode and register one place of the array.
use projet_s5_prog.Common.{
  Bool, arith, if◌then◌else◌, leb, true, ℕ, ◌&&◌, ◌+◌, ◌-◌, ◌==◌, ◌||◌, ◌≡◌, ◌≤◌,
}
use projet_s5_prog.Constants.{abt, fiq, irq, svc, sys, und, usr}
use projet_s5_prog.Registers.{Registers, get_mode, read_register, write_register}

-- The seven modes of the processor.
abbrev pub is_mode : ℕ → Bool
is_mode m = m == usr || m == fiq || m == irq || m == svc || m == abt || m == und || m == sys

-- Where R13 of a mode lies; R14 follows it.
abbrev pub bank : ℕ → ℕ
bank m =
    if m == fiq
    then 34
    else if m == irq
    then 26
    else if m == svc
    then 17
    else if m == abt
    then 20
    else if m == und
    then 23
    else 13

-- The place of register `reg` as the mode `m` sees it.
abbrev pub slot : ℕ → ℕ → ℕ
slot m reg =
    if leb 13 reg && leb reg 14
    then bank m + (reg - 13)
    else if m == fiq && leb 8 reg && leb reg 12
    then reg + 21
    else reg

module _ (r : Registers) (reg : ℕ) (low : reg ≤ 15) (mode : is_mode (get_mode r) ≡ true) where
  -- In each of the seven modes, a read of a register 0 to 15 gives the entry of the array that the
  -- table of banks names.
  pub read_register-slot : read_register r reg ≡ r.regs (slot (get_mode r) reg)
  unfolding read_register
  read_register-slot = ground arith

  -- In each of the seven modes, a write to a register 0 to 15 changes the entry that the table of
  -- banks names, and in user and system mode, for R13 and R14, also the supervisor's.
  pub write_register-slot :
      (value j : ℕ)
      → (write_register r reg value).regs j ≡ (
          if slot (get_mode r) reg == j
          then value
          else if (get_mode r == usr || get_mode r == sys)
              && (leb 13 reg && leb reg 14)
              && j == reg + 4
          then value
          else r.regs j)
  unfolding write_register
  write_register-slot value j = ground arith
