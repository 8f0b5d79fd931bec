-- ===== src/Registers.antt =====
-- registers.c: the 37 registers of all modes in one array, and the choice of the bank by the
-- mode in the CPSR.
pub mod Bank
pub mod Laws
use projet_s5_prog.Common.{
  Bool, Option, if◌then◌else◌, leb, minus_one, none, nonzero, some, ℕ, ◌!=◌, ◌%◌, ◌&&◌, ◌+◌, ◌==◌,
  ◌||◌,
}
use projet_s5_prog.Constants.{
  abt, cpsr, fiq, irq, pc, r12, r13, r13_abt, r13_fiq, r13_irq, r13_svc, r13_und, r13_usr_sys, r14,
  r14_usr_sys, r8_fiq, spsr, svc, sys, und, usr,
}
use projet_s5_prog.Util.{get_bits}
use projet_s5_prog.Memory.{update}

-- `regs[37]`; no function takes an index of 37 or more (Registers/Bank).
pub record Registers : Type 0 where
  pub regs : ℕ → ℕ

abbrev pub mode_read : ℕ
mode_read = 1

abbrev pub mode_write : ℕ
mode_write = 0

unfoldable pub is_correct_registers : ℕ → Bool
is_correct_registers reg = leb reg 15

-- The block that `malloc` gives has whatever contents it had.
unfoldable pub registers_create : Option (ℕ → ℕ) → Option Registers
registers_create none = none
registers_create (some contents) = some (record { regs = contents })

unfoldable pub read_cpsr : Registers → ℕ
read_cpsr r = r.regs cpsr

unfoldable pub write_cpsr : Registers → ℕ → Registers
write_cpsr r value = record { regs = update r.regs cpsr value }

unfoldable pub get_mode : Registers → ℕ
unfolding read_cpsr
get_mode r = get_bits (read_cpsr r) 4 0

unfoldable pub current_mode_has_spsr : Registers → Bool
unfolding get_mode
current_mode_has_spsr r =
    let mode = get_mode r in mode == fiq || mode == irq || mode == svc || mode == abt || mode == und

unfoldable pub in_a_privileged_mode : Registers → Bool
unfolding get_mode
in_a_privileged_mode r =
    let mode = get_mode r in
    mode == fiq || mode == irq || mode == svc || mode == abt || mode == und || mode == sys

unfoldable pub read_write_register_worker : Registers → ℕ → ℕ → ℕ → ℕ × Registers
read_write_register_worker r reg value is_read =
    if nonzero is_read then (r.regs reg, r) else (1, record { regs = update r.regs reg value })

-- `case USR: case SYS:` first acts on the bank of SVC, then on its own.
unfoldable pub action_usr_sys : Registers → ℕ → ℕ → ℕ → ℕ → ℕ × Registers
unfolding read_write_register_worker
action_usr_sys r reg i value is_read =
    let r' = (read_write_register_worker r (r13_svc + i) value is_read).1 in
    if reg != spsr then read_write_register_worker r' (r13_usr_sys + i) value is_read else (0, r')

-- The `switch` on the mode for SP, LR and SPSR; `i` is the place within a bank.
unfoldable pub action_banked_register : Registers → ℕ → ℕ → ℕ → ℕ → ℕ × Registers
unfolding get_mode read_write_register_worker action_usr_sys
action_banked_register r reg i value is_read =
    let mode = get_mode r in
    if mode == usr || mode == sys
    then action_usr_sys r reg i value is_read
    else if mode == fiq
    then read_write_register_worker r (r13_fiq + i) value is_read
    else if mode == irq
    then read_write_register_worker r (r13_irq + i) value is_read
    else if mode == svc
    then read_write_register_worker r (r13_svc + i) value is_read
    else if mode == abt
    then read_write_register_worker r (r13_abt + i) value is_read
    else if mode == und
    then read_write_register_worker r (r13_und + i) value is_read
    else (minus_one, r)

unfoldable pub action_register_mode : Registers → ℕ → ℕ → ℕ → ℕ × Registers
unfolding get_mode read_write_register_worker action_banked_register
action_register_mode r reg value is_read =
    if leb reg 7 || get_mode r != fiq && leb reg 12
    then read_write_register_worker r reg value is_read
    else if leb reg 12 && get_mode r == fiq
    then read_write_register_worker r (reg % 8 + r8_fiq) value is_read
    else if reg == r13 || reg == r14 || reg == spsr
    then action_banked_register r reg (if reg == 13 then 0 else if reg == 14 then 1 else 2) value
        is_read
    else if reg == pc
    then read_write_register_worker r reg value is_read
    else (0, r)

unfoldable pub write_register_with_mode : Registers → ℕ → ℕ → Registers
unfolding action_register_mode
write_register_with_mode r reg value = (action_register_mode r reg value mode_write).1

unfoldable pub read_register_with_mode : Registers → ℕ → ℕ
unfolding action_register_mode
read_register_with_mode r reg = (action_register_mode r reg 0 mode_read).0

unfoldable pub read_register : Registers → ℕ → ℕ
unfolding is_correct_registers read_register_with_mode
read_register r reg = if is_correct_registers reg then read_register_with_mode r reg else 0

unfoldable pub read_usr_register : Registers → ℕ → ℕ
unfolding is_correct_registers
read_usr_register r reg =
    if is_correct_registers reg
    then if leb reg r12
      then r.regs reg
      else if reg == r13_usr_sys
      then r.regs r13_usr_sys
      else if reg == r14_usr_sys
      then r.regs r14_usr_sys
      else if reg == pc
      then r.regs pc
      else 0
    else 0

-- The call reads the register of the bank and its result is dropped: `value` stays 0.
unfoldable pub read_spsr : Registers → ℕ
unfolding current_mode_has_spsr read_register_with_mode
read_spsr r =
    let value : ℕ = 0 in
    if current_mode_has_spsr r
    then (let dropped = read_register_with_mode r spsr in value)
    else value

unfoldable pub write_register : Registers → ℕ → ℕ → Registers
unfolding is_correct_registers write_register_with_mode
write_register r reg value =
    if is_correct_registers reg then write_register_with_mode r reg value else r

unfoldable pub write_usr_register : Registers → ℕ → ℕ → Registers
unfolding is_correct_registers write_register
write_usr_register r reg value = if is_correct_registers reg then write_register r reg value else r

unfoldable pub write_spsr : Registers → ℕ → Registers
unfolding current_mode_has_spsr write_register_with_mode
write_spsr r value = if current_mode_has_spsr r then write_register_with_mode r spsr value else r
