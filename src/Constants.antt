-- ===== src/Constants.antt =====
-- arm_constants.h: modes, exceptions, bits of the CPSR and the numbering of the registers.
use Prim.Native.Nat.{ℕ}

-- ARM modes
abbrev pub usr : ℕ
usr = 0x10

abbrev pub fiq : ℕ
fiq = 0x11

abbrev pub irq : ℕ
irq = 0x12

abbrev pub svc : ℕ
svc = 0x13

abbrev pub abt : ℕ
abt = 0x17

abbrev pub und : ℕ
und = 0x1b

abbrev pub sys : ℕ
sys = 0x1f

-- ARM exceptions
abbrev pub no_exception : ℕ
no_exception = 0

abbrev pub reset : ℕ
reset = 1

abbrev pub undefined_instruction : ℕ
undefined_instruction = 2

abbrev pub software_interrupt : ℕ
software_interrupt = 3

-- The flags N, Z, C and V of the CPSR
abbrev pub n_bit : ℕ
n_bit = 31

abbrev pub z_bit : ℕ
z_bit = 30

abbrev pub c_bit : ℕ
c_bit = 29

abbrev pub v_bit : ℕ
v_bit = 28

-- Registers, by their number in an instruction
abbrev pub r12 : ℕ
r12 = 12

abbrev pub r13 : ℕ
r13 = 13

abbrev pub r14 : ℕ
r14 = 14

abbrev pub pc : ℕ
pc = 15

abbrev pub cpsr : ℕ
cpsr = 16

abbrev pub spsr : ℕ
spsr = 17

-- Registers, by their place in the array of all banks
abbrev pub r13_usr_sys : ℕ
r13_usr_sys = 13

abbrev pub r14_usr_sys : ℕ
r14_usr_sys = 14

abbrev pub r13_svc : ℕ
r13_svc = 17

abbrev pub r13_abt : ℕ
r13_abt = 20

abbrev pub r13_und : ℕ
r13_und = 23

abbrev pub r13_irq : ℕ
r13_irq = 26

abbrev pub r8_fiq : ℕ
r8_fiq = 29

abbrev pub r13_fiq : ℕ
r13_fiq = 34
