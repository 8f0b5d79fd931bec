-- ===== src/Core.antt =====
-- arm_core.c and arm_exception.c: the processor, made of its registers, its memory and a cycle
-- counter. The calls of the trace functions print and change no part of this state.
pub mod Fetch
pub mod Reset
pub mod Keeps
pub mod Access
use projet_s5_prog.Common.{
  Bool, Option, Outcome, add32, bit_and, false, fault, if◌then◌else◌, minus_one, none, ok, some,
  sub32, true, u32, ℕ, ◌+◌, ◌==◌, ◌>>=◌,
}
use projet_s5_prog.Constants.{reset}
use projet_s5_prog.Memory.{
  Memory, memory_read_byte, memory_read_half, memory_read_word, memory_write_byte,
  memory_write_half, memory_write_word,
}
use projet_s5_prog.Registers.{
  Registers, current_mode_has_spsr, in_a_privileged_mode, read_cpsr, read_register, read_spsr,
  read_usr_register, registers_create, write_cpsr, write_register, write_spsr, write_usr_register,
}

pub record ArmCore : Type 0 where
  pub cycle_count : ℕ
  pub reg : Registers
  pub mem : Memory

unfoldable pub arm_current_mode_has_spsr : ArmCore → Bool
arm_current_mode_has_spsr p = current_mode_has_spsr p.reg

unfoldable pub arm_in_a_privileged_mode : ArmCore → Bool
arm_in_a_privileged_mode p = in_a_privileged_mode p.reg

unfoldable pub arm_get_cycle_count : ArmCore → ℕ
arm_get_cycle_count p = p.cycle_count

-- `value += 4; value &= 0xFFFFFFFD;` on a read of the program counter.
abbrev pub ahead : ℕ → ℕ
ahead value = bit_and (add32 value 4) 0xFFFFFFFD

unfoldable pub arm_read_register : ArmCore → ℕ → ℕ
arm_read_register p reg =
    let value = read_register p.reg reg in if reg == 15 then ahead value else value

unfoldable pub arm_read_usr_register : ArmCore → ℕ → ℕ
arm_read_usr_register p reg =
    let value = read_usr_register p.reg reg in if reg == 15 then ahead value else value

unfoldable pub arm_read_cpsr : ArmCore → ℕ
arm_read_cpsr p = read_cpsr p.reg

unfoldable pub arm_read_spsr : ArmCore → ℕ
arm_read_spsr p = read_spsr p.reg

unfoldable pub arm_write_register : ArmCore → ℕ → ℕ → ArmCore
arm_write_register p reg value = record p { reg = write_register p.reg reg value }

unfoldable pub arm_write_usr_register : ArmCore → ℕ → ℕ → ArmCore
arm_write_usr_register p reg value = record p { reg = write_usr_register p.reg reg value }

unfoldable pub arm_write_cpsr : ArmCore → ℕ → ArmCore
arm_write_cpsr p value = record p { reg = write_cpsr p.reg value }

unfoldable pub arm_write_spsr : ArmCore → ℕ → ArmCore
arm_write_spsr p value = record p { reg = write_spsr p.reg value }

-- The result is `none` for -1, and otherwise the instruction. The pc moves on in both cases.
unfoldable pub arm_fetch : ArmCore → Outcome (Option ℕ × ArmCore)
arm_fetch p = do
  let p1 = record p { cycle_count = u32 (p.cycle_count + 1) }
  let address = sub32 (arm_read_register p1 15) 4
  value ← memory_read_word p1.mem address
  ok (value, arm_write_register p1 15 (add32 address 4))

unfoldable pub arm_read_byte : ArmCore → ℕ → Outcome (Option ℕ)
arm_read_byte p address = memory_read_byte p.mem address

unfoldable pub arm_read_half : ArmCore → ℕ → Outcome (Option ℕ)
arm_read_half p address = memory_read_half p.mem address

unfoldable pub arm_read_word : ArmCore → ℕ → Outcome (Option ℕ)
arm_read_word p address = memory_read_word p.mem address

-- The result code of a write, 0 or -1, with the processor after it.
abbrev pub written : ArmCore → Option Memory → ℕ × ArmCore
written p none = (minus_one, p)
written p (some mem') = (0, record p { mem = mem' })

unfoldable pub arm_write_byte : ArmCore → ℕ → ℕ → Outcome (ℕ × ArmCore)
arm_write_byte p address value = do
  result ← memory_write_byte p.mem address value
  ok (written p result)

unfoldable pub arm_write_half : ArmCore → ℕ → ℕ → Outcome (ℕ × ArmCore)
arm_write_half p address value = do
  result ← memory_write_half p.mem address value
  ok (written p result)

unfoldable pub arm_write_word : ArmCore → ℕ → ℕ → Outcome (ℕ × ArmCore)
arm_write_word p address value = do
  result ← memory_write_word p.mem address value
  ok (written p result)

-- `Exception_bit_9` is 0.
unfoldable pub arm_exception : ArmCore → ℕ → ArmCore
arm_exception p exception =
    if exception == reset then arm_write_usr_register (arm_write_cpsr p 0x1d3) 15 0 else p

-- The arguments are what the two calls of `malloc` give: the block of the processor or not, and
-- that of the registers. The reset writes through the second without a test.
unfoldable pub arm_create : Bool → Option (ℕ → ℕ) → Memory → Outcome (Option ArmCore)
arm_create false contents mem = ok none
arm_create true contents mem = elim (registers_create contents) [
  | none ↦ fault
  | some r ↦ ok (
      some (record (arm_exception (record { cycle_count = 0; reg = r; mem = mem }) reset) {
        cycle_count = 0;
      }))
]
