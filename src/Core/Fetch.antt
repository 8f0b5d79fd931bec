-- ===== src/Core/Fetch.antt =====
-- The program counter: what a read of it gives, and what a fetch does with it.
use projet_s5_prog.Common.{
  add32, arith, if◌then◌else◌, ok, refl, some, sub32, u32, ℕ, ◌%◌, ◌*◌, ◌+◌, ◌-◌, ◌/◌, ◌<◌, ◌==◌,
  ◌^◌, ◌≡◌,
}
use projet_s5_prog.Common.Bits.{bit_and-but_single}
use projet_s5_prog.Memory.{update}
use projet_s5_prog.Memory.Access.{memory_read_word_lem, word_at}
use projet_s5_prog.Registers.{Registers, read_register, write_register}
use projet_s5_prog.Core.{ArmCore, ahead, arm_fetch, arm_read_register, arm_write_register}

-- The mask 0xFFFFFFFD clears bit 1.
pub ahead_lem : (value : ℕ) → ahead value ≡ add32 value 4 - add32 value 4 / 2 % 2 * 2
ahead_lem value = bit_and-but_single 32 1 (add32 value 4) (omega arith) (omega arith)

-- Register 15 lies at the same place in all modes.
pub read_register-pc : (r : Registers) → read_register r 15 ≡ r.regs 15
unfolding read_register
read_register-pc r = ground arith

pub write_register-pc :
    (r : Registers) (value : ℕ)
    → write_register r 15 value ≡ record { regs = update r.regs 15 value }
unfolding write_register
write_register-pc r value = ground arith

-- The pc of an aligned instruction, read before and after its fetch.
pub fetch_address : (a : ℕ) → a % 4 ≡ 0 → a + 4 < 2 ^ 32 → sub32 (ahead a) 4 ≡ a
fetch_address a aligned room = omega (arith, ahead_lem a)

ahead_twice : (a : ℕ) → a % 4 ≡ 0 → a + 4 < 2 ^ 32 → ahead (a + 4) ≡ u32 (a + 8)
ahead_twice a aligned room = omega (arith, ahead_lem (a + 4))

-- The processor after the fetch at `a`.
abbrev pub fetched : ArmCore → ℕ → ArmCore
fetched p a = record p {
  cycle_count = u32 (p.cycle_count + 1);
  reg = record { regs = update p.reg.regs 15 (a + 4) };
}

pub arm_fetch-inside :
    (p : ArmCore) (a : ℕ)
    → p.reg.regs 15 ≡ a
    → a % 4 ≡ 0
    → a + 4 < 2 ^ 32
    → a + 3 < p.mem.size
    → ((j : ℕ) → p.mem.adresses j < 256)
    → arm_fetch p ≡ ok (some (word_at p.mem a), fetched p a)
unfolding arm_fetch arm_read_register arm_write_register
arm_fetch-inside p a at aligned room inside bytes =
    rw
      (
        read_register-pc p.reg,
        at,
        fetch_address a aligned room,
        memory_read_word_lem p.mem a aligned inside bytes,
        write_register-pc,
        next,
      )
      refl
  where
    next : add32 a 4 ≡ a + 4
    next = omega arith

-- A fetch with the pc at an aligned address inside the memory gives the word there in the byte
-- order of the memory. After it a read of the pc gives the address of the instruction plus 8,
-- the memory is as before, the cycle counter is one higher modulo 2^32, and no register but
-- the pc has changed. The cells of the memory are given as bytes.
pub arm_fetch_lem :
    (p : ArmCore) (a : ℕ)
    → p.reg.regs 15 ≡ a
    → a % 4 ≡ 0
    → a + 4 < 2 ^ 32
    → a + 3 < p.mem.size
    → ((j : ℕ) → p.mem.adresses j < 256)
    → (p' : ArmCore) × (arm_fetch p ≡ ok (some (word_at p.mem a), p'))
      × (arm_read_register p' 15 ≡ u32 (a + 8))
      × (p'.mem ≡ p.mem)
      × (p'.cycle_count ≡ u32 (p.cycle_count + 1))
      × ((j : ℕ) → p'.reg.regs j ≡ (if j == 15 then a + 4 else p.reg.regs j))
unfolding arm_read_register
arm_fetch_lem p a at aligned room inside bytes = (
  fetched p a,
  arm_fetch-inside p a at aligned room inside bytes,
  rw read_register-pc (ahead_twice a aligned room),
  refl,
  refl,
  λ j. ground arith,
)
