-- ===== src/LoadStore/Double.antt =====
-- LDRD and STRD: the test of the address.
use projet_s5_prog.Common.{
  arith, if◌then◌else◌, minus_one, none, ok, refl, ℕ, ◌!=◌, ◌%◌, ◌&&◌, ◌==◌, ◌≡◌, ◌≢◌,
}
use projet_s5_prog.Memory.{Memory, memory_read_word, memory_write_word}
use projet_s5_prog.Core.{ArmCore, arm_read_cpsr, arm_read_register, arm_read_word, arm_write_word}
use projet_s5_prog.LoadStore.Misc.{
  load_double, load_second, load_store_half_double_byte, store_double,
}
use projet_s5_prog.Util.{get_bit}
use projet_s5_prog.Decode.{condition}
use projet_s5_prog.Constants.{no_exception, r14, undefined_instruction}

memory_read_word-unaligned :
    (m : Memory) (address : ℕ) → address % 4 ≢ 0 → memory_read_word m address ≡ ok none
unfolding memory_read_word
memory_read_word-unaligned m address h = ground arith

memory_write_word-unaligned :
    (m : Memory) (address value : ℕ) → address % 4 ≢ 0 → memory_write_word m address value ≡ ok none
unfolding memory_write_word
memory_write_word-unaligned m address value h = ground arith

load_double-unaligned :
    (p : ArmCore) (rd address : ℕ) → address % 4 ≢ 0 → load_double p rd address ≡ ok (minus_one, p)
unfolding load_double arm_read_word load_second
load_double-unaligned p rd address h = rw (memory_read_word-unaligned p.mem address h) refl

store_double-unaligned :
    (p : ArmCore) (rd address : ℕ) → address % 4 ≢ 0 → store_double p rd address ≡ ok (minus_one, p)
unfolding store_double arm_write_word
store_double-unaligned p rd address h =
    rw (memory_write_word-unaligned p.mem address (arm_read_register p rd) h) refl

-- LDRD and STRD leave the whole processor as it is, whatever the address: the code asks for an
-- address that is not a multiple of 4, and the access of a word there gives -1. The result is -1
-- or the code of the branch.
pub load_store_half_double_byte-double :
    (p : ArmCore) (rd address cond : ℕ)
    → (load_store_half_double_byte p rd address 0 1 0 cond
        ≡ ok (
          (if condition (arm_read_cpsr p) cond
              then if rd != r14 && rd % 2 == 0 && address % 4 != 0 then minus_one else no_exception
              else undefined_instruction),
          p,
        ))
      × (load_store_half_double_byte p rd address 0 1 1 cond
          ≡ ok (
            (if rd % 2 == 0 && rd != r14 && address % 4 != 0 && get_bit address 2 == 0
                then minus_one
                else undefined_instruction),
            p,
          ))
unfolding load_store_half_double_byte
load_store_half_double_byte-double p rd address cond =
    ground (arith, load_double-unaligned p rd address, store_double-unaligned p rd address)
