-- ===== src/Examples/Storage.antt =====
-- The theorems on the memory and on the registers, at concrete values.
use projet_s5_prog.Common.{
  arith, if◌then◌else◌, inr, leb, ok, refl, some, true, ◌&&◌, ◌+◌, ◌==◌, ◌||◌, ◌≡◌,
}
use projet_s5_prog.Constants.{sys, usr}
use projet_s5_prog.Memory.{Memory, memory_read_word, memory_write_word}
use projet_s5_prog.Memory.Access.{memory_read_word-write_word}
use projet_s5_prog.Registers.{get_mode, read_cpsr, read_register, write_register}
use projet_s5_prog.Registers.Bank.{is_mode, read_register-slot, slot, write_register-slot}
use projet_s5_prog.Registers.Laws.{read_register-write_register}
use projet_s5_prog.Examples.{supervisor, zeros}

memory_read_word-write_word_example :
    (mem' : Memory) × (memory_write_word zeros 4 0x12345678 ≡ ok (some mem'))
    × (memory_read_word mem' 4 ≡ ok (some 0x12345678))
    × (mem'.adresses 8 ≡ 0)
memory_read_word-write_word_example =
    memory_read_word-write_word zeros 4 0x12345678 8 refl (omega arith) (omega arith)
      (λ i. omega arith) (inr (omega arith))

svc-is_mode : is_mode (get_mode supervisor) ≡ true
unfolding get_mode read_cpsr
svc-is_mode = refl

read_register-slot_example :
    read_register supervisor 13 ≡ supervisor.regs (slot (get_mode supervisor) 13)
read_register-slot_example = read_register-slot supervisor 13 (omega arith) svc-is_mode

write_register-slot_example : (write_register supervisor 13 5).regs 17 ≡ (
    if slot (get_mode supervisor) 13 == 17
    then 5
    else if (get_mode supervisor == usr || get_mode supervisor == sys)
        && (leb 13 13 && leb 13 14)
        && 17 == 13 + 4
    then 5
    else supervisor.regs 17)
write_register-slot_example = write_register-slot supervisor 13 (omega arith) svc-is_mode 5 17

read_register-write_register_example :
    read_register (write_register supervisor 13 5) 2
    ≡ (if 13 == 2 then 5 else read_register supervisor 2)
read_register-write_register_example =
    read_register-write_register supervisor 13 2 5 (omega arith) (omega arith) svc-is_mode
