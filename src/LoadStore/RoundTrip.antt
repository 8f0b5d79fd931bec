-- ===== src/LoadStore/RoundTrip.antt =====
-- STR and LDR of a word at the same address.
use projet_s5_prog.Common.{arith, if◌then◌else◌, ok, refl, true, ℕ, ◌%◌, ◌+◌, ◌<◌, ◌==◌, ◌≡◌, ◌≤◌}
use projet_s5_prog.Core.{
  ArmCore, arm_read_register, arm_read_word, arm_write_register, arm_write_word,
}
use projet_s5_prog.Core.Keeps.{IsWords, arm_read_register-lt}
use projet_s5_prog.Registers.{get_mode, read_register, write_register}
use projet_s5_prog.Memory.Access.{memory_read_word-write_word}
use projet_s5_prog.Registers.Bank.{is_mode}
use projet_s5_prog.Registers.Laws.{read_register-write_register}
use projet_s5_prog.LoadStore.Single.{read_register_mode, transfer, write_register_mode}

-- STR of a register to an aligned address inside the memory and then LDR from there succeed, and
-- the loaded register holds what a read of the stored one gave; the other 15 registers are as
-- before. The processor is in one of the seven modes, its registers are words and its memory
-- cells bytes.
pub transfer-load-store :
    (p : ArmCore) (address rd rt b : ℕ)
    → IsWords p
    → is_mode (get_mode p.reg) ≡ true
    → address % 4 ≡ 0
    → address + 3 < p.mem.size
    → rt ≤ 15
    → b ≤ 15
    → (p1 p2 : ArmCore) × (transfer p address rd 0 0 0 ≡ ok (0, p1))
      × (transfer p1 address rt 0 1 0 ≡ ok (0, p2))
      × (read_register p2.reg b
          ≡ (if rt == b then arm_read_register p rd else read_register p.reg b))
unfolding transfer read_register_mode write_register_mode arm_write_word arm_read_word
    arm_write_register
transfer-load-store p address rd rt b w mode aligned inside low lowb =
    let value = arm_read_register p rd in
    let m =
      memory_read_word-write_word p.mem address value (address + 4) aligned inside
        (arm_read_register-lt w rd) w.cells_fit (omega arith) in
    (
      record p { mem = m.0 },
      record p { mem = m.0; reg = write_register p.reg rt value },
      rw m.1 refl,
      rw m.2 refl,
      read_register-write_register p.reg rt b value low lowb mode,
    )
