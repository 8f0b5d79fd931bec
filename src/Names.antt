-- ===== src/Names.antt =====
-- arm_constants.c: the names of modes, registers and exceptions; send_irq.c: the exception that a
-- name stands for.
pub mod Lookup
use projet_s5_prog.Common.{
  List, Option, Outcome, [], exit_program, fault, if◌then◌else◌, ltb, none, ok, some, suc, u8, zero,
  ℕ, ◌++◌, ◌+◌, ◌-◌, ◌==◌, ◌∷◌,
}
use projet_s5_prog.Text.{bytes}
use projet_s5_prog.Constants.{reset}
use projet_s5_prog.Debug.{is_equal, strcmp}

-- `arm_mode_names` and `arm_get_mode_name`; a null pointer is `none`.
unfoldable pub arm_get_mode_name : ℕ → Outcome (Option (List ℕ))
arm_get_mode_name mode =
    if mode == 16
    then ok (some (bytes "USR"))
    else if mode == 17
    then ok (some (bytes "FIQ"))
    else if mode == 18
    then ok (some (bytes "IRQ"))
    else if mode == 19
    then ok (some (bytes "SVC"))
    else if mode == 23
    then ok (some (bytes "ABT"))
    else if mode == 27
    then ok (some (bytes "UND"))
    else if mode == 31
    then ok (some (bytes "SYS"))
    else if ltb mode 32
    then ok none
    else fault

-- `arm_register_names` and `arm_get_register_name`
unfoldable pub arm_get_register_name : ℕ → Outcome (List ℕ)
arm_get_register_name reg =
    if ltb reg 10
    then ok (bytes "R0" ++ (48 + reg) ∷ [])
    else if ltb reg 13
    then ok (bytes "R1" ++ (48 + (reg - 10)) ∷ [])
    else if reg == 13
    then ok (bytes "SP")
    else if reg == 14
    then ok (bytes "LR")
    else if reg == 15
    then ok (bytes "PC")
    else if reg == 16
    then ok (bytes "CPSR")
    else if reg == 17
    then ok (bytes "SPSR")
    else fault

-- `arm_exception_names` and `arm_get_exception_name`
unfoldable pub arm_get_exception_name : ℕ → Option (List ℕ)
arm_get_exception_name exception =
    if exception == 1
    then some (bytes "reset")
    else if exception == 2
    then some (bytes "undefined instruction")
    else if exception == 3
    then some (bytes "software interrupt")
    else if exception == 4
    then some (bytes "prefetch abort")
    else if exception == 5
    then some (bytes "data abort")
    else if exception == 6
    then some (bytes "interrupt")
    else if exception == 7
    then some (bytes "fast interrupt")
    else none

-- `INTERRUPT`
abbrev pub interrupt : ℕ
interrupt = 6

-- One round of the loop of `main` in send_irq.c on the names, with what the rounds after it
-- give. An unknown name ends the program.
abbrev pub looked_up : Option (List ℕ) → ℕ → List ℕ → Option (Outcome ℕ) → Option (Outcome ℕ)
looked_up none number name rest = some exit_program
looked_up (some n) number name rest = if is_equal (strcmp n name) then some (ok number) else rest

-- At most `fuel` rounds; `irq` is an `unsigned char`.
unfoldable pub find_irq : ℕ → ℕ → List ℕ → Option (Outcome ℕ)
find_irq zero number name = none
find_irq (suc fuel) number name =
    let rest = find_irq fuel (u8 (number + 1)) name in
    looked_up (arm_get_exception_name number) number name rest

-- The byte that `main` sends: without the third argument the default.
unfoldable pub chosen_irq : Option (List ℕ) → Option (Outcome ℕ)
unfolding find_irq
chosen_irq none = some (ok interrupt)
chosen_irq (some name) = find_irq 8 reset name
