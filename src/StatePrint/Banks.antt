-- ===== src/StatePrint/Banks.antt =====
-- The registers that arm_print_state shows for each mode.
use projet_s5_prog.Common.{List, [], if◌then◌else◌, ok, refl, suc, zero, ℕ, ◌+◌, ◌∷◌, ◌≡◌}
use projet_s5_prog.Text.{bytes, same_text}
use projet_s5_prog.Names.{arm_get_mode_name, arm_get_register_name}
use projet_s5_prog.Core.{ArmCore, arm_read_register, arm_read_usr_register}
use projet_s5_prog.StatePrint.{
  Piece, arm_print_state, blanks, end_of_line, indented_line, mode_name, register_value,
  status_value, traced_line,
}

-- The values of the first `n` registers among some pieces.
abbrev pub values : ℕ → List Piece → List ℕ
values zero pieces = []
values (suc n) [] = []
values (suc n) (register_value name v ∷ rest) = v ∷ values n rest
values (suc n) (mode_name name ∷ rest) = values (suc n) rest
values (suc n) (status_value v ∷ rest) = values (suc n) rest
values (suc n) (indented_line ∷ rest) = values (suc n) rest
values (suc n) (end_of_line ∷ rest) = values (suc n) rest
values (suc n) (blanks ∷ rest) = values (suc n) rest
values (suc n) (traced_line l ∷ rest) = values (suc n) rest

-- The sixteen values behind the name of a mode.
abbrev pub shown : List ℕ → List Piece → List ℕ
shown name [] = []
shown name (mode_name n ∷ rest) = if same_text n name then values 16 rest else shown name rest
shown name (register_value n v ∷ rest) = shown name rest
shown name (status_value v ∷ rest) = shown name rest
shown name (indented_line ∷ rest) = shown name rest
shown name (end_of_line ∷ rest) = shown name rest
shown name (blanks ∷ rest) = shown name rest
shown name (traced_line l ∷ rest) = shown name rest

-- What a function gives for the registers from `i` on, `n` of them.
abbrev pub from_to : ℕ → ℕ → (ℕ → ℕ) → List ℕ
from_to zero i f = []
from_to (suc n) i f = f i ∷ from_to n (i + 1) f

-- The state is printed without an access outside the tables of names. Behind USR stand the
-- registers of the user mode. Behind each of FIQ, IRQ, SVC, ABT and UND stand the registers of the
-- mode that the processor is in, and not those of the mode named.
pub arm_print_state-current :
    (p : ArmCore)
    → (pieces : List Piece) × (arm_print_state p ≡ ok pieces)
      × (shown (bytes "USR") pieces ≡ from_to 16 0 (arm_read_usr_register p))
      × (shown (bytes "FIQ") pieces ≡ from_to 16 0 (arm_read_register p))
      × (shown (bytes "IRQ") pieces ≡ from_to 16 0 (arm_read_register p))
      × (shown (bytes "SVC") pieces ≡ from_to 16 0 (arm_read_register p))
      × (shown (bytes "ABT") pieces ≡ from_to 16 0 (arm_read_register p))
      × (shown (bytes "UND") pieces ≡ from_to 16 0 (arm_read_register p))
unfolding arm_print_state arm_get_mode_name arm_get_register_name same_text
arm_print_state-current p = (_, refl, refl, refl, refl, refl, refl, refl)
