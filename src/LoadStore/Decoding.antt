-- ===== src/LoadStore/Decoding.antt =====
-- `decode_instruction` of arm_load_store.c.
use projet_s5_prog.Common.{Bool, if◌then◌else◌, ℕ}
use projet_s5_prog.Util.{get_bit, get_bits}

-- The bit fields that `decode_instruction` stores through its pointers. `single` is the call with
-- `rd`, which cuts the operand to 12 bits; without it the operand is the register list.
pub record Fields : Type 0 where
  pub cond : ℕ
  pub bit_25 : ℕ
  pub bit_24 : ℕ
  pub bit_23 : ℕ
  pub bit_22 : ℕ
  pub bit_21 : ℕ
  pub bit_20 : ℕ
  pub rn : ℕ
  pub rd : ℕ
  pub operand : ℕ

unfoldable pub decode_instruction : ℕ → Bool → Fields
decode_instruction ins single = record {
  cond = get_bits ins 31 28;
  bit_25 = get_bit ins 25;
  bit_24 = get_bit ins 24;
  bit_23 = get_bit ins 23;
  bit_22 = get_bit ins 22;
  bit_21 = get_bit ins 21;
  bit_20 = get_bit ins 20;
  rn = get_bits ins 19 16;
  rd = if single then get_bits ins 15 12 else 0;
  operand = if single then get_bits ins 11 0 else get_bits ins 15 0;
}
