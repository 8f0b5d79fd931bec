-- ===== src/LoadStore/Misc.antt =====
-- Loads and stores of half words, double words and signed bytes in arm_load_store.c.
use projet_s5_prog.Common.{
  Option, Outcome, add32, bit_and, bit_or, if◌then◌else◌, minus_one, none, nonzero, ok, some, true,
  u16, u8, ℕ, ◌!=◌, ◌%◌, ◌&&◌, ◌*◌, ◌+◌, ◌==◌, ◌>>=◌, ◌^◌,
}
use projet_s5_prog.Constants.{no_exception, r14, undefined_instruction}
use projet_s5_prog.Util.{get_bit, get_bits}
use projet_s5_prog.Core.{
  ArmCore, arm_read_byte, arm_read_cpsr, arm_read_half, arm_read_register, arm_read_word,
  arm_write_half, arm_write_register, arm_write_word,
}
use projet_s5_prog.Decode.{condition}
use projet_s5_prog.LoadStore.Decoding.{Fields, decode_instruction}
use projet_s5_prog.LoadStore.Single.{handling_offset, loaded}

-- The sign extensions of LDRSB and LDRSH, in variables of 8 and of 16 bits.
abbrev pub extend_byte : ℕ → ℕ
extend_byte value8 =
    if nonzero (bit_and value8 (2 ^ 7))
    then u8 (bit_or value8 0xFFFFFF00)
    else bit_and value8 0xF00FF

abbrev pub extend_half : ℕ → ℕ
extend_half value32 =
    if nonzero (bit_and value32 (2 ^ 15))
    then u16 (bit_or value32 0xFFFF0000)
    else bit_and value32 0xFFFFF

-- A read, and the write of what it gave into `rd`, extended.
unfoldable pub load_extended : ArmCore → Outcome (Option ℕ) → ℕ → (ℕ → ℕ) → Outcome (ℕ × ArmCore)
load_extended p read rd extend =
    read >>= λ value. ok (loaded p value (λ v. arm_write_register p rd (extend v)))

-- LDRD once the first read is done: the second word is read after the first register is written.
unfoldable pub load_second : ArmCore → ℕ → ℕ → Option ℕ → Outcome (ℕ × ArmCore)
load_second p rd address none = ok (minus_one, p)
load_second p rd address (some low) =
    let p1 = arm_write_register p rd low in
    load_extended p1 (arm_read_word p1 (add32 address 4)) (u8 (rd + 1)) (λ v. v)

unfoldable pub load_double : ArmCore → ℕ → ℕ → Outcome (ℕ × ArmCore)
load_double p rd address = arm_read_word p address >>= λ first. load_second p rd address first

unfoldable pub store_double : ArmCore → ℕ → ℕ → Outcome (ℕ × ArmCore)
store_double p rd address = arm_write_word p address (arm_read_register p rd) >>= λ first.
    if first.0 == no_exception
    then arm_write_word first.1 (add32 address 4) (arm_read_register first.1 (u8 (rd + 1)))
    else ok first

unfoldable pub load_store_half_double_byte : ArmCore → ℕ → ℕ → ℕ → ℕ → ℕ → ℕ → Outcome (ℕ × ArmCore)
load_store_half_double_byte p rd address l_bit s_bit h_bit cond =
    let kind = l_bit * 2 ^ 2 + s_bit * 2 + h_bit in
    let passed = condition (arm_read_cpsr p) cond in
    if kind == 1
    then if passed
      then arm_write_half p address (get_bits (arm_read_register p rd) 15 0)
      else ok (no_exception, p)
    else if kind == 2
    then if passed
      then if rd != r14 && rd % 2 == 0 && get_bits address 1 0 != 0
        then load_double p rd address
        else ok (no_exception, p)
      else ok (undefined_instruction, p)
    else if kind == 3
    then if rd % 2 == 0 && rd != r14 && get_bits address 1 0 != 0 && get_bit address 2 == 0
      then store_double p rd address
      else ok (undefined_instruction, p)
    else if kind == 5
    then load_extended p (arm_read_half p address) rd (λ v. v)
    else if kind == 6
    then if passed
      then load_extended p (arm_read_byte p address) rd extend_byte
      else ok (no_exception, p)
    else if kind == 7
    then if passed
      then load_extended p (arm_read_half p address) rd extend_half
      else ok (no_exception, p)
    else ok (no_exception, p)

unfoldable pub miscellaneous_post : ArmCore → Fields → ℕ → ℕ → ℕ → ℕ → Outcome (ℕ × ArmCore)
miscellaneous_post p f val_rn moved s_bit h_bit =
    let passed = condition (arm_read_cpsr p) f.cond in
    let p1 = if passed then arm_write_register p f.rn moved else p in
    if f.bit_21 == 1
    then load_store_half_double_byte p1 f.rd val_rn f.bit_20 s_bit h_bit f.cond
    else ok (undefined_instruction, p)

-- The result of the transfer is dropped. That of the write back is 0: outside arm_core.c the call
-- is a macro of trace_location.h, whose value is that of `trace_end_location`.
unfoldable pub miscellaneous_pre : ArmCore → Fields → ℕ → ℕ → ℕ → Outcome (ℕ × ArmCore)
miscellaneous_pre p f moved s_bit h_bit =
    let passed = condition (arm_read_cpsr p) f.cond in
    let p1 = if f.bit_21 == 1 && passed then arm_write_register p f.rn moved else p in
    load_store_half_double_byte p1 f.rd moved f.bit_20 s_bit h_bit f.cond >>= λ r.
    ok (no_exception, r.1)

unfoldable pub miscellaneous_load_store : ArmCore → ℕ → Outcome (ℕ × ArmCore)
miscellaneous_load_store p ins =
    let f = decode_instruction ins true in
    let val_rn = arm_read_register p f.rn in
    let offset =
      if f.bit_22 == 0
      then bit_or (get_bits f.operand 11 8 * 2 ^ 4) (get_bits f.operand 3 0)
      else u16 (arm_read_register p (get_bits f.operand 3 0)) in
    let moved = handling_offset val_rn offset f.bit_23 in
    if f.bit_24 == 0
    then miscellaneous_post p f val_rn moved (get_bit ins 6) (get_bit ins 5)
    else miscellaneous_pre p f moved (get_bit ins 6) (get_bit ins 5)
