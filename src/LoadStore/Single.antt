-- ===== src/LoadStore/Single.antt =====
-- Loads and stores of a word or a byte, and the helpers of arm_load_store.c that they share.
use projet_s5_prog.Common.{
  Option, Outcome, add32, if◌then◌else◌, minus_one, none, nonzero, ok, some, sub32, true, u16, u8,
  ℕ, ◌!=◌, ◌&&◌, ◌==◌, ◌>>=◌,
}
use projet_s5_prog.Util.{get_bits}
use projet_s5_prog.Core.{
  ArmCore, arm_read_byte, arm_read_cpsr, arm_read_register, arm_read_usr_register, arm_read_word,
  arm_write_byte, arm_write_register, arm_write_usr_register, arm_write_word,
}
use projet_s5_prog.Decode.{condition, shift}
use projet_s5_prog.LoadStore.Decoding.{Fields, decode_instruction}

unfoldable pub handling_offset : ℕ → ℕ → ℕ → ℕ
handling_offset address offset u = if nonzero u then add32 address offset else sub32 address offset

unfoldable pub write_register_mode : ArmCore → ℕ → ℕ → ℕ → ArmCore
write_register_mode p reg value w_bit =
    if w_bit == 0 then arm_write_register p reg value else arm_write_usr_register p reg value

unfoldable pub read_register_mode : ArmCore → ℕ → ℕ → ℕ
read_register_mode p reg w_bit =
    if w_bit == 0 then arm_read_register p reg else arm_read_usr_register p reg

-- A register is written when the read gave a value; the result is the code of the read.
abbrev pub loaded : ArmCore → Option ℕ → (ℕ → ArmCore) → ℕ × ArmCore
loaded p none store = (minus_one, p)
loaded p (some value) store = (0, store value)

-- STR, STRB, LDR and LDRB at `address`, once the base is dealt with. Both branches of the source
-- do this; with `w` 0 `read_register_mode` and `write_register_mode` are the calls of the second.
unfoldable pub transfer : ArmCore → ℕ → ℕ → ℕ → ℕ → ℕ → Outcome (ℕ × ArmCore)
transfer p address rd b_bit l_bit w =
    if l_bit == 0
    then if b_bit == 0
      then arm_write_word p address (read_register_mode p rd w)
      else arm_write_byte p address (u8 (read_register_mode p rd w))
    else if b_bit == 0
    then (arm_read_word p address >>= λ value.
        ok (loaded p value (λ v. write_register_mode p rd v w)))
    else (arm_read_byte p address >>= λ value.
        ok (loaded p value (λ v. write_register_mode p rd v w)))

-- `offset` is a `uint16_t`, so a register's value is cut to 16 bits.
unfoldable pub offset_of : ArmCore → ℕ → Fields → Outcome ℕ
offset_of p ins f =
    if nonzero f.bit_25
    then if get_bits f.operand 11 4 != 0
      then (shift p ins none >>= λ r. ok (u16 r.0))
      else ok (u16 (arm_read_register p (get_bits f.operand 3 0)))
    else ok f.operand

-- Post-indexed addressing reads or writes at the base and then the base moves, if the condition
-- holds; the other modes use the moved address and write it back with W = 1.
unfoldable pub post_indexed : ArmCore → Fields → ℕ → ℕ → Outcome (ℕ × ArmCore)
post_indexed p f val_rn moved =
    let passed = condition (arm_read_cpsr p) f.cond in
    let p1 = if passed then arm_write_register p f.rn moved else p in
    transfer p1 val_rn f.rd f.bit_22 f.bit_20 f.bit_21

unfoldable pub pre_indexed : ArmCore → Fields → ℕ → Outcome (ℕ × ArmCore)
pre_indexed p f moved =
    let passed = condition (arm_read_cpsr p) f.cond in
    let p1 = if f.bit_21 == 1 && passed then arm_write_register p f.rn moved else p in
    transfer p1 moved f.rd f.bit_22 f.bit_20 0

unfoldable pub word_byte_load_store : ArmCore → ℕ → Outcome (ℕ × ArmCore)
word_byte_load_store p ins =
    let f = decode_instruction ins true in
    let val_rn = arm_read_register p f.rn in
    offset_of p ins f >>= λ offset.
    let moved = handling_offset val_rn offset f.bit_23 in
    if f.bit_24 == 0 then post_indexed p f val_rn moved else pre_indexed p f moved
