-- ===== src/LoadStore/Multiple.antt =====
-- LDM and STM of arm_load_store.c.
pub mod Count
pub mod Loops
pub mod Ends
use projet_s5_prog.Common.{
  Bool, Option, Outcome, add32, assertion, bit_and, false, fault, if◌then◌else◌, minus_one, none,
  nonzero, not, ok, some, sub32, suc, zero, ℕ, ◌&&◌, ◌*◌, ◌+◌, ◌==◌, ◌>>=◌,
}
use projet_s5_prog.Constants.{no_exception, undefined_instruction}
use projet_s5_prog.Util.{get_bit}
use projet_s5_prog.Core.{
  ArmCore, arm_current_mode_has_spsr, arm_read_cpsr, arm_read_register, arm_read_spsr,
  arm_read_usr_register, arm_read_word, arm_write_register, arm_write_usr_register, arm_write_word,
}
use projet_s5_prog.Decode.{condition}
use projet_s5_prog.LoadStore.Decoding.{decode_instruction}

-- The loop of `number_set_bits_in` at index `i` with `left` rounds to go; `mask` is `1 << i`.
unfoldable pub count_bits : ℕ → ℕ → ℕ → ℕ → ℕ
count_bits zero n mask count = count
count_bits (suc left) n mask count =
    count_bits left n (mask * 2) (if bit_and mask n == mask then count + 1 else count)

unfoldable pub number_set_bits_in : ℕ → ℕ
number_set_bits_in n = count_bits 16 n 1 0

-- The address of the first and of the last word; `rn` is the number of the base register.
unfoldable pub address_range : ℕ → ℕ → ℕ → ℕ → ℕ × ℕ
address_range p_bit u_bit rn list =
    let n = number_set_bits_in list * 4 in
    if nonzero p_bit
    then if nonzero u_bit then (sub32 rn n, sub32 rn 4) else (add32 rn 4, add32 rn n)
    else if nonzero u_bit
    then (add32 (sub32 rn n) 4, rn)
    else (rn, sub32 (add32 rn n) 4)

-- The local variables of the loops. `value` is `none` until a read has set it.
pub record Transfer : Type 0 where
  pub core : ArmCore
  pub address : ℕ
  pub value : Option ℕ

-- `arm_read_word(p, address, &value)`, with the result dropped.
unfoldable pub fetch_value : Transfer → Outcome Transfer
fetch_value t = arm_read_word t.core t.address >>= λ r.
    ok (record t { value = elim r [ none ↦ t.value | some v ↦ some v ] })

-- The use of `value`.
unfoldable pub use_value : Transfer → Outcome ℕ
use_value t = elim t.value [ none ↦ fault | some v ↦ ok v ]

abbrev pub advance : Transfer → ArmCore → Transfer
advance t p = record t { core = p; address = add32 t.address 4 }

unfoldable pub load_one : Bool → ℕ → Transfer → Outcome Transfer
load_one user i t = fetch_value t >>= λ t1. use_value t1 >>= λ v. ok (
    advance t1
      (if user then arm_write_usr_register t1.core i v else arm_write_register t1.core i v))

-- The loop over the registers from `i` on, with `left` rounds to go.
unfoldable pub load_loop : ℕ → ℕ → Bool → ℕ → Transfer → Outcome Transfer
load_loop zero i user list t = ok t
load_loop (suc left) i user list t =
    (if get_bit list i == 1 then load_one user i t else ok t) >>= λ t1.
    load_loop left (i + 1) user list t1

unfoldable pub store_one : Bool → ℕ → Transfer → Outcome Transfer
store_one user i t =
    let v = if user then arm_read_usr_register t.core i else arm_read_register t.core i in
    arm_write_word t.core t.address v >>= λ r. ok (advance (record t { value = some v }) r.1)

unfoldable pub store_loop : ℕ → ℕ → Bool → ℕ → Transfer → Outcome Transfer
store_loop zero i user list t = ok t
store_loop (suc left) i user list t =
    (if get_bit list i == 1 then store_one user i t else ok t) >>= λ t1.
    store_loop left (i + 1) user list t1

-- `assert(end_address == (address - 4))`
unfoldable pub check_end : ℕ → Transfer → Outcome ArmCore
check_end end_address t = if end_address == sub32 t.address 4 then ok t.core else assertion

-- LDM (3): the pc is loaded only in a mode with a saved status.
unfoldable pub load_pc_status : Transfer → Outcome Transfer
load_pc_status t =
    fetch_value t >>= λ t1. use_value t1 >>= λ v. ok (advance t1 (arm_write_register t1.core 15 v))

-- LDM (1) and (2): `value` is set to the result of the read, 0 or -1, not to the word.
unfoldable pub load_pc : Transfer → Outcome Transfer
load_pc t = arm_read_word t.core t.address >>= λ r.
    let code : ℕ = elim r [ none ↦ minus_one | some v ↦ no_exception ] in
    ok (
      advance (record t { value = some code })
        (arm_write_register t.core 15 (bit_and code 0xFFFFFFFE)))

unfoldable pub load_multiple : ℕ → ℕ → Bool → Bool → ℕ → ArmCore → Outcome ArmCore
load_multiple start_address end_address s_bit w_bit list p =
    let user = s_bit && get_bit list 15 == 0 && not w_bit in
    load_loop 15 0 user list (record { core = p; address = start_address; value = none }) >>= λ t.
    if s_bit && get_bit list 15 == 1
    then if arm_current_mode_has_spsr t.core
      then (load_pc_status t >>= λ t1. check_end end_address t1)
      else ok t.core
    else if get_bit list 15 == 1
    then (load_pc t >>= λ t1. check_end end_address t1)
    else check_end end_address t

unfoldable pub store_multiple : ℕ → ℕ → Bool → ℕ → ArmCore → Outcome ArmCore
store_multiple start_address end_address s_bit list p =
    store_loop 16 0 s_bit list (record { core = p; address = start_address; value = none }) >>= λ t.
    check_end end_address t

-- The result is `UNDEFINED_INSTRUCTION` on every path. The writes to `Rn` in the source change a
-- local variable that is not read again.
unfoldable pub arm_load_store_multiple : ArmCore → ℕ → Outcome (ℕ × ArmCore)
arm_load_store_multiple p ins =
    let f = decode_instruction ins false in
    let status = if f.bit_20 == 1 && f.rn == 15 then arm_read_spsr p else arm_read_cpsr p in
    let range = address_range f.bit_24 f.bit_23 f.rn f.operand in
    if condition status f.cond
    then ((if nonzero f.bit_20
          then load_multiple range.0 range.1 (nonzero f.bit_22) (nonzero f.bit_21) f.operand p
          else store_multiple range.0 range.1 (nonzero f.bit_22) f.operand p)
        >>= λ p1. ok (undefined_instruction, p1))
    else ok (undefined_instruction, p)
