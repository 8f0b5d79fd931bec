-- ===== src/LoadStore/Multiple/Ends.antt =====
-- LDM and STM as a whole: the assertion at their end, and what they keep of the processor.
use projet_s5_prog.Common.{
  Bool, Option, Outcome, ap, arith, assertion, bit_and, false, if◌then◌else◌, minus_one, none,
  nonzero, ok, some, sub32, sym, true, u32, ℕ, ◌&&◌, ◌*◌, ◌+◌, ◌<◌, ◌==◌, ◌>>=◌, ◌^◌, ◌∙◌, ◌≡◌,
}
use projet_s5_prog.Common.Ensures.{Safe, bind-Safe, finishes, if-Safe, if-Safe_under}
use projet_s5_prog.Constants.{no_exception}
use projet_s5_prog.Util.{get_bit}
use projet_s5_prog.Core.{ArmCore, arm_write_register}
use projet_s5_prog.Core.Keeps.{IsWords, Keeps, Keeps-refl, arm_write_register-Keeps}
use projet_s5_prog.Core.Access.{arm_read_word-Safe}
use projet_s5_prog.LoadStore.Multiple.{
  Transfer, address_range, advance, arm_load_store_multiple, check_end, load_multiple, load_pc,
  load_pc_status, store_multiple,
}
use projet_s5_prog.LoadStore.Multiple.Count.{number_set_bits_in-ones, ones, ones-le}
use projet_s5_prog.LoadStore.Multiple.Loops.{
  Progress, advance-Progress, fetch_value-Progress, load_loop-Progress, store_loop-Progress,
  use_value-lt,
}
use projet_s5_prog.LoadStore.Decoding.{decode_instruction}

-- The two addresses lie as far apart as the list has registers.
range_end :
    (p_bit u_bit rn list : ℕ)
    → rn < 16
    → (address_range p_bit u_bit rn list).1
      ≡ sub32 (u32 ((address_range p_bit u_bit rn list).0 + 4 * ones 16 0 list)) 4
unfolding address_range
range_end p_bit u_bit rn list h = ground (arith, number_set_bits_in-ones list, ones-le 16 0 list)

range_start : (p_bit u_bit rn list : ℕ) → rn < 16 → (address_range p_bit u_bit rn list).0 < 2 ^ 32
unfolding address_range
range_start p_bit u_bit rn list h = ground arith

ones-last : (list : ℕ) → ones 16 0 list ≡ ones 15 0 list + get_bit list 15
ones-last list = omega arith

module _ {p : ArmCore} where
  check_end-Safe :
      {a : ℕ} {t : Transfer} (end_address : ℕ)
      → end_address ≡ sub32 (u32 a) 4
      → Progress p a t
      → Safe (Keeps p) (check_end end_address t)
  unfolding check_end
  check_end-Safe {a} {t} end_address e h =
      let same : end_address ≡ sub32 t.address 4 = e ∙ ap (λ x. sub32 x 4) (sym h.reached) in
      at_end (end_address == sub32 t.address 4) (ground arith)
    where
      at_end : (b : Bool) → b ≡ true → Safe (Keeps p) (if b then ok t.core else assertion)
      at_end true e = finishes h.kept
      at_end false e = absurd cc

  load_pc_status-Progress :
      {a : ℕ} {t : Transfer} → Progress p a t → Safe (Progress p (a + 4)) (load_pc_status t)
  unfolding load_pc_status
  load_pc_status-Progress h = bind-Safe (fetch_value-Progress h) λ t1 h1.
      bind-Safe (use_value-lt h1)
        λ v hv. finishes (advance-Progress h1 (arm_write_register-Keeps h1.kept.words 15 v hv))

  load_pc-Progress : {a : ℕ} {t : Transfer} → Progress p a t → Safe (Progress p (a + 4)) (load_pc t)
  unfolding load_pc
  load_pc-Progress {a} {t} h =
      bind-Safe (arm_read_word-Safe h.kept.words t.address) λ r e. finishes (after r)
    where
      code : Option ℕ → ℕ
      code r = elim r [ none ↦ minus_one | some v ↦ no_exception ]

      coded : (v : ℕ) → v < 2 ^ 32 → Progress p a (record t { value = some v })
      coded v fits = record { kept = h.kept; word = fits; reached = h.reached }

      after :
          (r : Option ℕ)
          → Progress p (a + 4) (
              advance
                (record t { value = some (code r) })
                (arm_write_register t.core 15 (bit_and (code r) 0xFFFFFFFE)))
      after none =
          advance-Progress (coded minus_one (omega arith))
            (arm_write_register-Keeps h.kept.words 15 (bit_and minus_one 0xFFFFFFFE) (omega arith))
      after (some v) =
          advance-Progress (coded 0 (omega arith))
            (arm_write_register-Keeps h.kept.words 15 0 (omega arith))

  begin :
      {start : ℕ}
      → IsWords p
      → start < 2 ^ 32
      → Progress p start (record { core = p; address = start; value = none })
  begin w fits = record { kept = Keeps-refl w; word = tt; reached = omega arith }

  -- The end of LDM: the pc is loaded or not, and the address is compared.
  module _ (start end_address list : ℕ)
      (meets : end_address ≡ sub32 (u32 (start + 4 * ones 16 0 list)) 4) where
    last_round :
        (load : Outcome Transfer)
        → get_bit list 15 ≡ 1
        → Safe (Progress p (start + 4 * ones 15 0 list + 4)) load
        → Safe (Keeps p) (load >>= λ t1. check_end end_address t1)
    last_round load one h =
        bind-Safe h λ t1 h1. check_end-Safe end_address (omega (arith, ones-last list)) h1

    without_pc :
        {t : Transfer}
        → get_bit list 15 ≡ 0
        → Progress p (start + 4 * ones 15 0 list) t
        → Safe (Keeps p) (check_end end_address t)
    without_pc zero_bit h = check_end-Safe end_address (omega (arith, ones-last list)) h

    load_multiple-Safe :
        (s_bit w_bit : Bool)
        → IsWords p
        → start < 2 ^ 32
        → Safe (Keeps p) (load_multiple start end_address s_bit w_bit list p)
    unfolding load_multiple
    load_multiple-Safe s_bit w_bit w fits =
        bind-Safe (load_loop-Progress 15 0 _ list (begin w fits)) λ t h.
          if-Safe_under (s_bit && get_bit list 15 == 1) _ _
            (λ e.
              if-Safe _ _ _ (last_round _ (ground arith) (load_pc_status-Progress h))
                (finishes h.kept))
            λ ne.
              if-Safe_under (get_bit list 15 == 1) _ _
                (λ e. last_round _ (ground arith) (load_pc-Progress h))
                λ n. without_pc (ground arith) h

    store_multiple-Safe :
        (s_bit : Bool)
        → IsWords p
        → start < 2 ^ 32
        → Safe (Keeps p) (store_multiple start end_address s_bit list p)
    unfolding store_multiple
    store_multiple-Safe s_bit w fits =
        bind-Safe (store_loop-Progress 16 0 s_bit list (begin w fits))
          λ t h. check_end-Safe end_address meets h

-- LDM and STM never fail the assertion on the end address: on words and bytes they return, unless
-- an access leaves the memory or an unset value is used. They keep the CPSR below the flags, the
-- cycle counter, the size and the byte order of the memory, and the width of registers and cells.
pub arm_load_store_multiple-Safe :
    (p : ArmCore) (ins : ℕ) → IsWords p → Safe (λ r. Keeps p r.1) (arm_load_store_multiple p ins)
unfolding arm_load_store_multiple
arm_load_store_multiple-Safe p ins w =
    let f = decode_instruction ins false in
    let range = address_range f.bit_24 f.bit_23 f.rn f.operand in
    let meets =
      range_end f.bit_24 f.bit_23 f.rn f.operand (unfold decode_instruction in omega arith) in
    let fits : range.0 < 2 ^ 32 =
      range_start f.bit_24 f.bit_23 f.rn f.operand (unfold decode_instruction in omega arith) in
    if-Safe _ _ _
      (bind-Safe {Q = Keeps p}
        (if-Safe _ _ _
          (load_multiple-Safe range.0 range.1 f.operand meets (nonzero f.bit_22) (nonzero f.bit_21)
            w fits)
          (store_multiple-Safe range.0 range.1 f.operand meets (nonzero f.bit_22) w fits))
        λ q k. finishes k)
      (finishes (Keeps-refl w))
