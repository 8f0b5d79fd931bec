-- ===== src/Decode/Condition.antt =====
-- `condition` against the table of the ARM manual.
use projet_s5_prog.Common.{
  Bool, arith, if◌then◌else◌, not, refl, suc, true, zero, ℕ, ◌%◌, ◌&&◌, ◌/◌, ◌<◌, ◌==◌, ◌↔◌, ◌≡◌,
  ◌≢◌,
}
use projet_s5_prog.Constants.{z_bit}
use projet_s5_prog.Util.{get_bit}
use projet_s5_prog.Decode.{condition}

-- The manual's table: the test of bits 3 to 1 of the condition, which bit 0 negates.
abbrev pub base_test : ℕ → ℕ → Bool
base_test k word =
    let v = get_bit word 28 == 1 in
    let c = get_bit word 29 == 1 in
    let z = get_bit word 30 == 1 in
    let n = get_bit word 31 == 1 in
    if k == 0
    then z
    else if k == 1
    then c
    else if k == 2
    then n
    else if k == 3
    then v
    else if k == 4
    then c && not z
    else if k == 5
    then get_bit word 31 == get_bit word 28
    else if k == 6
    then not z && get_bit word 31 == get_bit word 28
    else true

abbrev pub condition_passed : ℕ → ℕ → Bool
condition_passed word cond =
    if cond % 2 == 0 then base_test (cond / 2) word else not (base_test (cond / 2) word)

-- For every condition but HI, number 8, `condition` gives what the table of the manual gives: the
-- test of bits 3 to 1 on the flags, negated if bit 0 is set, and false for 15.
pub condition_lem :
    (word cond : ℕ) → cond < 16 → cond ≢ 8 → condition word cond ≡ condition_passed word cond
unfolding condition
condition_lem word zero h ne = ground arith
condition_lem word (suc zero) h ne = ground arith
condition_lem word (suc (suc zero)) h ne = ground arith
condition_lem word (suc (suc (suc zero))) h ne = ground arith
condition_lem word (suc (suc (suc (suc zero)))) h ne = ground arith
condition_lem word (suc (suc (suc (suc (suc zero))))) h ne = ground arith
condition_lem word (suc (suc (suc (suc (suc (suc zero)))))) h ne = ground arith
condition_lem word (suc (suc (suc (suc (suc (suc (suc zero))))))) h ne = ground arith
condition_lem word (suc (suc (suc (suc (suc (suc (suc (suc zero)))))))) h ne = absurd (ne refl)
condition_lem word (suc (suc (suc (suc (suc (suc (suc (suc (suc zero))))))))) h ne = ground arith
condition_lem word (suc (suc (suc (suc (suc (suc (suc (suc (suc (suc zero)))))))))) h ne =
    ground arith
condition_lem word (suc (suc (suc (suc (suc (suc (suc (suc (suc (suc (suc zero))))))))))) h ne =
    ground arith
condition_lem word (suc (suc (suc (suc (suc (suc (suc (suc (suc (suc (suc (suc zero)))))))))))) h
      ne =
    ground arith
condition_lem word
      (suc (suc (suc (suc (suc (suc (suc (suc (suc (suc (suc (suc (suc zero))))))))))))) h ne =
    ground arith
condition_lem word
      (suc (suc (suc (suc (suc (suc (suc (suc (suc (suc (suc (suc (suc (suc zero)))))))))))))) h
      ne =
    ground arith
condition_lem word
      (suc (suc (suc (suc (suc (suc (suc (suc (suc (suc (suc (suc (suc (suc (suc zero)))))))))))))))
      h ne =
    ground arith
condition_lem word
      (suc
        (suc (suc (suc (suc (suc (suc (suc (suc (suc (suc (suc (suc (suc (suc (suc n))))))))))))))))
      h ne =
    absurd (omega arith)

-- For the condition HI, number 8, `condition` agrees with the table of the manual exactly if the Z
-- flag is clear.
pub condition-hi :
    (word : ℕ) → (condition word 8 ≡ condition_passed word 8) ↔ (get_bit word z_bit ≡ 0)
unfolding condition
condition-hi word = ground arith
