-- ===== src/Instruction/Frame.antt =====
-- What one step of the simulator keeps, whatever the instruction.
use projet_s5_prog.Common.{
  Bool, Option, Outcome, arith, false, if◌then◌else◌, none, nonzero, refl, some, sub32, true, u32,
  ℕ, ◌!=◌, ◌%◌, ◌&&◌, ◌+◌, ◌<◌, ◌==◌, ◌^◌, ◌||◌, ◌≡◌,
}
use projet_s5_prog.Common.Ensures.{
  Ensures, Safe-Ensures, bind-Ensures, if-Ensures, returns, some_result, weaken-Ensures,
}
use projet_s5_prog.Constants.{cpsr}
use projet_s5_prog.Util.{get_bit, get_bits}
use projet_s5_prog.Registers.{read_cpsr, read_spsr}
use projet_s5_prog.Core.{
  ArmCore, arm_exception, arm_fetch, arm_read_cpsr, arm_read_register, arm_read_spsr,
  arm_write_register,
}
use projet_s5_prog.Core.Keeps.{IsWords, Keeps, Keeps-refl, Keeps-trans, arm_write_register-Keeps}
use projet_s5_prog.Core.Access.{KeepsRun}
use projet_s5_prog.DataProcessing.Alu.{arm_data_processing-Keeps}
use projet_s5_prog.LoadStore.MiscKept.{arm_load_store-Keeps}
use projet_s5_prog.LoadStore.Multiple.Ends.{arm_load_store_multiple-Safe}
use projet_s5_prog.Branch.{arm_branch, arm_coprocessor_others_swi, arm_miscellaneous}
use projet_s5_prog.Instruction.{
  arm_execute_instruction, arm_step, dispatch, execute_fetched, then_core,
}
use projet_s5_prog.Memory.{memory_read_word}

pick : {A : Type 0} (P : A → Type 0) (b : Bool) (x y : A) → P x → P y → P (if b then x else y)
pick P true x y h g = h
pick P false x y h g = g

module _ {p : ArmCore} (w : IsWords p) where
  arm_read_cpsr-lt : arm_read_cpsr p < 2 ^ 32
  unfolding arm_read_cpsr read_cpsr
  arm_read_cpsr-lt = w.regs_fit cpsr

  arm_branch-Keeps : (ins : ℕ) → Keeps p (arm_branch p ins).1
  unfolding arm_branch
  arm_branch-Keeps ins =
      let rest = branch_link ((get_bit ins 24) != 0) in
      pick (λ (r : ℕ × ArmCore). Keeps p r.1) (get_bits ins 31 28 != 0xF) _ _
        (Keeps-trans rest (arm_write_register-Keeps rest.words 15 _ (omega arith))) (Keeps-refl w)
    where
      branch_link :
          (b : Bool)
          → Keeps p (if b then arm_write_register p 14 (sub32 (arm_read_register p 15) 4) else p)
      branch_link true = arm_write_register-Keeps w 14 _ (omega arith)
      branch_link false = Keeps-refl w

  arm_miscellaneous-Keeps : (ins : ℕ) → Keeps p (arm_miscellaneous p ins).1
  unfolding arm_miscellaneous
  arm_miscellaneous-Keeps ins =
      pick (λ (r : ℕ × ArmCore). Keeps p r.1) (get_bits ins 21 20 == 0) _ _
        (arm_write_register-Keeps w (get_bits ins 15 12) _ (
          pick (λ v. v < 2 ^ 32) (get_bit ins 22 != 0) (arm_read_spsr p) (arm_read_cpsr p)
            (unfold arm_read_spsr read_spsr in ground arith) arm_read_cpsr-lt))
        (Keeps-refl w)

  then_core-Keeps :
      {A : Type 0} {o : Outcome (A × ArmCore)} → KeepsRun p o → Ensures (Keeps p) (then_core o)
  then_core-Keeps h = bind-Ensures h λ r k. returns k

  pub dispatch-Keeps : (ins : ℕ) → Ensures (Keeps p) (dispatch p ins)
  unfolding dispatch
  dispatch-Keeps ins =
      let typeop = get_bits ins 27 25 in
      let processing = then_core-Keeps (arm_data_processing-Keeps ins w) in
      let transfer = then_core-Keeps (arm_load_store-Keeps w ins) in
      if-Ensures (typeop == 0) _ _
        (if-Ensures (get_bit ins 4 == 0 || get_bit ins 7 == 0) _ _ processing (
          if-Ensures (get_bit ins 7 == 1 && get_bit ins 4 == 1) _ _ transfer
            (returns (arm_miscellaneous-Keeps ins))))
        (if-Ensures (typeop == 1) _ _ processing (
          if-Ensures (typeop == 2 || typeop == 3) _ _ transfer (
            if-Ensures (typeop == 4) _ _
              (then_core-Keeps (Safe-Ensures (arm_load_store_multiple-Safe p ins w)))
              (if-Ensures (typeop == 5) _ _ (returns (arm_branch-Keeps ins)) (
                bind-Ensures (some_result (arm_coprocessor_others_swi p ins))
                  λ r e. returns (Keeps-refl w))))))

-- From `p` to `q` by one step with the result `code`.
pub record KeepsStep (p : ArmCore) (r : ℕ × ArmCore) : Type 0 where
  pub code : r.0 ≡ 0
  pub status : read_cpsr r.1.reg % 2 ^ 28 ≡ read_cpsr p.reg % 2 ^ 28
  pub cycles : r.1.cycle_count ≡ u32 (p.cycle_count + 1)
  pub size : r.1.mem.size ≡ p.mem.size
  pub order : r.1.mem.is_big_endian ≡ p.mem.is_big_endian
  pub words : IsWords r.1

-- The processor with its counter moved, on which the fetch works.
abbrev counted : ArmCore → ArmCore
counted p = record p { cycle_count = u32 (p.cycle_count + 1) }

fetch-Keeps :
    {p : ArmCore}
    → IsWords p
    → Ensures (λ (r : Option ℕ × ArmCore). Keeps (counted p) r.1) (arm_fetch p)
unfolding arm_fetch
fetch-Keeps {p} w =
    let w1 : IsWords (counted p) = record { regs_fit = w.regs_fit; cells_fit = w.cells_fit } in
    bind-Ensures (some_result (memory_read_word p.mem (sub32 (arm_read_register (counted p) 15) 4)))
      λ r u. returns (arm_write_register-Keeps w1 15 _ (omega arith))

execute_fetched-Keeps :
    {p : ArmCore} (fetched : Option ℕ)
    → IsWords p
    → Ensures (λ (r : ℕ × ArmCore). (r.0 ≡ 0) × Keeps p r.1) (execute_fetched fetched p)
unfolding execute_fetched
execute_fetched-Keeps none w = returns (refl, Keeps-refl w)
execute_fetched-Keeps (some ins) w =
    if-Ensures _ _ _ (bind-Ensures (dispatch-Keeps w ins) λ q k. returns (refl, k))
      (returns (refl, Keeps-refl w))

-- A step that returns, on registers that are words and cells that are bytes, returns 0 and adds 1
-- to the cycle counter modulo 2^32; the CPSR below the flags and the size and the byte order of
-- the memory stay, and registers and cells keep their width.
pub arm_step-Keeps : (p : ArmCore) → IsWords p → Ensures (KeepsStep p) (arm_step p)
unfolding arm_step arm_execute_instruction
arm_step-Keeps p w =
    bind-Ensures
      (bind-Ensures (fetch-Keeps w)
        λ f k. weaken-Ensures (execute_fetched-Keeps f.0 k.words) λ r e. (e.0, Keeps-trans k e.1))
      λ r e. returns (ended r e)
  where
    ended :
        (r : ℕ × ArmCore)
        → (r.0 ≡ 0) × Keeps (counted p) r.1
        → KeepsStep p (r.0, (if nonzero r.0 then arm_exception r.1 r.0 else r.1))
    ended r e = rw e.0 (record {
      code = refl;
      status = e.1.status;
      cycles = e.1.cycles;
      size = e.1.size;
      order = e.1.order;
      words = e.1.words;
    })
