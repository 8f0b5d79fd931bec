-- ===== src/Instruction/Reachable.antt =====
-- Runs of the simulator: what holds in every state that steps from reset lead to.
use projet_s5_prog.Common.{
  ap, arith, if◌then◌else◌, ok, refl, some, sym, true, u32, ℕ, ◌%◌, ◌+◌, ◌<◌, ◌==◌, ◌^◌, ◌∙◌, ◌≡◌,
}
use projet_s5_prog.Common.Ensures.{Ensures-ok}
use projet_s5_prog.Constants.{cpsr, svc}
use projet_s5_prog.Memory.{Memory}
use projet_s5_prog.Registers.{get_mode, read_cpsr, read_register}
use projet_s5_prog.Core.{
  ArmCore, arm_create, arm_get_cycle_count, arm_in_a_privileged_mode, arm_read_cpsr,
}
use projet_s5_prog.Core.Keeps.{IsWords}
use projet_s5_prog.Core.Reset.{arm_create_lem}
use projet_s5_prog.Instruction.{arm_step}
use projet_s5_prog.Instruction.Frame.{arm_step-Keeps}

-- `q` is reached from `p` by `n` calls of `arm_step` that return.
pub data Steps (p : ArmCore) : ℕ → ArmCore → Type 0 where
  start : Steps p 0 p
  then_step :
      {n code : ℕ} {q q' : ArmCore} → Steps p n q → arm_step q ≡ ok (code, q') → Steps p (n + 1) q'

-- What `n` steps keep.
record Kept (p : ArmCore) (n : ℕ) (q : ArmCore) : Type 0 where
  status : read_cpsr q.reg % 2 ^ 28 ≡ read_cpsr p.reg % 2 ^ 28
  cycles : q.cycle_count ≡ u32 (p.cycle_count + n)
  size : q.mem.size ≡ p.mem.size
  order : q.mem.is_big_endian ≡ p.mem.is_big_endian
  words : IsWords q

Steps-Kept : {p q : ArmCore} {n : ℕ} → IsWords p → p.cycle_count < 2 ^ 32 → Steps p n q → Kept p n q
Steps-Kept w fits start = record {
  status = refl;
  cycles = omega arith;
  size = refl;
  order = refl;
  words = w;
}
Steps-Kept w fits (then_step {q} s e) =
    let k = Steps-Kept w fits s in
    let r = Ensures-ok (arm_step-Keeps q k.words) e in
    record {
      status = r.status ∙ k.status;
      cycles = omega (arith, k.cycles, r.cycles);
      size = r.size ∙ k.size;
      order = r.order ∙ k.order;
      words = r.words;
    }

-- The processor that `arm_create` makes of registers and a memory.
pub record Reset (mem : Memory) (p : ArmCore) : Type 0 where
  pub status : p.reg.regs cpsr ≡ 0x1d3
  pub counter : p.cycle_count ≡ 0
  pub memory : p.mem ≡ mem
  pub words : IsWords p

pub arm_create-Reset :
    (contents : ℕ → ℕ) (mem : Memory) (p : ArmCore)
    → ((j : ℕ) → contents j < 2 ^ 32)
    → ((j : ℕ) → mem.adresses j < 256)
    → arm_create true (some contents) mem ≡ ok (some p)
    → Reset mem p
arm_create-Reset contents mem p words bytes made = rw (sym same) (record {
  status = status_register;
  counter = unfold arm_get_cycle_count in c.6;
  memory = c.7;
  words = record { regs_fit = entry; cells_fit = λ j. rw c.7 (bytes j) };
})
  where
    c :
        (p0 : ArmCore) × (arm_create true (some contents) mem ≡ ok (some p0))
        × (arm_read_cpsr p0 ≡ 0x1d3)
        × (get_mode p0.reg ≡ svc)
        × (arm_in_a_privileged_mode p0 ≡ true)
        × (read_register p0.reg 15 ≡ 0)
        × (arm_get_cycle_count p0 ≡ 0)
        × (p0.mem ≡ mem)
        × ((j : ℕ)
            → p0.reg.regs j ≡ (if j == 15 then 0 else if j == cpsr then 0x1d3 else contents j))
    c = arm_create_lem contents mem

    status_register : c.0.reg.regs cpsr ≡ 0x1d3
    status_register = unfold arm_read_cpsr read_cpsr in c.2

    same : c.0 ≡ p
    same = cc (c.1, made)

    entry : (j : ℕ) → c.0.reg.regs j < 2 ^ 32
    entry j = ground (arith, c.8 j, words j)

-- From reset, every sequence of steps of the simulator that return, whatever the memory holds
-- as instructions, stays in supervisor mode with the CPSR as set at reset below the four flags,
-- counts its steps modulo 2^32, and keeps the size and the byte order of the memory, the width of
-- the registers and that of the memory cells. The registers are given as words and the memory
-- as bytes.
pub arm_create-Steps :
    (contents : ℕ → ℕ) (mem : Memory) (p q : ArmCore) (n : ℕ)
    → ((j : ℕ) → contents j < 2 ^ 32)
    → ((j : ℕ) → mem.adresses j < 256)
    → arm_create true (some contents) mem ≡ ok (some p)
    → Steps p n q
    → (arm_read_cpsr q % 2 ^ 28 ≡ 0x1d3)
      × (get_mode q.reg ≡ svc)
      × (arm_get_cycle_count q ≡ u32 n)
      × (q.mem.size ≡ mem.size)
      × (q.mem.is_big_endian ≡ mem.is_big_endian)
      × ((j : ℕ) → q.reg.regs j < 2 ^ 32)
      × ((j : ℕ) → q.mem.adresses j < 256)
arm_create-Steps contents mem p q n words bytes made steps = (
  unfold arm_read_cpsr read_cpsr in status,
  unfold get_mode read_cpsr in omega (arith, status),
  unfold arm_get_cycle_count in omega (arith, kept.cycles, made_reset.counter),
  kept.size ∙ ap (λ m. m.size) made_reset.memory,
  kept.order ∙ ap (λ m. m.is_big_endian) made_reset.memory,
  kept.words.regs_fit,
  kept.words.cells_fit,
)
  where
    made_reset : Reset mem p
    made_reset = arm_create-Reset contents mem p words bytes made

    kept : Kept p n q
    kept = Steps-Kept made_reset.words (omega (arith, made_reset.counter)) steps

    status : q.reg.regs cpsr % 2 ^ 28 ≡ 0x1d3
    status = unfold read_cpsr in (kept.status ∙ ap (λ x. x % 2 ^ 28) made_reset.status)
