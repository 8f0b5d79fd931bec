-- ===== src/Simulator/Listeners/Interrupts.antt =====
-- What the interrupts that are received do to the processor.
use projet_s5_prog.Common.{
  Bool, Bool-cases, List, [], ap, arith, false, if◌then◌else◌, inl, inr, ok, refl, some, suc, sym,
  zero, ℕ, ◌&&◌, ◌++◌, ◌<◌, ◌==◌, ◌||◌, ◌∙◌, ◌∷◌, ◌≡◌,
}
use projet_s5_prog.Constants.{cpsr, irq, reset}
use projet_s5_prog.Registers.{write_cpsr, write_register, write_usr_register}
use projet_s5_prog.Core.{ArmCore, arm_exception, arm_write_cpsr, arm_write_usr_register}
use projet_s5_prog.Common.Ensures.{bind-ok}
use projet_s5_prog.Text.{length}
use projet_s5_prog.Network.{Network}
use projet_s5_prog.Network.Delivery.{Delivers, Serves, at_end, byte, next_one, no_more}
use projet_s5_prog.Simulator.Listeners.{
  Server, create_server, irq_listener, read_interrupts, serve_interrupts,
}

abbrev pub interrupted : List ℕ → ArmCore → ArmCore
interrupted [] p = p
interrupted (irq ∷ rest) p = interrupted rest (arm_exception p irq)

abbrev pub has_reset : List ℕ → Bool
has_reset [] = false
has_reset (irq ∷ rest) = irq == reset || has_reset rest

abbrev pub joined : List (List ℕ) → List ℕ
joined [] = []
joined (bs ∷ rest) = bs ++ joined rest

-- The registers, where a reset was or was not among the interrupts.
abbrev pub after_interrupts : Bool → (ℕ → ℕ) → ℕ → ℕ
after_interrupts seen regs j =
    if seen && j == 15 then 0 else if seen && j == cpsr then 0x1d3 else regs j

arm_exception-regs :
    (p : ArmCore) (irq : ℕ)
    → ((arm_exception p irq).mem ≡ p.mem)
      × ((arm_exception p irq).cycle_count ≡ p.cycle_count)
      × ((j : ℕ) → (arm_exception p irq).reg.regs j ≡ after_interrupts (irq == reset) p.reg.regs j)
unfolding arm_exception arm_write_usr_register arm_write_cpsr write_usr_register write_register
    write_cpsr
arm_exception-regs p irq = elim (Bool-cases (irq == reset)) [
  | inl x ↦ rw x (refl, refl, λ j. ground arith)
  | inr x ↦ rw x (refl, refl, λ j. refl)
]

-- What interrupts leave.
abbrev pub Interrupted : List ℕ → ArmCore → ArmCore → Type 0
Interrupted bs p q =
    (q.mem ≡ p.mem)
    × (q.cycle_count ≡ p.cycle_count)
    × ((j : ℕ) → q.reg.regs j ≡ after_interrupts (has_reset bs) p.reg.regs j)

pub interrupted-Interrupted : (bs : List ℕ) (p : ArmCore) → Interrupted bs p (interrupted bs p)
interrupted-Interrupted [] p = (refl, refl, λ j. refl)
interrupted-Interrupted (irq ∷ rest) p =
    let one = arm_exception-regs p irq in
    let more = interrupted-Interrupted rest (arm_exception p irq) in
    (more.0 ∙ one.0, more.1 ∙ one.1, λ j. ground (arith, one.2 j, more.2 j))

interrupted-append :
    (bs cs : List ℕ) (p : ArmCore) → interrupted (bs ++ cs) p ≡ interrupted cs (interrupted bs p)
interrupted-append [] cs p = refl
interrupted-append (irq ∷ bs) cs p = interrupted-append bs cs (arm_exception p irq)

module _ {W : Type 0} (net : Network W) (host : Bool) where
  -- No connection gives more than `fuel` bytes.
  abbrev pub Short : ℕ → List (List ℕ) → Type 0
  Short fuel [] = Unit
  Short fuel (bs ∷ rest) = (length bs < fuel) × Short fuel rest

  read_interrupts-Delivers :
      (fuel connection : ℕ) (p : ArmCore) {w w' : W} (bs : List ℕ)
      → Delivers net connection w bs w'
      → length bs < fuel
      → read_interrupts net host fuel connection p w ≡ ok (some (interrupted bs p, w'))
  unfolding read_interrupts
  read_interrupts-Delivers zero connection p bs d h = absurd (omega arith)
  read_interrupts-Delivers (suc fuel) connection p _ (at_end e) h = bind-ok _ e
  read_interrupts-Delivers (suc fuel) connection p _ (byte {b} {bs} e d) h =
      bind-ok _ e ∙ read_interrupts-Delivers fuel connection (arm_exception p b) bs d (omega arith)

  pub serve_interrupts-Serves :
      (fuel socket : ℕ) (p : ArmCore) {w w' : W} (all : List (List ℕ))
      → Serves net socket w all w'
      → Short fuel all
      → serve_interrupts net host (length all) fuel socket p w
        ≡ ok (some (interrupted (joined all) p, w'))
  unfolding serve_interrupts
  serve_interrupts-Serves fuel socket p _ no_more h = refl
  serve_interrupts-Serves fuel socket p {w} {w'} _ (next_one {w2} {connection} {bs} {rest} a d s)
        (h, k) =
      bind-ok _ a
      ∙ bind-ok _ (read_interrupts-Delivers fuel connection p bs d h)
      ∙ serve_interrupts-Serves fuel socket (interrupted bs p) rest s k
      ∙ ap (λ q. ok (some (q, w'))) (sym (interrupted-append bs (joined rest) p))

  -- The listener of the interrupts, on a network that gives some connections with some bytes, takes
  -- all the bytes, in as many rounds as connections. If one of them is the number of the reset, the
  -- pc is 0 and the CPSR 0x1d3 afterwards. All other registers, the memory and the cycle counter
  -- stay, and without a reset these two stay too: the other interrupts do nothing.
  pub irq_listener-Serves :
      (fuel irq_port : ℕ) (p : ArmCore) (w w1 w' : W) (server : Server) (all : List (List ℕ))
      → create_server net host irq_port w ≡ ok (server, w1)
      → Serves net server.socket w1 all w'
      → Short fuel all
      → (q : ArmCore) × (irq_listener net host (length all) fuel irq_port p w ≡ ok (some (q, w')))
        × (q.mem ≡ p.mem)
        × (q.cycle_count ≡ p.cycle_count)
        × ((j : ℕ) → q.reg.regs j ≡ after_interrupts (has_reset (joined all)) p.reg.regs j)
  unfolding irq_listener
  irq_listener-Serves fuel irq_port p w w1 w' server all made s h =
      let k = interrupted-Interrupted (joined all) p in
      (
        interrupted (joined all) p,
        bind-ok _ made ∙ serve_interrupts-Serves fuel server.socket p all s h,
        k.0,
        k.1,
        k.2,
      )
