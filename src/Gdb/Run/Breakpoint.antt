-- ===== src/Gdb/Run/Breakpoint.antt =====
-- Where the command to continue stops.
use projet_s5_prog.Common.{
  Bool, Option, Outcome, arith, assertion, exit_program, false, fault, none, ok, refl, some, subst,
  suc, true, zero, ℕ, ◌+◌, ◌>>=◌, ◌∷◌, ◌≡◌, ◌≤◌,
}
use projet_s5_prog.Common.Ensures.{Ensures, asserts, bind-Ensures, bind-ok, exits, faults, returns}
use projet_s5_prog.Core.{ArmCore}
use projet_s5_prog.Instruction.{arm_step}
use projet_s5_prog.Core.Keeps.{IsWords}
use projet_s5_prog.Instruction.Frame.{arm_step-Keeps}
use projet_s5_prog.Instruction.Reachable.{Steps, start, then_step}
use projet_s5_prog.Gdb.Run.{
  answer_stop, cont, cont_loop, gdb_send_stop_reason, is_breakpoint, read_ahead, step, stop_text,
}
use projet_s5_prog.Text.{bytes}
use projet_s5_prog.Gdb.{Gdb, gdb_send_buffer, gdb_send_data, gdb_transmit_packet}
use projet_s5_prog.Gdb.Sent.{sent}
use projet_s5_prog.Gdb.Run.Reached.{gdb_send_stop_reason-sent, stop_answer}

-- Rounds of the loop that do not stop, from `instruction`, `e0` and `p`: their number, and the local
-- `instruction`, the exception and the processor after them. The word looked at in a round is that
-- ahead of the pc, or the one of the round before where the read fails.
pub data Rounds (instruction : Option ℕ) (e0 : ℕ) (p : ArmCore)
    : ℕ → Option ℕ → ℕ → ArmCore → Type 0 where
  no_round : Rounds instruction e0 p 0 instruction e0 p
  then_round :
      {n i e : ℕ} {seen : Option ℕ} {q : ArmCore} (r : ℕ × ArmCore)
      → Rounds instruction e0 p n seen e q
      → read_ahead seen q ≡ ok (some i)
      → is_breakpoint i ≡ false
      → arm_step q ≡ ok r
      → Rounds instruction e0 p (n + 1) (some i) r.0 r.1

pub Rounds-Steps :
    {instruction : Option ℕ} {e0 : ℕ} {p : ArmCore} {n : ℕ} {seen : Option ℕ} {e : ℕ} {q : ArmCore}
    → Rounds instruction e0 p n seen e q
    → Steps p n q
Rounds-Steps no_round = start
Rounds-Steps (then_round r rounds a b s) = then_step (Rounds-Steps rounds) s

-- The stop: after fewer rounds than the fuel, at the first breakpoint.
abbrev pub StoppedAt : Option ℕ → ℕ → ArmCore → ℕ → ℕ → ArmCore → Type 0
StoppedAt instruction e0 p fuel e q =
    (n : ℕ) × (seen : Option ℕ) × Rounds instruction e0 p n seen e q
    × (i : ℕ) × (n + 1 ≤ fuel)
    × (read_ahead seen q ≡ ok (some i))
    × (is_breakpoint i ≡ true)

-- All rounds are spent, and none of them stopped.
abbrev Spent : Option ℕ → ℕ → ArmCore → ℕ → Type 0
Spent instruction e0 p fuel =
    (seen : Option ℕ) × (e : ℕ) × (q : ArmCore) × Rounds instruction e0 p fuel seen e q

abbrev Stopped : Option ℕ → ℕ → ArmCore → ℕ → Option (ℕ × ArmCore) → Type 0
Stopped instruction e0 p fuel none = Spent instruction e0 p fuel
Stopped instruction e0 p fuel (some (e, q)) = StoppedAt instruction e0 p fuel e q

module _ (instruction : Option ℕ) (e0 : ℕ) (p : ArmCore) where
  -- The same from a state that some rounds have reached.
  cont_loop-Stopped :
      (fuel done : ℕ) (seen : Option ℕ) (e : ℕ) (q : ArmCore)
      → Rounds instruction e0 p done seen e q
      → Ensures (Stopped instruction e0 p (done + fuel)) (cont_loop fuel seen e q)
  unfolding cont_loop
  cont_loop-Stopped zero done seen e q s =
      let same : done + 0 ≡ done = omega arith in returns (seen, e, q, rw same s)
  cont_loop-Stopped (suc fuel) done seen e q s =
      let same : done + suc fuel ≡ done + 1 + fuel = omega arith in
      ahead (read_ahead seen q) refl λ i r a b g.
        rw same (cont_loop-Stopped fuel (done + 1) (some i) r.0 r.1 (then_round r s a b g))
    where
      Result : Outcome (Option (ℕ × ArmCore)) → Type 0
      Result = Ensures (Stopped instruction e0 p (done + suc fuel))

      Rest : Type 0
      Rest =
          (i : ℕ) (r : ℕ × ArmCore)
          → read_ahead seen q ≡ ok (some i)
          → is_breakpoint i ≡ false
          → arm_step q ≡ ok r
          → Result (cont_loop fuel (some i) r.0 r.1)

      stepped :
          (i : ℕ) (o : Outcome (ℕ × ArmCore))
          → read_ahead seen q ≡ ok (some i)
          → is_breakpoint i ≡ false
          → arm_step q ≡ o
          → Rest
          → Result (o >>= λ r. cont_loop fuel (some i) r.0 r.1)
      stepped i (ok r) a b g k = k i r a b g
      stepped i fault a b g k = faults
      stepped i assertion a b g k = asserts
      stepped i exit_program a b g k = exits

      tested :
          (i : ℕ) (b : Bool)
          → read_ahead seen q ≡ ok (some i)
          → is_breakpoint i ≡ b
          → Rest
          → Result (elim b [
            | true ↦ ok (some (e, q))
            | false ↦ arm_step q >>= λ r. cont_loop fuel (some i) r.0 r.1
          ])
      tested i true a g k = returns (done, seen, s, i, omega arith, a, g)
      tested i false a g k = stepped i (arm_step q) a g refl k

      ahead :
          (o : Outcome (Option ℕ))
          → read_ahead seen q ≡ o
          → Rest
          → Result (
              o >>= λ looked. elim looked [
                | none ↦ fault
                | some i ↦ elim (is_breakpoint i) [
                  | true ↦ ok (some (e, q))
                  | false ↦ arm_step q >>= λ r. cont_loop fuel (some i) r.0 r.1
                ]
              ])
      ahead (ok none) h k = faults
      ahead (ok (some i)) h k = tested i (is_breakpoint i) h refl k
      ahead fault h k = faults
      ahead assertion h k = asserts
      ahead exit_program h k = exits

-- What is known of the answer to the command to continue.
abbrev pub Answered : Gdb → ℕ → Option Gdb → Type 0
Answered g fuel none = Spent none g.target_exception g.arm fuel
Answered g fuel (some g') =
    (g'.calls ≡ stop_answer g'.target_exception ∷ g.calls)
    × StoppedAt none g.target_exception g.arm fuel g'.target_exception g'.arm

-- If the command to continue stops, then after fewer rounds than allowed, and at the first one
-- whose word is the breakpoint of the debugger: each round before looked at a word that is none
-- and made one step. The word is that ahead of the pc or, where this read fails, the word of the
-- round before. The answer, written to the connection once, tells the exception of the last step,
-- or the one from before where no step was made. If it does not stop within the rounds allowed,
-- then each of them looked at a word that is no breakpoint and made one step.
pub cont-Stopped : (g : Gdb) (fuel : ℕ) → Ensures (Answered g fuel) (cont fuel g)
unfolding cont
cont-Stopped g fuel =
    let none_done : 0 + fuel ≡ fuel = omega arith in
    let e0 = g.target_exception in
    bind-Ensures
      (subst (λ k. Ensures (Stopped none e0 g.arm k) (cont_loop fuel none e0 g.arm)) none_done
        (cont_loop-Stopped none e0 g.arm fuel 0 none e0 g.arm no_round))
      λ o h. stopped o h
  where
    answered_stop :
        (e : ℕ) (q : ArmCore)
        → answer_stop g (some (e, q))
          ≡ ok (some (sent (stop_text e) (record g { target_exception = e; arm = q })))
    answered_stop e q =
        bind-ok _ (gdb_send_stop_reason-sent (record g { target_exception = e; arm = q }))

    stopped :
        (o : Option (ℕ × ArmCore))
        → Stopped none g.target_exception g.arm fuel o
        → Ensures (Answered g fuel) (answer_stop g o)
    stopped none h = returns h
    stopped (some (e, q)) h =
        let g' = sent (stop_text e) (record g { target_exception = e; arm = q }) in
        let told : Answered g fuel (some g') = unfold gdb_transmit_packet in (refl, h) in
        rw (answered_stop e q) (returns told)

-- The answer to a single step is S05, whatever the step did, on a processor whose registers are
-- words and whose memory cells are bytes.
pub step-answer :
    (g : Gdb) → IsWords g.arm → Ensures (λ (g' : Gdb). g'.packet ≡ bytes "$S05#b8") (step g)
unfolding step gdb_send_stop_reason gdb_send_data gdb_send_buffer gdb_transmit_packet
step-answer g w = bind-Ensures (arm_step-Keeps g.arm w) λ r k. rw k.code (returns refl)
