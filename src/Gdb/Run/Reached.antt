-- ===== src/Gdb/Run/Reached.antt =====
-- The command to continue ends where a breakpoint is reached.
use projet_s5_prog.Common.{
  Option, Outcome, arith, false, none, ok, refl, some, sub32, suc, true, zero, ℕ, ◌+◌, ◌<◌, ◌∙◌,
  ◌∷◌, ◌≡◌,
}
use projet_s5_prog.Core.{ArmCore, arm_read_register, arm_read_word}
use projet_s5_prog.Instruction.{arm_step}
use projet_s5_prog.Gdb.{Call, Gdb, checksum, framed, gdb_send_data, gdb_transmit_packet, rio_writen}
use projet_s5_prog.Gdb.Run.{
  cont, cont_loop, gdb_send_stop_reason, is_breakpoint, read_ahead, stop_text,
}
use projet_s5_prog.Common.Ensures.{bind-ok}
use projet_s5_prog.Gdb.Sent.{gdb_send_buffer-fits, sent}

-- The word ahead of the pc.
abbrev pub ahead_word : ArmCore → Outcome (Option ℕ)
ahead_word p = arm_read_word p (sub32 (arm_read_register p 15) 4)

-- From the first processor, that many steps lead to the last one, which is the first to have a
-- breakpoint ahead of the pc.
pub data RunsTo : ArmCore → ℕ → ArmCore → Type 0 where
  here : {p : ArmCore} (i : ℕ) → ahead_word p ≡ ok (some i) → is_breakpoint i ≡ true → RunsTo p 0 p
  after :
      {p q : ArmCore} {n : ℕ} (i : ℕ) (r : ℕ × ArmCore)
      → ahead_word p ≡ ok (some i)
      → is_breakpoint i ≡ false
      → arm_step p ≡ ok r
      → RunsTo r.1 n q
      → RunsTo p (n + 1) q

-- The packet that says why the processor stopped, written to the connection.
abbrev pub stop_answer : ℕ → Call
stop_answer e = rio_writen (framed (stop_text e) (checksum (stop_text e) 0))

-- The exception that the debugger is told: that of the last step, or the one from before.
abbrev pub last_exception : {p q : ArmCore} {n : ℕ} → ℕ → RunsTo p n q → ℕ
last_exception e (here i a b) = e
last_exception e (after i r a b s rest) = last_exception r.0 rest

read_ahead-word :
    (p : ArmCore) (seen : Option ℕ) (i : ℕ)
    → ahead_word p ≡ ok (some i)
    → read_ahead seen p ≡ ok (some i)
unfolding read_ahead
read_ahead-word p seen i a = rw a refl

cont_loop-RunsTo :
    (fuel : ℕ) {p q : ArmCore} {n : ℕ} (seen : Option ℕ) (e : ℕ) (r : RunsTo p n q)
    → n < fuel
    → cont_loop fuel seen e p ≡ ok (some (last_exception e r, q))
unfolding cont_loop
cont_loop-RunsTo zero seen e r h = absurd (omega arith)
cont_loop-RunsTo (suc fuel) {p} seen e (here i a b) h =
    bind-ok _ (read_ahead-word p seen i a) ∙ rw b refl
cont_loop-RunsTo (suc fuel) {p} seen e (after i r a b s rest) h =
    bind-ok _ (read_ahead-word p seen i a)
    ∙ rw b (bind-ok _ s ∙ cont_loop-RunsTo fuel (some i) r.0 rest (omega arith))

pub gdb_send_stop_reason-sent :
    (g : Gdb) → gdb_send_stop_reason g ≡ ok (sent (stop_text g.target_exception) g)
unfolding gdb_send_stop_reason gdb_send_data
gdb_send_stop_reason-sent g = gdb_send_buffer-fits (stop_text g.target_exception) g (ground arith)

-- If steps lead to a breakpoint, the command to continue stops there, given one round more than
-- the steps. Its answer, written to the connection once, tells the exception of the last step, or
-- the one from before where no step was made.
pub cont-RunsTo :
    (g : Gdb) (fuel n : ℕ) (q : ArmCore) (r : RunsTo g.arm n q)
    → n < fuel
    → (g' : Gdb) × (cont fuel g ≡ ok (some g'))
      × (g'.arm ≡ q)
      × (g'.target_exception ≡ last_exception g.target_exception r)
      × (g'.calls ≡ stop_answer (last_exception g.target_exception r) ∷ g.calls)
unfolding cont
cont-RunsTo g fuel n q r h =
    let e = last_exception g.target_exception r in
    let g1 = record g { target_exception = e; arm = q } in
    (
      sent (stop_text e) g1,
      bind-ok _ (cont_loop-RunsTo fuel none g.target_exception r h)
          ∙ bind-ok _ (gdb_send_stop_reason-sent g1),
      (unfold gdb_transmit_packet in refl),
      (unfold gdb_transmit_packet in refl),
      (unfold gdb_transmit_packet in refl),
    )
