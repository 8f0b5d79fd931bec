-- ===== src/Gdb/Packet/Kept.antt =====
-- What every packet keeps: the shape of the memory and the width of the values.
use projet_s5_prog.Common.{Bool, List, Option, Outcome, [], if◌then◌else◌, none, some, ℕ, ◌==◌, ◌∷◌}
use projet_s5_prog.Common.Ensures.{
  Ensures, Ensures-ok, bind-Ensures, faults, if-Ensures, returns, some_result, weaken-Ensures,
}
use projet_s5_prog.Text.{
  Scan, atoi, bytes, c_string, found, has_prefix, missing, overflow, same_text,
}
use projet_s5_prog.Core.{ArmCore}
use projet_s5_prog.Core.Keeps.{IsWords}
use projet_s5_prog.Gdb.{Gdb, gdb_require_retransmission, gdb_send_ack, gdb_send_data}
use projet_s5_prog.Gdb.Run.{cont, gdb_send_stop_reason, step, stop_text}
use projet_s5_prog.Gdb.Run.Breakpoint.{Answered, Rounds-Steps, cont-Stopped}
use projet_s5_prog.Gdb.Access.{write_general_registers, write_memory_binary, write_register}
use projet_s5_prog.Gdb.Access.Kept.{
  KeepsShape, SameShape, SameShape-refl, SameShape-trans, data-KeepsShape,
  read_general_registers-KeepsShape, read_memory-KeepsShape, read_register-KeepsShape,
  write_general_registers-KeepsShape, write_memory_binary-KeepsShape, write_register-KeepsShape,
}
use projet_s5_prog.Gdb.Packet.{
  answered, check_digits, checked, gdb_packet_analysis, gdb_packet_command, handle, kill_request,
  payload, query, set_thread,
}
use projet_s5_prog.Instruction.Frame.{KeepsStep, arm_step-Keeps}
use projet_s5_prog.Instruction.Reachable.{Steps, start, then_step}

-- The same where the command to continue may run out of rounds.
abbrev pub KeepsAny : Gdb → Option Gdb → Type 0
KeepsAny g none = Unit
KeepsAny g (some g') = SameShape g.arm g'.arm

KeepsStep-SameShape : {p : ArmCore} (r : ℕ × ArmCore) → KeepsStep p r → SameShape p r.1
KeepsStep-SameShape r k = record { size = k.size; order = k.order; words = k.words }

Steps-SameShape : {p q : ArmCore} {n : ℕ} → IsWords p → Steps p n q → SameShape p q
Steps-SameShape w start = SameShape-refl w
Steps-SameShape w (then_step {q} s e) =
    let k = Steps-SameShape w s in
    SameShape-trans k (KeepsStep-SameShape _ (Ensures-ok (arm_step-Keeps q k.words) e))

answered-KeepsShape :
    (g : Gdb) (o : Outcome Gdb) → KeepsShape g o → Ensures (KeepsAny g) (answered o)
answered-KeepsShape g o k = bind-Ensures k λ g' s. returns s

module _ (g : Gdb) (w : IsWords g.arm) where
  step-KeepsShape : KeepsShape g (step g)
  unfolding step gdb_send_stop_reason
  step-KeepsShape = bind-Ensures (arm_step-Keeps g.arm w) λ r k.
      data-KeepsShape g (stop_text r.0) (record g { target_exception = r.0; arm = r.1 })
        (KeepsStep-SameShape r k)

  cont-KeepsShape : (fuel : ℕ) → Ensures (KeepsAny g) (cont fuel g)
  cont-KeepsShape fuel = weaken-Ensures (cont-Stopped g fuel) shape
    where
      shape : (o : Option Gdb) → Answered g fuel o → KeepsAny g o
      shape none h = tt
      shape (some g') h = Steps-SameShape w (Rounds-Steps h.1.2)

  sent-KeepsShape : (text : List ℕ) → KeepsShape g (gdb_send_data text g)
  sent-KeepsShape text = data-KeepsShape g text g (SameShape-refl w)

  query-KeepsShape : (data_ : List ℕ) → KeepsShape g (query data_ g)
  unfolding query
  query-KeepsShape data_ =
      let s = c_string data_ in
      if-Ensures (same_text s (bytes "Offsets")) _ _ (sent-KeepsShape (bytes "Text=0;Data=0;Bss=0"))
        (if-Ensures (has_prefix (bytes "Supported") s) _ _
          (sent-KeepsShape (bytes "PacketSize=400"))
          (if-Ensures (same_text s (bytes "TStatus")) _ _ (sent-KeepsShape (bytes "T0;tnotrun:0")) (
            if-Ensures (same_text s (bytes "Symbol::")) _ _ (sent-KeepsShape [])
              (sent-KeepsShape []))))

  set_thread-KeepsShape : (data_ : List ℕ) → KeepsShape g (set_thread data_ g)
  unfolding set_thread
  set_thread-KeepsShape [] = faults
  set_thread-KeepsShape (c ∷ s) =
      bind-Ensures (some_result (atoi (c_string s)))
        λ v u. if-Ensures _ _ _ (sent-KeepsShape _) (sent-KeepsShape _)

  module _ (host target : Bool) where
    handle-KeepsShape :
        (fuel index : ℕ) (data_ : List ℕ)
        → Ensures (KeepsAny g) (handle host target fuel index data_ g)
    unfolding handle gdb_send_stop_reason kill_request
    handle-KeepsShape fuel index data_ = if-Ensures (index == b'c') _ _ (cont-KeepsShape fuel) (
        if-Ensures (index == b'k') _ _ (returns (SameShape-refl w)) (
          if-Ensures (index == b'q') _ _ (answered-KeepsShape g _ (query-KeepsShape data_)) (
            if-Ensures (index == b'g') _ _
              (answered-KeepsShape g _ (read_general_registers-KeepsShape host target g w))
              (if-Ensures (index == b'm') _ _
                (answered-KeepsShape g _ (read_memory-KeepsShape g w data_))
                (if-Ensures (index == b'p') _ _
                  (answered-KeepsShape g _ (read_register-KeepsShape host target g w data_))
                  (if-Ensures (index == b'?') _ _
                    (answered-KeepsShape g _ (sent-KeepsShape (stop_text g.target_exception)))
                    (if-Ensures (index == b'H') _ _
                      (answered-KeepsShape g _ (set_thread-KeepsShape data_))
                      (writes fuel index data_))))))))
      where
        writes :
            (fuel index : ℕ) (data_ : List ℕ)
            → Ensures (KeepsAny g) (
                if index == b's'
                then answered (step g)
                else if index == b'G'
                then answered (write_general_registers host target data_ g)
                else if index == b'X'
                then answered (write_memory_binary data_ g)
                else if index == b'P'
                then answered (write_register host target data_ g)
                else answered (gdb_send_data [] g))
        writes fuel index data_ =
            if-Ensures (index == b's') _ _ (answered-KeepsShape g _ step-KeepsShape) (
              if-Ensures (index == b'G') _ _
                (answered-KeepsShape g _ (write_general_registers-KeepsShape host target g data_ w))
                (if-Ensures (index == b'X') _ _
                  (answered-KeepsShape g _ (write_memory_binary-KeepsShape g w data_))
                  (if-Ensures (index == b'P') _ _
                    (answered-KeepsShape g _ (write_register-KeepsShape host target g w data_))
                    (answered-KeepsShape g _ (sent-KeepsShape [])))))

module _ (host target : Bool) (g : Gdb) (w : IsWords g.arm) where
  command-KeepsShape :
      (fuel : ℕ) (s : List ℕ)
      → Ensures (KeepsAny g) (gdb_packet_command host target fuel s (gdb_send_ack g))
  unfolding gdb_packet_command gdb_send_ack
  command-KeepsShape fuel [] = faults
  command-KeepsShape fuel (index ∷ data_) =
      handle-KeepsShape (gdb_send_ack g) w host target fuel index data_

  -- A packet that is analysed and returns, whatever it holds, keeps the size and the byte order of
  -- the memory and the width of registers and cells.
  pub gdb_packet_analysis-KeepsShape :
      (fuel : ℕ) (packet : List ℕ)
      → Ensures (KeepsAny g) (gdb_packet_analysis host target fuel packet g)
  unfolding gdb_packet_analysis checked gdb_require_retransmission
  gdb_packet_analysis-KeepsShape fuel packet =
      checked-KeepsShape (payload packet) (check_digits packet) _
    where
      checked-KeepsShape :
          (text digits : List ℕ) (s : Scan)
          → Ensures (KeepsAny g) (checked host target fuel text digits g s)
      checked-KeepsShape text digits missing = faults
      checked-KeepsShape text digits overflow = faults
      checked-KeepsShape text digits (found given rest) =
          if-Ensures _ _ _ (command-KeepsShape fuel _) (returns (SameShape-refl w))
