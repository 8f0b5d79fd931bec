-- ===== src/Simulator/Session.antt =====
-- The debugger and the interrupts in any order.
use projet_s5_prog.Common.{
  Bool, List, Option, ap, arith, if-cases, none, ok, some, subst, true, ℕ, ◌<◌, ◌==◌, ◌^◌, ◌∙◌, ◌≡◌,
}
use projet_s5_prog.Common.Ensures.{Ensures, Ensures-ok, bind-Ensures, returns}
use projet_s5_prog.Memory.{Memory, memory_create}
use projet_s5_prog.Core.{ArmCore, arm_exception, arm_write_cpsr, arm_write_usr_register}
use projet_s5_prog.Core.Keeps.{IsWords, arm_write_usr_register-Keeps}
use projet_s5_prog.Gdb.Access.Kept.{
  Keeps-SameShape, SameShape, SameShape-refl, SameShape-trans, arm_write_cpsr-SameShape,
}
use projet_s5_prog.Scanner.{
  Parser, Token, ack, act, echo, finished, other, packet_text, retransmission,
}
use projet_s5_prog.Scanner.Noise.{IsNoise, act-noise, handle_error-empties}
use projet_s5_prog.Simulator.{Event, from_debugger, from_irq, happen, make_processor, memory_size}
use projet_s5_prog.Constants.{irq, reset}
use projet_s5_prog.Gdb.{Gdb}
use projet_s5_prog.Instruction.Reachable.{arm_create-Reset}
use projet_s5_prog.Gdb.Packet.Kept.{KeepsAny, gdb_packet_analysis-KeepsShape}

arm_exception-SameShape : (p : ArmCore) (irq : ℕ) → IsWords p → SameShape p (arm_exception p irq)
unfolding arm_exception
arm_exception-SameShape p irq w =
    let k = arm_write_cpsr-SameShape true true p 0x1d3 w (omega arith) in
    let r = Keeps-SameShape (arm_write_usr_register-Keeps k.words 15 0 (omega arith)) in
    if-cases (SameShape p) (irq == reset) (arm_write_usr_register (arm_write_cpsr p 0x1d3) 15 0) p
      (λ x. SameShape-trans k r) (λ x. SameShape-refl w)

-- The shape of the memory and the width of the values stay, and the buffer for errors has room.
abbrev pub KeptParser : Parser → Option Parser → Type 0
KeptParser d none = Unit
KeptParser d (some d') = SameShape d.gdb.arm d'.gdb.arm × (d'.len < 1024)

module _ (host target : Bool) where
  module _ (d : Parser) (w : IsWords d.gdb.arm) (h : d.len < 1024) where
    noise-KeptParser :
        (fuel : ℕ) (t : Token) → IsNoise t → Ensures (KeptParser d) (act host target fuel t d)
    noise-KeptParser fuel t q =
        let a = act-noise host target fuel t d q h in
        rw a.1 (returns (rw a.2.arm_stays (SameShape-refl w), a.2.room))

    packet_text-KeptParser :
        (fuel : ℕ) (text : List ℕ)
        → Ensures (KeptParser d) (act host target fuel (packet_text text) d)
    unfolding act
    packet_text-KeptParser fuel text =
        let e = handle_error-empties d h in
        let w' : IsWords e.0.gdb.arm = rw e.2 w in
        rw e.1 (
          bind-Ensures (gdb_packet_analysis-KeepsShape host target e.0.gdb w' fuel text)
            λ o k. finished-KeptParser e.0 e.2 e.3 o k)
      where
        finished-KeptParser :
            (d1 : Parser)
            → d1.gdb.arm ≡ d.gdb.arm
            → d1.len ≡ 0
            → (o : Option Gdb) → KeepsAny d1.gdb o
            → Ensures (KeptParser d) (finished d1 o)
        finished-KeptParser d1 same empty none k = returns tt
        finished-KeptParser d1 same empty (some g) k =
            returns (subst (λ q. SameShape q g.arm) same k, omega (arith, empty))

    act-KeptParser : (fuel : ℕ) (t : Token) → Ensures (KeptParser d) (act host target fuel t d)
    act-KeptParser fuel ack = noise-KeptParser fuel ack tt
    act-KeptParser fuel retransmission = noise-KeptParser fuel retransmission tt
    act-KeptParser fuel (packet_text text) = packet_text-KeptParser fuel text
    act-KeptParser fuel (other c) = noise-KeptParser fuel (other c) tt
    act-KeptParser fuel (echo c) = noise-KeptParser fuel (echo c) tt

    happen-KeptParser :
        (fuel : ℕ) (e : Event) → Ensures (KeptParser d) (happen host target fuel e d)
    unfolding happen
    happen-KeptParser fuel (from_debugger t) = act-KeptParser fuel t
    happen-KeptParser fuel (from_irq irq) = returns (arm_exception-SameShape d.gdb.arm irq w, h)

  -- What events that return lead to.
  pub data Session (d : Parser) : Parser → Type 0 where
    begin : Session d d
    then_event :
        {d1 d2 : Parser} (fuel : ℕ) (e : Event)
        → Session d d1
        → happen host target fuel e d1 ≡ ok (some d2)
        → Session d d2

  Session-KeptParser :
      {d d' : Parser}
      → IsWords d.gdb.arm
      → d.len < 1024
      → Session d d'
      → SameShape d.gdb.arm d'.gdb.arm × (d'.len < 1024)
  Session-KeptParser w h begin = (SameShape-refl w, h)
  Session-KeptParser w h (then_event {d1} fuel e s step) =
      let k = Session-KeptParser w h s in
      let r = Ensures-ok (happen-KeptParser d1 k.0.words k.1 fuel e) step in
      (SameShape-trans k.0 r.0, r.1)

  -- From the start of the program, whatever the debugger sends and whatever interrupts come
  -- between its packets, as long as each of them returns: the memory has 0x20000 bytes and the
  -- byte order that the simulator was built for, each cell is a byte and each register a word,
  -- and the buffer for errors has room for its closing 0. The blocks that `malloc` gives hold
  -- bytes and words, and nothing was received before.
  pub Session-start :
      (cells contents : ℕ → ℕ) (p : ArmCore) (d d' : Parser)
      → ((j : ℕ) → cells j < 256)
      → ((j : ℕ) → contents j < 2 ^ 32)
      → make_processor target cells contents ≡ ok (some p)
      → d.gdb.arm ≡ p
      → d.len ≡ 0
      → Session d d'
      → (d'.gdb.arm.mem.size ≡ 0x20000)
        × (d'.gdb.arm.mem.is_big_endian ≡ target)
        × ((j : ℕ) → d'.gdb.arm.mem.adresses j < 256)
        × ((j : ℕ) → d'.gdb.arm.reg.regs j < 2 ^ 32)
        × (d'.len < 1024)
  unfolding make_processor memory_create
  Session-start cells contents p d d' bytes words made same empty s =
      let r = arm_create-Reset contents start_memory p words bytes made in
      let w : IsWords d.gdb.arm = rw same r.words in
      let k = Session-KeptParser w (omega (arith, empty)) s in
      (
        k.0.size ∙ ap (λ q. q.mem.size) same ∙ ap (λ m. m.size) r.memory,
        k.0.order ∙ ap (λ q. q.mem.is_big_endian) same ∙ ap (λ m. m.is_big_endian) r.memory,
        k.0.words.cells_fit,
        k.0.words.regs_fit,
        k.1,
      )
    where
      start_memory : Memory
      start_memory = record { is_big_endian = target; adresses = cells; size = memory_size }
