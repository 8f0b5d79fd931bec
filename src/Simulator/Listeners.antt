-- ===== src/Simulator/Listeners.antt =====
-- arm_simulator.c: the servers of the debugger and of the interrupts.
pub mod Interrupts
pub mod Dialogue
use projet_s5_prog.Common.{Bool, Option, Outcome, none, ok, some, suc, zero, ℕ, ◌>>=◌}
use projet_s5_prog.Core.{ArmCore, arm_exception}
use projet_s5_prog.Gdb.{Gdb}
use projet_s5_prog.Scanner.{Parser, gdb_scanner}
use projet_s5_prog.Network.{Network, htons}

-- `struct server_data`
pub record Server : Type 0 where
  pub socket : ℕ
  pub port : ℕ

module _ {W : Type 0} (net : Network W) (host : Bool) where
  unfoldable pub create_server : ℕ → W → Outcome (Server × W)
  create_server port w = do
    s ← net.socket w
    w1 ← net.setsockopt s.0 s.1
    w2 ← net.bind_port s.0 (htons host port) w1
    let bound = htons host (net.getsockname s.0 w2)
    w3 ← net.listen s.0 w2
    ok (record { socket = s.0; port = bound }, w3)

  -- `while (Read(connection, &irq, 1) > 0)`, with `fuel` rounds at most.
  unfoldable pub read_interrupts : ℕ → ℕ → ArmCore → W → Outcome (Option (ArmCore × W))
  read_interrupts zero connection p w = ok none
  read_interrupts (suc fuel) connection p w = net.read_byte connection w >>= λ r. elim r.0 [
    | none ↦ ok (some (p, r.1))
    | some irq ↦ read_interrupts fuel connection (arm_exception p irq) r.1
  ]

  -- The first `rounds` rounds of the loop of `irq_listener`, which has no end.
  unfoldable pub serve_interrupts : ℕ → ℕ → ℕ → ArmCore → W → Outcome (Option (ArmCore × W))
  unfolding read_interrupts
  serve_interrupts zero fuel socket p w = ok (some (p, w))
  serve_interrupts (suc rounds) fuel socket p w = do
    c ← net.accept socket w
    o ← read_interrupts fuel c.0 p c.1
    elim o [
      | none ↦ ok none
      | some r ↦ serve_interrupts rounds fuel socket r.0 (net.shutdown c.0 r.1)
    ]

  unfoldable pub irq_listener : ℕ → ℕ → ℕ → ArmCore → W → Outcome (Option (ArmCore × W))
  unfolding create_server serve_interrupts
  irq_listener rounds fuel irq_port p w = do
    s ← create_server irq_port w
    serve_interrupts rounds fuel s.0.socket p s.1

  -- The scanner reads from the connection and writes to it; what it writes stands in the state of
  -- the connection of Gdb. `g` and `buffer` are the blocks that `gdb_scanner` starts with.
  unfoldable pub gdb_listener : Bool → (ℕ → ℕ) → ℕ → ℕ → Gdb → W → Outcome (Option (Parser × W))
  unfolding create_server
  gdb_listener target buffer fuel gdb_port g w = do
    s ← create_server gdb_port w
    c ← net.accept s.0.socket s.1
    let input = net.read_all c.0 c.1
    o ← gdb_scanner host target (net.fdopen c.0 c.1) buffer fuel input.0 g
    elim o [
      | none ↦ ok none
      | some d ↦ ok (some (d, net.close s.0.socket (net.shutdown c.0 input.1)))
    ]
