-- ===== src/Network.antt =====
-- The calls of the socket library that arm_simulator.c and send_irq.c make: those of csapp.c,
-- which end the program when the system refuses, and those of the system. `W` is the state of the
-- system and of the other ends of the connections.
pub mod Delivery
use projet_s5_prog.Common.{Bool, List, Option, Outcome, if◌then◌else◌, u16, ℕ}
use projet_s5_prog.Util.{reverse_2}

pub record Network (W : Type 0) : Type 0 where
  pub socket : W → Outcome (ℕ × W)
  pub setsockopt : ℕ → W → Outcome W
  -- the port is in the byte order of the network
  pub bind_port : ℕ → ℕ → W → Outcome W
  pub getsockname : ℕ → W → ℕ
  pub listen : ℕ → W → Outcome W
  pub accept : ℕ → W → Outcome (ℕ × W)
  -- `Read(connection, &irq, 1) > 0` with the byte, or without one at the end of the connection
  pub read_byte : ℕ → W → Outcome (Option ℕ × W)
  -- `fdopen`, and all that comes up to the end of the connection
  pub fdopen : ℕ → W → Bool
  pub read_all : ℕ → W → List ℕ × W
  pub gethostbyname : List ℕ → W → Outcome (ℕ × W)
  pub connect_to : ℕ → ℕ → ℕ → W → Outcome W
  pub write_bytes : ℕ → List ℕ → W → Outcome W
  pub shutdown : ℕ → W → W
  pub close : ℕ → W → W

-- `htons` and `ntohs`, on a host of either byte order.
unfoldable pub htons : Bool → ℕ → ℕ
htons host port = if host then u16 port else u16 (reverse_2 port)
