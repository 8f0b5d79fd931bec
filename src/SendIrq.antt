-- ===== src/SendIrq.antt =====
-- send_irq.c: the program that sends an interrupt to the simulator.
use projet_s5_prog.Common.{
  Bool, List, Option, Outcome, [], exit_program, fault, none, ok, some, u16, ℕ, ◌>>=◌, ◌∷◌,
}
use projet_s5_prog.Text.{atoi, c_string}
use projet_s5_prog.Names.{chosen_irq}
pub mod Sent
use projet_s5_prog.Network.{Network, htons}

module _ {W : Type 0} (net : Network W) (host : Bool) where
  -- What follows the choice of the byte.
  unfoldable pub send_byte : List ℕ → List ℕ → W → ℕ → Outcome W
  send_byte server port w number = do
    s ← net.socket w
    w1 ← net.setsockopt s.0 s.1
    p ← atoi (c_string port)
    a ← net.gethostbyname server w1
    w2 ← net.connect_to s.0 a.0 (htons host (u16 p)) a.1
    w3 ← net.write_bytes s.0 (number ∷ []) w2
    ok (net.close s.0 (net.shutdown s.0 w3))

  -- The search for the name has rounds enough.
  unfoldable pub send_chosen : List ℕ → List ℕ → W → Option (Outcome ℕ) → Outcome W
  unfolding send_byte
  send_chosen server port w none = fault
  send_chosen server port w (some o) = o >>= λ number. send_byte server port w number

  -- The arguments of the program behind its name; with fewer than two it prints its usage and ends.
  unfoldable pub irq_main : List (List ℕ) → W → Outcome W
  unfolding send_chosen
  irq_main [] w = exit_program
  irq_main (server ∷ []) w = exit_program
  irq_main (server ∷ port ∷ []) w = send_chosen server port w (chosen_irq none)
  irq_main (server ∷ port ∷ name ∷ rest) w = send_chosen server port w (chosen_irq (some name))
