-- ===== src/Network/Delivery.antt =====
-- What a network is known to deliver.
use projet_s5_prog.Common.{List, [], none, ok, some, ℕ, ◌∷◌, ◌≡◌}
use projet_s5_prog.Network.{Network}

module _ {W : Type 0} (net : Network W) where
  -- The connection gives some bytes, and then its end.
  pub data Delivers (connection : ℕ) : W → List ℕ → W → Type 0 where
    at_end : {w w' : W} → net.read_byte connection w ≡ ok (none, w') → Delivers connection w [] w'
    byte :
        {w w1 w' : W} {b : ℕ} {bs : List ℕ}
        → net.read_byte connection w ≡ ok (some b, w1)
        → Delivers connection w1 bs w'
        → Delivers connection w (b ∷ bs) w'

  -- Connections are accepted one after the other; each is shut down at its end.
  pub data Serves (socket : ℕ) : W → List (List ℕ) → W → Type 0 where
    no_more : {w : W} → Serves socket w [] w
    next_one :
        {w w1 w2 w' : W} {connection : ℕ} {bs : List ℕ} {rest : List (List ℕ)}
        → net.accept socket w ≡ ok (connection, w1)
        → Delivers connection w1 bs w2
        → Serves socket (net.shutdown connection w2) rest w'
        → Serves socket w (bs ∷ rest) w'
