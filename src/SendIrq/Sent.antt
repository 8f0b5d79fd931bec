-- ===== src/SendIrq/Sent.antt =====
-- The byte that send_irq.c sends, and what it does to the simulator.
use mathlib.Core.Option.{some-injective}
use projet_s5_prog.Common.{
  Bool, List, Outcome, [], arith, assertion, exit_program, fault, ok, refl, some, suc, sym, u16,
  zero, ℕ, ◌<◌, ◌==◌, ◌>>=◌, ◌∙◌, ◌∷◌, ◌≡◌, ◌≢◌, ◌≤◌,
}
use projet_s5_prog.Constants.{reset}
use projet_s5_prog.Core.{ArmCore}
use projet_s5_prog.Names.{arm_get_exception_name, chosen_irq, find_irq}
use projet_s5_prog.Names.Lookup.{Chosen, chosen_irq-Chosen}
use projet_s5_prog.Debug.{strcmp}
use projet_s5_prog.Network.{Network, htons}
use projet_s5_prog.Network.Delivery.{Serves}
use projet_s5_prog.Simulator.Listeners.{serve_interrupts}
use projet_s5_prog.Simulator.Listeners.Interrupts.{
  after_interrupts, interrupted, interrupted-Interrupted, serve_interrupts-Serves,
}
use projet_s5_prog.SendIrq.{irq_main, send_byte}
use projet_s5_prog.Text.{atoi, c_string}
use projet_s5_prog.Common.Ensures.{bind-ok}

-- Each name is found with the number of its exception.
chosen_irq-name :
    (number : ℕ) (name : List ℕ)
    → 1 ≤ number
    → number < 8
    → arm_get_exception_name number ≡ some name
    → chosen_irq (some name) ≡ some (ok number)
unfolding arm_get_exception_name chosen_irq find_irq strcmp
chosen_irq-name zero name a b e = absurd (omega arith)
chosen_irq-name (suc zero) name a b e = rw (sym (some-injective _ name e)) refl
chosen_irq-name (suc (suc zero)) name a b e = rw (sym (some-injective _ name e)) refl
chosen_irq-name (suc (suc (suc zero))) name a b e = rw (sym (some-injective _ name e)) refl
chosen_irq-name (suc (suc (suc (suc zero)))) name a b e = rw (sym (some-injective _ name e)) refl
chosen_irq-name (suc (suc (suc (suc (suc zero))))) name a b e =
    rw (sym (some-injective _ name e)) refl
chosen_irq-name (suc (suc (suc (suc (suc (suc zero)))))) name a b e =
    rw (sym (some-injective _ name e)) refl
chosen_irq-name (suc (suc (suc (suc (suc (suc (suc zero))))))) name a b e =
    rw (sym (some-injective _ name e)) refl
chosen_irq-name (suc (suc (suc (suc (suc (suc (suc (suc k)))))))) name a b e = absurd (omega arith)

module _ {W : Type 0} (net : Network W) (host : Bool) where
  -- A name that no exception has ends the program before anything is asked of the network.
  pub irq_main-unknown :
      (server port name : List ℕ) (rest : List (List ℕ)) (w : W)
      → ((number : ℕ) → arm_get_exception_name number ≢ some name)
      → irq_main net host (server ∷ port ∷ name ∷ rest) w ≡ exit_program
  unfolding irq_main
  irq_main-unknown server port name rest w h =
      let c = chosen_irq-Chosen name in rw c.1 (ended c.0 c.2)
    where
      ended :
          (o : Outcome ℕ)
          → Chosen name o
          → (o >>= λ number. send_byte net host server port w number) ≡ exit_program
      ended (ok number) (a, b, e) = absurd (h number e)
      ended exit_program k = refl
      ended fault k = absurd k
      ended assertion k = absurd k

  -- A network that lets the program connect to the server, and gives to the next connection that
  -- the server accepts on `listener` the bytes that are written to this one, whichever they are.
  pub record Reaches (server port : List ℕ) (listener : ℕ) (w : W) : Type 0 where
    pub socket : ℕ
    pub port_number : ℕ
    pub address : ℕ
    pub made : W
    pub set : W
    pub found : W
    pub connected : W
    pub written : List ℕ → W
    pub served : List ℕ → W
    pub makes : net.socket w ≡ ok (socket, made)
    pub sets : net.setsockopt socket made ≡ ok set
    pub names : atoi (c_string port) ≡ ok port_number
    pub finds : net.gethostbyname server set ≡ ok (address, found)
    pub connects : net.connect_to socket address (htons host (u16 port_number)) found ≡ ok connected
    pub writes : (bs : List ℕ) → net.write_bytes socket bs connected ≡ ok (written bs)
    pub delivers :
        (bs : List ℕ)
        → Serves net listener
            (net.close socket (net.shutdown socket (written bs)))
            (bs ∷ [])
            (served bs)

  send_byte-Reaches :
      (server port : List ℕ) (listener number : ℕ) (w : W) (r : Reaches server port listener w)
      → send_byte net host server port w number
        ≡ ok (net.close r.socket (net.shutdown r.socket (r.written (number ∷ []))))
  unfolding send_byte
  send_byte-Reaches server port listener number w r =
      bind-ok _ r.makes
      ∙ bind-ok _ r.sets
      ∙ bind-ok _ r.names
      ∙ bind-ok _ r.finds
      ∙ bind-ok _ r.connects
      ∙ bind-ok _ (r.writes (number ∷ []))

  -- The interrupt that is named reaches the processor. The network lets the program connect and
  -- delivers to the listener what the program writes. Then the program ends well, and in one round
  -- of the listener behind it the processor is reset if the name is that of the reset, and stays as
  -- it is otherwise.
  pub irq_main-serve :
      (server port name : List ℕ) (number fuel listener : ℕ) (p : ArmCore) (w : W)
      → 1 ≤ number
      → number < 8
      → arm_get_exception_name number ≡ some name
      → (r : Reaches server port listener w) → 1 < fuel
      → (w2 : W) × (q : ArmCore) × (irq_main net host (server ∷ port ∷ name ∷ []) w ≡ ok w2)
        × (serve_interrupts net host 1 fuel listener p w2 ≡ ok (some (q, r.served (number ∷ []))))
        × (q.mem ≡ p.mem)
        × (q.cycle_count ≡ p.cycle_count)
        × ((j : ℕ) → q.reg.regs j ≡ after_interrupts (number == reset) p.reg.regs j)
  unfolding irq_main
  irq_main-serve server port name number fuel listener p w a b e r f =
      let k = interrupted-Interrupted (number ∷ []) p in
      (
        net.close r.socket (net.shutdown r.socket (r.written (number ∷ []))),
        interrupted (number ∷ []) p,
        rw (chosen_irq-name number name a b e) (send_byte-Reaches server port listener number w r),
        serve_interrupts-Serves net host fuel listener p ((number ∷ []) ∷ [])
            (r.delivers (number ∷ [])) (f, tt),
        k.0,
        k.1,
        λ j. ground (arith, k.2 j),
      )
