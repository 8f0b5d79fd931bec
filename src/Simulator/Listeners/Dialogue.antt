-- ===== src/Simulator/Listeners/Dialogue.antt =====
-- What the listener of the debugger does with a connection.
use projet_s5_prog.Common.{Bool, List, ap, ok, refl, some, true, ℕ, ◌%◌, ◌+◌, ◌<◌, ◌^◌, ◌∙◌, ◌≡◌}
use projet_s5_prog.Gdb.{Gdb}
use projet_s5_prog.Scanner.{Parser, gdb_scanner}
use projet_s5_prog.Network.{Network}
use projet_s5_prog.Simulator.Listeners.{Server, create_server, gdb_listener}
use projet_s5_prog.Common.Ensures.{bind-ok}
use projet_s5_prog.Registers.{get_mode}
use projet_s5_prog.Registers.Bank.{is_mode}
use projet_s5_prog.Util.{get_bits}
use projet_s5_prog.Scanner.Conversation.{
  AllPlain, Message, all_said, conversation, yylex-conversation,
}
use projet_s5_prog.Scanner.RegistersSaid.{
  answers, conversation-registers_said, registers_said, registers_said-AllPlain,
}

module _ {W : Type 0} (net : Network W) (host : Bool) where
  -- A network that gives the server one connection with a text, and then its end. In the last state
  -- the connection and the server are closed.
  pub record Connects (gdb_port : ℕ) (text : List ℕ) (w w' : W) : Type 0 where
    pub server : Server
    pub listening : W
    pub connection : ℕ
    pub accepted : W
    pub received : W
    pub makes : create_server net host gdb_port w ≡ ok (server, listening)
    pub accepts : net.accept server.socket listening ≡ ok (connection, accepted)
    pub opens : net.fdopen connection accepted ≡ true
    pub reads : net.read_all connection accepted ≡ (text, received)
    pub closes : net.close server.socket (net.shutdown connection received) ≡ w'

  gdb_listener-scanned :
      (target : Bool) (buffer : ℕ → ℕ) (fuel gdb_port : ℕ) (text : List ℕ) (g : Gdb) (d : Parser)
      (w w' : W)
      → Connects gdb_port text w w'
      → gdb_scanner host target true buffer fuel text g ≡ ok (some d)
      → gdb_listener net host target buffer fuel gdb_port g w ≡ ok (some (d, w'))
  unfolding gdb_listener
  gdb_listener-scanned target buffer fuel gdb_port text g d w w' n e =
      bind-ok _ n.makes
      ∙ bind-ok _ n.accepts
      ∙ rw (n.opens, n.reads)
          (bind-ok _ e
            ∙ ap
                (λ (r : List ℕ × W).
                  ok (some (d, net.close n.server.socket (net.shutdown n.connection r.1))))
                n.reads
            ∙ ap (λ x. ok (some (d, x))) n.closes)

  -- A connection on which the debugger keeps to the protocol is served to its end.
  gdb_listener-conversation :
      (target : Bool) (buffer : ℕ → ℕ) (fuel gdb_port : ℕ) (ms : List Message) (g g' : Gdb)
      (w w' : W)
      → Connects gdb_port (all_said ms) w w'
      → AllPlain ms
      → conversation host target fuel ms g ≡ ok (some g')
      → gdb_listener net host target buffer fuel gdb_port g w
        ≡ ok (some (record { gdb = g'; buffer = buffer; len = 0 }, w'))
  unfolding gdb_scanner
  gdb_listener-conversation target buffer fuel gdb_port ms g g' w w' n p e =
      let d : Parser = record { gdb = g; buffer = buffer; len = 0 } in
      let d' : Parser = record { gdb = g'; buffer = buffer; len = 0 } in
      let run : gdb_scanner host target true buffer fuel (all_said ms) g ≡ ok (some d') =
        yylex-conversation host target fuel ms d p refl ∙ bind-ok _ e in
      gdb_listener-scanned target buffer fuel gdb_port (all_said ms) g d' w w' n run

  -- The debugger connects, writes all registers, acknowledges, reads them, and acknowledges. Then
  -- the listener accepts the connection, serves it and closes it. It writes to the connection an
  -- acknowledgement and the packet OK, and an acknowledgement and the packet with the words that
  -- the debugger wrote, R0 to R15 and the CPSR, and nothing else. This holds for each byte order of
  -- the host and of the simulated machine. All words are sent in hexadecimal, also those for the
  -- floating-point registers. The processor is in one of the seven modes and the CPSR written keeps
  -- it; the address written to R15 is aligned, and not the last of the address space.
  pub gdb_listener-registers :
      (target : Bool) (buffer : ℕ → ℕ) (fuel gdb_port : ℕ) (v floats : ℕ → ℕ) (status : ℕ) (g : Gdb)
      (w w' : W)
      → Connects gdb_port (all_said (registers_said host target v floats status)) w w'
      → ((j : ℕ) → v j < 2 ^ 32)
      → ((j : ℕ) → floats j < 2 ^ 32)
      → status < 2 ^ 32
      → is_mode (get_mode g.arm.reg) ≡ true
      → get_bits status 4 0 ≡ get_mode g.arm.reg
      → v 15 % 4 ≡ 0
      → v 15 + 4 < 2 ^ 32
      → (d : Parser) × (gdb_listener net host target buffer fuel gdb_port g w ≡ ok (some (d, w')))
        × (d.gdb.calls ≡ answers host target v status g.calls)
  gdb_listener-registers target buffer fuel gdb_port v floats status g w w' n fits floats_fit
        status_fits mode kept aligned room =
      let c =
        conversation-registers_said host target fuel v floats status g fits floats_fit status_fits
          mode kept aligned room in
      (
        record { gdb = c.0; buffer = buffer; len = 0 },
        gdb_listener-conversation target buffer fuel gdb_port
            (registers_said host target v floats status) g c.0 w w' n
            (registers_said-AllPlain host target v floats status) c.1,
        c.2,
      )
