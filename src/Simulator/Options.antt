-- ===== src/Simulator/Options.antt =====
-- What the options of arm_simulator.c set.
use projet_s5_prog.Common.{
  Bool, List, Outcome, [], ap, arith, assertion, bit_or, exit_program, false, fault, if◌then◌else◌,
  of_bool, ok, refl, some, sym, true, ℕ, ◌==◌, ◌>>=◌, ◌||◌, ◌∙◌, ◌∷◌, ◌≡◌, ◌≤◌,
}
use projet_s5_prog.Debug.{Debug, add_debug_to, is_debugged}
use projet_s5_prog.Debug.Filled.{add_all, add_all-is_debugged, mentioned}
use projet_s5_prog.Trace.{memory_flag, position_flag, registers_flag, state_flag}
use projet_s5_prog.Simulator.{Settings, first_settings, port_of, set_option, set_options, trace_add}
use projet_s5_prog.Common.Bits.{bit_or-single}
use projet_s5_prog.Util.{get_bit}
use projet_s5_prog.Common.Ensures.{bind-ok}
use projet_s5_prog.Text.{length}

-- The options that the program goes on after: a port that is a number, a trace file that opens, and
-- the options without a condition.
pub data Accepted (fopen : List ℕ → Bool) : ℕ → List ℕ → Type 0 where
  gdb_option : {arg : List ℕ} (v : ℕ) → port_of arg ≡ ok v → Accepted fopen b'g' arg
  irq_option : {arg : List ℕ} (v : ℕ) → port_of arg ≡ ok v → Accepted fopen b'i' arg
  file_option : {arg : List ℕ} → fopen arg ≡ true → Accepted fopen b't' arg
  registers_option : {arg : List ℕ} → Accepted fopen b'r' arg
  memory_option : {arg : List ℕ} → Accepted fopen b'm' arg
  state_option : {arg : List ℕ} → Accepted fopen b's' arg
  position_option : {arg : List ℕ} → Accepted fopen b'p' arg
  debug_option : {arg : List ℕ} → Accepted fopen b'd' arg

abbrev pub AllAccepted : (List ℕ → Bool) → List (ℕ × List ℕ) → Type 0
AllAccepted fopen [] = Unit
AllAccepted fopen ((opt, arg) ∷ rest) = Accepted fopen opt arg × AllAccepted fopen rest

-- Whether an option is given.
abbrev pub wants : ℕ → List (ℕ × List ℕ) → Bool
wants letter [] = false
wants letter ((opt, arg) ∷ rest) = opt == letter || wants letter rest

-- The arguments of `--debug`.
abbrev pub debug_names : List (ℕ × List ℕ) → List (List ℕ)
debug_names [] = []
debug_names ((opt, arg) ∷ rest) = if opt == b'd' then arg ∷ debug_names rest else debug_names rest

abbrev value_of : Outcome ℕ → ℕ
value_of (ok v) = v
value_of exit_program = 0
value_of fault = 0
value_of assertion = 0

-- The port of the last option with a letter, or `old`.
abbrev pub last_port : ℕ → List (ℕ × List ℕ) → ℕ → ℕ
last_port letter [] old = old
last_port letter ((opt, arg) ∷ rest) old =
    last_port letter rest (if opt == letter then value_of (port_of arg) else old)

abbrev with_flag : ℕ → ℕ → ℕ
with_flag opt w =
    if opt == b'r'
    then bit_or w registers_flag
    else if opt == b'm'
    then bit_or w memory_flag
    else if opt == b's'
    then bit_or w state_flag
    else if opt == b'p'
    then bit_or w position_flag
    else w

-- The flags, one option after the other.
abbrev flags_after : List (ℕ × List ℕ) → ℕ → ℕ
flags_after [] w = w
flags_after ((opt, arg) ∷ rest) w = flags_after rest (with_flag opt w)

abbrev settled : List (ℕ × List ℕ) → Settings → Debug → Settings
settled opts s d = record {
  gdb_port = last_port b'g' opts s.gdb_port;
  irq_port = last_port b'i' opts s.irq_port;
  trace_flags = flags_after opts s.trace_flags;
  debug = d;
}

debug_step :
    (rest : List (ℕ × List ℕ)) (go : Settings → Outcome Settings) (s : Settings) (o : Outcome Debug)
    → ((d : Debug)
        → go (record s { debug = d })
          ≡ (add_all (debug_names rest) d >>= λ d'. ok (settled rest s d')))
    → ((o >>= λ d. ok (record s { debug = d })) >>= go)
      ≡ ((o >>= add_all (debug_names rest)) >>= λ d. ok (settled rest s d))
debug_step rest go s (ok d) h = h d
debug_step rest go s exit_program h = refl
debug_step rest go s fault h = refl
debug_step rest go s assertion h = refl

-- The options apart: the table of names from their names alone, and the rest beside it.
set_options-settled :
    (fopen : List ℕ → Bool) (opts : List (ℕ × List ℕ)) (s : Settings)
    → AllAccepted fopen opts
    → set_options fopen opts s ≡ (add_all (debug_names opts) s.debug >>= λ d. ok (settled opts s d))
unfolding set_options set_option trace_add add_all
set_options-settled fopen [] s a = refl
set_options-settled fopen (_ ∷ rest) s (gdb_option {arg} v e, more) =
    bind-ok _ (bind-ok _ e)
    ∙ set_options-settled fopen rest (record s { gdb_port = v }) more
    ∙ ap
        (λ o. add_all (debug_names rest) s.debug >>= λ d.
          ok (settled rest (record s { gdb_port = value_of o }) d))
        (sym e)
set_options-settled fopen (_ ∷ rest) s (irq_option {arg} v e, more) =
    bind-ok _ (bind-ok _ e)
    ∙ set_options-settled fopen rest (record s { irq_port = v }) more
    ∙ ap
        (λ o. add_all (debug_names rest) s.debug >>= λ d.
          ok (settled rest (record s { irq_port = value_of o }) d))
        (sym e)
set_options-settled fopen (_ ∷ rest) s (file_option {arg} e, more) =
    rw e (set_options-settled fopen rest s more)
set_options-settled fopen (_ ∷ rest) s (registers_option, more) =
    set_options-settled fopen rest (record s { trace_flags = bit_or s.trace_flags registers_flag })
      more
set_options-settled fopen (_ ∷ rest) s (memory_option, more) =
    set_options-settled fopen rest (record s { trace_flags = bit_or s.trace_flags memory_flag })
      more
set_options-settled fopen (_ ∷ rest) s (state_option, more) =
    set_options-settled fopen rest (record s { trace_flags = bit_or s.trace_flags state_flag }) more
set_options-settled fopen (_ ∷ rest) s (position_option, more) =
    set_options-settled fopen rest (record s { trace_flags = bit_or s.trace_flags position_flag })
      more
set_options-settled fopen (_ ∷ rest) s (debug_option {arg}, more) =
    debug_step rest (set_options fopen rest) s (add_debug_to arg s.debug)
      (λ d. set_options-settled fopen rest (record s { debug = d }) more)

-- What a flag is worth after the options.
abbrev flag_after : ℕ → ℕ → List (ℕ × List ℕ) → ℕ → ℕ
flag_after letter i opts w = if wants letter opts then 1 else get_bit w i

with_flag_lem :
    (opt w : ℕ)
    → (get_bit (with_flag opt w) 0 ≡ (if opt == b'm' then 1 else get_bit w 0))
      × (get_bit (with_flag opt w) 1 ≡ (if opt == b'r' then 1 else get_bit w 1))
      × (get_bit (with_flag opt w) 2 ≡ (if opt == b's' then 1 else get_bit w 2))
      × (get_bit (with_flag opt w) 3 ≡ (if opt == b'p' then 1 else get_bit w 3))
with_flag_lem opt w =
    let m = bit_or-single 0 w in
    let r = bit_or-single 1 w in
    let t = bit_or-single 2 w in
    let p = bit_or-single 3 w in
    (
      ground (arith, m, r, t, p),
      ground (arith, m, r, t, p),
      ground (arith, m, r, t, p),
      ground (arith, m, r, t, p),
    )

flags_after_lem :
    (opts : List (ℕ × List ℕ)) (w : ℕ)
    → (get_bit (flags_after opts w) 0 ≡ flag_after b'm' 0 opts w)
      × (get_bit (flags_after opts w) 1 ≡ flag_after b'r' 1 opts w)
      × (get_bit (flags_after opts w) 2 ≡ flag_after b's' 2 opts w)
      × (get_bit (flags_after opts w) 3 ≡ flag_after b'p' 3 opts w)
flags_after_lem [] w = (refl, refl, refl, refl)
flags_after_lem ((opt, arg) ∷ rest) w =
    let (a, b, c, d) = flags_after_lem rest (with_flag opt w) in
    let (m, r, t, p) = with_flag_lem opt w in
    (
      a ∙ later (opt == b'm') (wants b'm' rest) (get_bit (with_flag opt w) 0) (get_bit w 0) m,
      b ∙ later (opt == b'r') (wants b'r' rest) (get_bit (with_flag opt w) 1) (get_bit w 1) r,
      c ∙ later (opt == b's') (wants b's' rest) (get_bit (with_flag opt w) 2) (get_bit w 2) t,
      d ∙ later (opt == b'p') (wants b'p' rest) (get_bit (with_flag opt w) 3) (get_bit w 3) p,
    )
  where
    later :
        (here more : Bool) (x y : ℕ)
        → x ≡ (if here then 1 else y)
        → (if more then 1 else x) ≡ (if here || more then 1 else y)
    later true true x y e = refl
    later true false x y e = e
    later false true x y e = refl
    later false false x y e = e

as_bit : (b : Bool) → (if b then 1 else 0) ≡ of_bool b
as_bit true = refl
as_bit false = refl

-- Accepted options, each group of settings by itself.
pub set_options-AllAccepted :
    (fopen : List ℕ → Bool) (opts : List (ℕ × List ℕ)) (f : ℕ → List ℕ)
    → AllAccepted fopen opts
    → length (debug_names opts) ≤ 64
    → (s : Settings) × (set_options fopen opts (first_settings f) ≡ ok s)
      × ((file : List ℕ) → is_debugged file s.debug ≡ some (mentioned file (debug_names opts)))
      × (get_bit s.trace_flags 0 ≡ of_bool (wants b'm' opts))
      × (get_bit s.trace_flags 1 ≡ of_bool (wants b'r' opts))
      × (get_bit s.trace_flags 2 ≡ of_bool (wants b's' opts))
      × (get_bit s.trace_flags 3 ≡ of_bool (wants b'p' opts))
      × (s.gdb_port ≡ last_port b'g' opts 0)
      × (s.irq_port ≡ last_port b'i' opts 0)
set_options-AllAccepted fopen opts f a h =
    let (m, r, t, p) = flags_after_lem opts 0 in
    let names = add_all-is_debugged (debug_names opts) f h in
    (
      settled opts (first_settings f) names.0,
      set_options-settled fopen opts (first_settings f) a ∙ bind-ok _ names.1,
      names.2,
      m ∙ as_bit (wants b'm' opts),
      r ∙ as_bit (wants b'r' opts),
      t ∙ as_bit (wants b's' opts),
      p ∙ as_bit (wants b'p' opts),
      refl,
      refl,
    )
