-- ===== src/Trace/Printed.antt =====
-- The printing functions of trace.c: they return, and the stack of places stays.
use projet_s5_prog.Common.{
  List, Option, Outcome, [], add32, arith, assertion, bit_and, exit_program, fault, if-cases,
  if◌then◌else◌, ltb, none, nonzero, ok, refl, some, suc, true, zero, ℕ, ◌&&◌, ◌+◌, ◌<◌, ◌==◌, ◌^◌,
  ◌∙◌, ◌∷◌, ◌≡◌, ◌≤◌,
}
use projet_s5_prog.Names.{arm_get_mode_name, arm_get_register_name}
use projet_s5_prog.Trace.{
  Trace, location_at, memory_flag, memory_line, mode_suffix, nonneg, one_of_two, position_flag,
  printed_memory, printed_register, register_line, registers_flag, stack_size, trace_memory,
  trace_memory_cause, trace_memory_type, trace_print_location, trace_register, trace_register_type,
  traced_memory,
}
use projet_s5_prog.Common.Ensures.{bind-ok}
use projet_s5_prog.Text.{bytes}

-- What stays: the switch, the flags, and the top of the stack.
pub record SameStack (t t' : Trace) : Type 0 where
  pub switch : t'.enabled ≡ t.enabled
  pub flags : t'.trace_flags ≡ t.trace_flags
  pub top : t'.location_stack_top ≡ t.location_stack_top

-- The run returns, and the stack stays.
abbrev pub Stays : Trace → Outcome Trace → Type 0
Stays t o = (t' : Trace) × (o ≡ ok t') × SameStack t t'

pub SameStack-refl : (t : Trace) → SameStack t t
SameStack-refl t = record { switch = refl; flags = refl; top = refl }

pub SameStack-trans : (a b c : Trace) → SameStack a b → SameStack b c → SameStack a c
SameStack-trans a b c h k = record {
  switch = k.switch ∙ h.switch;
  flags = k.flags ∙ h.flags;
  top = k.top ∙ h.top;
}

-- `free` places of the stack are not in use.
abbrev pub Room : ℕ → Trace → Type 0
Room free t = add32 t.location_stack_top 1 + free ≤ stack_size

located_place :
    (t : Trace) (free : ℕ)
    → Room free t
    → t.location_stack_top < 2 ^ 32
    → (place : Option (List ℕ × ℕ)) × (trace_print_location t ≡ ok place)
unfolding trace_print_location
located_place t free h w =
    if-cases (λ o. (place : Option (List ℕ × ℕ)) × (o ≡ ok place))
      (t.enabled && nonzero (bit_and t.trace_flags position_flag) && nonneg t.location_stack_top)
      (location_at t.location_stack_top t) (ok none) inside (λ e. (none, refl))
  where
    inside :
        (t.enabled && nonzero (bit_and t.trace_flags position_flag) && nonneg t.location_stack_top)
          ≡ true
        → (place : Option (List ℕ × ℕ)) × (location_at t.location_stack_top t ≡ ok place)
    inside e =
        let low : nonneg t.location_stack_top ≡ true = ground (arith, e) in
        let fits : ltb t.location_stack_top stack_size ≡ true = ground (arith, low, h, w) in
        (
          some (
            t.location_file_stack t.location_stack_top,
            t.location_line_stack t.location_stack_top,
          ),
          (unfold location_at in rw fits refl),
        )

one_of_two-ok :
    (first second : List ℕ) (i : ℕ)
    → i < 2
    → (text : List ℕ) × (one_of_two first second i ≡ ok text)
one_of_two-ok first second zero h = (first, refl)
one_of_two-ok first second (suc zero) h = (second, refl)
one_of_two-ok first second (suc (suc k)) h = absurd (omega arith)

pub trace_memory-Stays :
    (cycle type size cause address value free : ℕ) (t : Trace)
    → Room free t
    → t.location_stack_top < 2 ^ 32
    → type < 2
    → cause < 2
    → Stays t (trace_memory cycle type size cause address value t)
unfolding trace_memory traced_memory printed_memory trace_memory_type trace_memory_cause
trace_memory-Stays cycle type size cause address value free t h w y c =
    let place = located_place t free h w in
    let type_text = one_of_two-ok (bytes "write") (bytes "read") type y in
    let cause_text = one_of_two-ok [] (bytes ", fetch") cause c in
    if-cases (Stays t) (t.enabled && nonzero (bit_and t.trace_flags memory_flag))
      (traced_memory cycle type size cause address value t) (ok t)
      (λ e. (
        record t {
          last_address = address;
          output =
              memory_line place.0 cycle (if address == add32 t.last_address 4 then 1 else 0)
                type_text.0 size cause_text.0 address value
              ∷ t.output;
        },
        bind-ok _ place.1 ∙ bind-ok _ type_text.1 ∙ bind-ok _ cause_text.1,
        record { switch = refl; flags = refl; top = refl },
      ))
      (λ e. (t, refl, SameStack-refl t))

mode_named : (mode : ℕ) → mode < 32 → (n : Option (List ℕ)) × (arm_get_mode_name mode ≡ ok n)
mode_named mode h = result (arm_get_mode_name mode) refl
  where
    result :
        (o : Outcome (Option (List ℕ)))
        → arm_get_mode_name mode ≡ o
        → (n : Option (List ℕ)) × (o ≡ ok n)
    result (ok n) e = (n, refl)
    result fault e = absurd (unfold arm_get_mode_name in ground (arith, e, h))
    result assertion e = absurd (unfold arm_get_mode_name in ground (arith, e, h))
    result exit_program e = absurd (unfold arm_get_mode_name in ground (arith, e, h))

register_named : (reg : ℕ) → reg < 18 → (n : List ℕ) × (arm_get_register_name reg ≡ ok n)
register_named reg h = result (arm_get_register_name reg) refl
  where
    result : (o : Outcome (List ℕ)) → arm_get_register_name reg ≡ o → (n : List ℕ) × (o ≡ ok n)
    result (ok n) e = (n, refl)
    result fault e = absurd (unfold arm_get_register_name in ground (arith, e, h))
    result assertion e = absurd (unfold arm_get_register_name in ground (arith, e, h))
    result exit_program e = absurd (unfold arm_get_register_name in ground (arith, e, h))

pub trace_register-Stays :
    (cycle type reg mode value free : ℕ) (t : Trace)
    → Room free t
    → t.location_stack_top < 2 ^ 32
    → reg < 18
    → mode < 32
    → type < 2
    → Stays t (trace_register cycle type reg mode value t)
unfolding trace_register printed_register trace_register_type
trace_register-Stays cycle type reg mode value free t h w r m y =
    let place = located_place t free h w in
    let mode_name = mode_named mode m in
    let name = register_named reg r in
    let type_text = one_of_two-ok (bytes "write") (bytes "read") type y in
    if-cases (Stays t) (t.enabled && nonzero (bit_and t.trace_flags registers_flag))
      (printed_register cycle type reg mode value t) (ok t)
      (λ e. (
        record t {
          output =
              register_line place.0 cycle type_text.0 name.0 (mode_suffix mode_name.0) value
              ∷ t.output;
        },
        bind-ok _ mode_name.1 ∙ bind-ok _ place.1 ∙ bind-ok _ type_text.1 ∙ bind-ok _ name.1,
        record { switch = refl; flags = refl; top = refl },
      ))
      (λ e. (t, refl, SameStack-refl t))
