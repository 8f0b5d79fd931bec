-- ===== src/Trace/Balanced.antt =====
-- The stack of places of trace.c, under nested calls that are traced.
use projet_s5_prog.Common.{
  Bool-cases, List, Outcome, add32, ap, arith, false, inl, inr, ltb, ok, refl, sub32, true, ℕ, ◌+◌,
  ◌-◌, ◌<◌, ◌>>=◌, ◌^◌, ◌∙◌, ◌≡◌, ◌≤◌,
}
use projet_s5_prog.Trace.{
  Trace, located, push_location, replaced_file, stack_size, trace_end_location, trace_memory,
  trace_register, trace_start_location,
}
use projet_s5_prog.Common.Ensures.{bind-ok}
use projet_s5_prog.Memory.{update}
use projet_s5_prog.Trace.Printed.{
  Room, SameStack, SameStack-refl, SameStack-trans, Stays, trace_memory-Stays, trace_register-Stays,
}

-- The accesses that a traced call makes, and the traced calls in it.
pub data Accesses : Type 0 where
  finish : Accesses
  memory : (cycle type size cause address value : ℕ) → Accesses → Accesses
  register : (cycle type reg mode value : ℕ) → Accesses → Accesses
  call : (file : List ℕ) → (line : ℕ) → Accesses → Accesses → Accesses

-- What they do to the trace.
unfoldable pub performed : Accesses → Trace → Outcome Trace
performed finish t = ok t
performed (memory cycle type size cause address value rest) t =
    trace_memory cycle type size cause address value t >>= λ t'. performed rest t'
performed (register cycle type reg mode value rest) t =
    trace_register cycle type reg mode value t >>= λ t'. performed rest t'
performed (call file line inner rest) t =
    located file line (λ t'. performed inner t') t >>= λ t'. performed rest t'

-- The registers and modes have names, types and causes are 0 or 1, and the calls are nested at most
-- `free` deep.
abbrev pub Fits : ℕ → Accesses → Type 0
Fits free finish = Unit
Fits free (memory cycle type size cause address value rest) =
    (type < 2) × (cause < 2) × Fits free rest
Fits free (register cycle type reg mode value rest) =
    (type < 2) × (reg < 18) × (mode < 32) × Fits free rest
Fits free (call file line inner rest) = (0 < free) × Fits (free - 1) inner × Fits free rest

-- A traced call around what keeps the stack, on a stack with a place left.
located-Stays :
    (file : List ℕ) (line free : ℕ) (f : Trace → Outcome Trace) (t : Trace)
    → Room free t
    → t.location_stack_top < 2 ^ 32
    → 0 < free
    → ((t1 : Trace) → Room (free - 1) t1 → t1.location_stack_top < 2 ^ 32 → Stays t1 (f t1))
    → Stays t (located file line f t)
unfolding located trace_start_location trace_end_location push_location
located-Stays file line free f t h w one body = elim (Bool-cases t.enabled) [
  | inl on ↦
      let top = add32 t.location_stack_top 1 in
      let fits : ltb top stack_size ≡ true = ground (arith, h, one) in
      let t1 : Trace = record t {
        location_stack_top = top;
        location_file_stack = replaced_file t.location_file_stack top file;
        location_line_stack = update t.location_line_stack top line;
      } in
      let r = body t1 (ground (arith, h, one)) (ground (arith, h, one)) in
      let started : trace_start_location file line t ≡ ok t1 = rw on (rw fits refl) in
      let still_on : r.0.enabled ≡ true = r.2.switch ∙ on in
      let popped : Trace = record r.0 { location_stack_top = sub32 r.0.location_stack_top 1 } in
      let ended : trace_end_location r.0 ≡ popped = rw still_on refl in
      (
        popped,
        bind-ok _ started ∙ bind-ok _ r.1 ∙ ap ok ended,
        record { switch = r.2.switch; flags = r.2.flags; top = ground (arith, r.2.top, w, h, one) },
      )
  | inr off ↦
      let r = body t (omega (arith, h, one)) w in
      let started : trace_start_location file line t ≡ ok t = rw off refl in
      let still_off : r.0.enabled ≡ false = r.2.switch ∙ off in
      let ended : trace_end_location r.0 ≡ r.0 = rw still_off refl in
      (r.0, bind-ok _ started ∙ bind-ok _ r.1 ∙ ap ok ended, r.2)
]

Room-SameStack : (free : ℕ) (t t' : Trace) → SameStack t t' → Room free t → Room free t'
Room-SameStack free t t' s h = rw s.top h

then_rest :
    (free : ℕ) (rest : Accesses) (t : Trace) (o : Outcome Trace)
    → Stays t o
    → ((t' : Trace) → SameStack t t' → Stays t' (performed rest t'))
    → Stays t (o >>= λ t'. performed rest t')
then_rest free rest t o a next =
    let r = next a.0 a.2 in (r.0, bind-ok _ a.1 ∙ r.1, SameStack-trans t a.0 r.0 a.2 r.2)

-- Accesses and traced calls in any order and nesting, on registers and modes that have names, and
-- with types and causes that are 0 or 1, return without an access outside the tables of texts or
-- the stacks of 128 places, if the nesting is not deeper than the places left. They leave the switch, the flags and the top of the stack as they were.
pub performed-Stays :
    (a : Accesses) (free : ℕ) (t : Trace)
    → Fits free a
    → add32 t.location_stack_top 1 + free ≤ 128
    → t.location_stack_top < 2 ^ 32
    → (t' : Trace) × (performed a t ≡ ok t') × SameStack t t'
unfolding performed
performed-Stays finish free t f h w = (t, refl, SameStack-refl t)
performed-Stays (memory cycle type size cause address value rest) free t (y, c, f) h w =
    then_rest free rest t _ (trace_memory-Stays cycle type size cause address value free t h w y c)
      λ t' s. performed-Stays rest free t' f (Room-SameStack free t t' s h) (rw s.top w)
performed-Stays (register cycle type reg mode value rest) free t (y, r, m, f) h w =
    then_rest free rest t _ (trace_register-Stays cycle type reg mode value free t h w r m y)
      λ t' s. performed-Stays rest free t' f (Room-SameStack free t t' s h) (rw s.top w)
performed-Stays (call file line inner rest) free t (one, g, f) h w =
    then_rest free rest t _
      (located-Stays file line free (performed inner) t h w one
        λ t1 h1 w1. performed-Stays inner (free - 1) t1 g h1 w1)
      λ t' s. performed-Stays rest free t' f (Room-SameStack free t t' s h) (rw s.top w)
