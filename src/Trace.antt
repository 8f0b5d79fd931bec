-- ===== src/Trace.antt =====
-- trace.c: what is printed of the accesses, and the places in the source that they are made from.
pub mod Printed
pub mod Balanced
use projet_s5_prog.Memory.{update}
use projet_s5_prog.Common.{
  Bool, List, Option, Outcome, [], add32, bit_and, false, fault, if◌then◌else◌, ltb, minus_one,
  none, nonzero, ok, some, sub32, true, ℕ, ◌&&◌, ◌==◌, ◌>>=◌, ◌^◌, ◌∷◌,
}
use projet_s5_prog.Names.{arm_get_mode_name, arm_get_register_name}
use projet_s5_prog.Text.{bytes}

-- `MEMORY`, `REGISTERS`, `STATE` and `POSITION` of trace.h
abbrev pub memory_flag : ℕ
memory_flag = 1

abbrev pub registers_flag : ℕ
registers_flag = 2

abbrev pub state_flag : ℕ
state_flag = 4

abbrev pub position_flag : ℕ
position_flag = 8

-- A line of the output: the place of the access where it is printed, and the values.
pub data Line : Type 0 where
  memory_line :
      Option (List ℕ × ℕ)
      → (cycle seq : ℕ) → (type : List ℕ) → (size : ℕ) → (cause : List ℕ) → (address value : ℕ)
      → Line
  register_line : Option (List ℕ × ℕ) → (cycle : ℕ) → (type name mode : List ℕ) → (value : ℕ) → Line

-- `location_stack_top` is an `int`, here modulo 2^32.
pub record Trace : Type 0 where
  pub enabled : Bool
  pub trace_flags : ℕ
  pub last_address : ℕ
  pub location_stack_top : ℕ
  pub location_file_stack : ℕ → List ℕ
  pub location_line_stack : ℕ → ℕ
  pub output : List Line

-- The state that the program starts with; what is on the stack is not used before it is set.
abbrev pub first_trace : Trace
first_trace = record {
  enabled = true;
  trace_flags = 0;
  last_address = 0x12345678;
  location_stack_top = minus_one;
  location_file_stack = λ j. [];
  location_line_stack = λ j. 0;
  output = [];
}

abbrev pub stack_size : ℕ
stack_size = 128

abbrev pub replaced_file : (ℕ → List ℕ) → ℕ → List ℕ → ℕ → List ℕ
replaced_file f i name j = if i == j then name else f j

unfoldable pub push_location : ℕ → List ℕ → ℕ → Trace → Outcome Trace
push_location top file line t =
    if ltb top stack_size
    then ok (record t {
      location_stack_top = top;
      location_file_stack = replaced_file t.location_file_stack top file;
      location_line_stack = update t.location_line_stack top line;
    })
    else fault

unfoldable pub trace_start_location : List ℕ → ℕ → Trace → Outcome Trace
trace_start_location file line t =
    if t.enabled then push_location (add32 t.location_stack_top 1) file line t else ok t

unfoldable pub trace_end_location : Trace → Trace
trace_end_location t =
    if t.enabled then record t { location_stack_top = sub32 t.location_stack_top 1 } else t

abbrev pub nonneg : ℕ → Bool
nonneg n = ltb n (2 ^ 31)

unfoldable pub location_at : ℕ → Trace → Outcome (Option (List ℕ × ℕ))
location_at top t =
    if ltb top stack_size
    then ok (some (t.location_file_stack top, t.location_line_stack top))
    else fault

-- `trace_print_location`: the place, where it is printed.
unfoldable pub trace_print_location : Trace → Outcome (Option (List ℕ × ℕ))
unfolding location_at
trace_print_location t =
    if t.enabled && nonzero (bit_and t.trace_flags position_flag) && nonneg t.location_stack_top
    then location_at t.location_stack_top t
    else ok none

-- An entry of a table with two entries.
abbrev pub one_of_two : List ℕ → List ℕ → ℕ → Outcome (List ℕ)
one_of_two first second i = if i == 0 then ok first else if i == 1 then ok second else fault

unfoldable pub trace_memory_type : ℕ → Outcome (List ℕ)
trace_memory_type type = one_of_two (bytes "write") (bytes "read") type

unfoldable pub trace_memory_cause : ℕ → Outcome (List ℕ)
trace_memory_cause cause = one_of_two [] (bytes ", fetch") cause

unfoldable pub trace_register_type : ℕ → Outcome (List ℕ)
trace_register_type type = one_of_two (bytes "write") (bytes "read") type

-- What is printed where the switch and the flag are on. The two texts of `trace_memory_seq` are
-- empty; `seq` is kept in the line.
unfoldable pub printed_memory :
    (cycle type size cause address value : ℕ) → Trace → Option (List ℕ × ℕ) → Outcome Trace
unfolding trace_memory_type trace_memory_cause
printed_memory cycle type size cause address value t place = do
  let seq = if address == add32 t.last_address 4 then 1 else 0
  type_text ← trace_memory_type type
  cause_text ← trace_memory_cause cause
  ok (record t {
    last_address = address;
    output = memory_line place cycle seq type_text size cause_text address value ∷ t.output;
  })

unfoldable pub traced_memory : (cycle type size cause address value : ℕ) → Trace → Outcome Trace
unfolding printed_memory
traced_memory cycle type size cause address value t = do
  place ← trace_print_location t
  printed_memory cycle type size cause address value t place

unfoldable pub trace_memory : (cycle type size cause address value : ℕ) → Trace → Outcome Trace
unfolding traced_memory
trace_memory cycle type size cause address value t =
    if t.enabled && nonzero (bit_and t.trace_flags memory_flag)
    then traced_memory cycle type size cause address value t
    else ok t

abbrev pub mode_suffix : Option (List ℕ) → List ℕ
mode_suffix none = []
mode_suffix (some name) = b'_' ∷ name

unfoldable pub printed_register : (cycle type reg mode value : ℕ) → Trace → Outcome Trace
unfolding trace_register_type
printed_register cycle type reg mode value t = do
  mode_name ← arm_get_mode_name mode
  place ← trace_print_location t
  type_text ← trace_register_type type
  name ← arm_get_register_name reg
  ok (record t {
    output = register_line place cycle type_text name (mode_suffix mode_name) value ∷ t.output;
  })

unfoldable pub trace_register : (cycle type reg mode value : ℕ) → Trace → Outcome Trace
unfolding printed_register
trace_register cycle type reg mode value t =
    if t.enabled && nonzero (bit_and t.trace_flags registers_flag)
    then printed_register cycle type reg mode value t
    else ok t

unfoldable pub trace_disable : Trace → Trace
trace_disable t = record t { enabled = false }

unfoldable pub trace_enable : Trace → Trace
trace_enable t = record t { enabled = true }

-- `(LOCATION, f(...)+END_LOCATION)` of trace_location.h around a call.
unfoldable pub located : List ℕ → ℕ → (Trace → Outcome Trace) → Trace → Outcome Trace
unfolding trace_start_location trace_end_location
located file line f t = do
  t1 ← trace_start_location file line t
  t2 ← f t1
  ok (trace_end_location t2)
