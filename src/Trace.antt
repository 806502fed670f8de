-- ===== src/Trace.antt =====
-- arm_simulator-1.4/trace.c, built without ARM_TRACE_FORMAT: what is printed is a list of lines. An
-- `int` is its bit pattern, so that the empty stack has its top at 2^32 - 1.
pub mod Events
pub mod Nesting
use uga_prog.Base.{
  ℕ, ◌+◌, ◌-◌, ◌^◌, bit_and, bit_or, Bool, true, false, ◌&&◌, List, [], ◌∷◌, ◌++◌, Option, none,
  some, add32, sub32, ltb, ◌==◌, if◌then◌else◌,
}
use uga_prog.Base.Outcome.{
  Outcome, Stop, ok, stop, Run, pure, halt, lift, gets, modify, ◌>>=◌, ◌>>◌,
}
use uga_prog.Core.{Core}
use uga_prog.Names.{arm_get_mode_name, arm_get_register_name}

abbrev pub Location : Type 0
Location = List ℕ × ℕ

-- The texts of a type and of a cause stand for their index in the table; `seq` is printed as no text.
pub data Line : Type 0 where
  memory_line : Option Location → (cycle seq type size cause address value : ℕ) → Line
  register_line : Option Location → (cycle type : ℕ) (register mode : List ℕ) (value : ℕ) → Line

pub record Trace : Type 0 where
  pub last_address : ℕ
  pub enabled : Bool
  pub location_stack : ℕ → Location
  pub location_stack_top : ℕ
  pub trace_flags : ℕ
  pub output : List Line

abbrev pub nowhere : Location
nowhere = ([], 0)

abbrev pub initial : Trace
initial = record {
  last_address = 0x1234_5678;
  enabled = true;
  location_stack = λ _. nowhere;
  location_stack_top = 2 ^ 32 - 1;
  trace_flags = 0;
  output = [];
}

abbrev pub memory_flag : ℕ
memory_flag = 1

abbrev pub registers_flag : ℕ
registers_flag = 2

abbrev pub state_flag : ℕ
state_flag = 4

abbrev pub position_flag : ℕ
position_flag = 8

-- The stack has 128 places.
unfoldable pub trace_start_location : List ℕ → ℕ → Run Trace (Unit {0})
trace_start_location file line t =
    let top = add32 t.location_stack_top 1 in
    if t.enabled
    then if ltb top 128
      then ok (
        tt,
        record t {
          location_stack_top = top;
          location_stack = λ i. if i == top then (file, line) else t.location_stack i;
        },
      )
      else stop Stop.out_of_bounds
    else ok (tt, t)

unfoldable pub trace_end_location : Run Trace (Unit {0})
trace_end_location t =
    if t.enabled
    then ok (tt, record t { location_stack_top = sub32 t.location_stack_top 1 })
    else ok (tt, t)

abbrev pub has_flag : Trace → ℕ → Bool
has_flag t flag = if bit_and t.trace_flags flag == 0 then false else true

-- What is printed before an access, where the top is not negative.
unfoldable pub trace_print_location : Trace → Option Location
trace_print_location t =
    if t.enabled && has_flag t position_flag
    then if ltb t.location_stack_top (2 ^ 31)
      then some (t.location_stack t.location_stack_top)
      else none
    else none

abbrev pub printed : Trace → Line → Trace
printed t line = record t { output = t.output ++ line ∷ [] }

-- The line of an access, behind the others.
abbrev pub with_memory : (cycle type size cause address value : ℕ) → Trace → Trace
with_memory cycle type size cause address value t =
    let seq = if address == add32 t.last_address 4 then 1 else 0 in
    printed (record t { last_address = address })
      (memory_line (trace_print_location t) cycle seq type size cause address value)

-- The tables of types and of causes have two entries.
unfoldable pub trace_memory : (cycle type size cause address value : ℕ) → Run Trace (Unit {0})
unfolding trace_print_location
trace_memory cycle type size cause address value t =
    if t.enabled && has_flag t memory_flag
    then if ltb type 2 && ltb cause 2
      then ok (tt, with_memory cycle type size cause address value t)
      else stop Stop.out_of_bounds
    else ok (tt, t)

-- `mode_name`, of five bytes.
abbrev pub suffix : Option (List ℕ) → List ℕ
suffix none = []
suffix (some name) = b'_' ∷ name

abbrev pub with_register :
    (cycle type : ℕ) (name : List ℕ) (mode_name : Option (List ℕ)) (value : ℕ) → Trace → Trace
with_register cycle type name mode_name value t =
    printed t (register_line (trace_print_location t) cycle type name (suffix mode_name) value)

unfoldable pub register_traced : (cycle type reg mode value : ℕ) → Run Trace (Unit {0})
unfolding trace_print_location
register_traced cycle type reg mode value = do
  mode_name ← lift (arm_get_mode_name mode)
  name ← lift (arm_get_register_name reg)
  if ltb type 2
      then modify (with_register cycle type name mode_name value)
      else halt Stop.out_of_bounds

unfoldable pub trace_register : (cycle type reg mode value : ℕ) → Run Trace (Unit {0})
unfolding register_traced
trace_register cycle type reg mode value t =
    if t.enabled && has_flag t registers_flag
    then register_traced cycle type reg mode value t
    else ok (tt, t)

-- Over what `arm_print_state` does.
unfoldable pub trace_arm_state : (Core → Run Trace (Unit {0})) → Core → Run Trace (Unit {0})
trace_arm_state arm_print_state p t =
    if t.enabled && has_flag t state_flag then arm_print_state p t else ok (tt, t)

unfoldable pub trace_disable : Run Trace (Unit {0})
trace_disable = modify (λ t. record t { enabled = false })

unfoldable pub trace_enable : Run Trace (Unit {0})
trace_enable = modify (λ t. record t { enabled = true })

unfoldable pub trace_add : ℕ → Run Trace (Unit {0})
trace_add flags = modify (λ t. record t { trace_flags = bit_or t.trace_flags flags })
