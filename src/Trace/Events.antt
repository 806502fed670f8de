-- ===== src/Trace/Events.antt =====
-- The calls of the trace that an access makes: the macros of arm_simulator-1.4/trace_location.h.
use uga_prog.Base.{
  ℕ, suc, ◌<◌, ◌≡◌, ◌∙◌, refl, ap, Bool-cases, inl, inr, true, ◌&&◌, List, [], ◌∷◌, ◌++◌, add32,
  sub32, ◌==◌, if◌then◌else◌, lt→ltb,
}
use uga_prog.Base.Outcome.{ok, Run, pure, lift, modify, ◌>>=◌}
use uga_prog.Base.Keeps.{bind_ok}
use uga_prog.Names.{arm_get_mode_name, arm_get_register_name, mode_name_at, register_name_at}
use uga_prog.Trace.{
  Trace, trace_start_location, trace_end_location, trace_memory, trace_register, register_traced,
  has_flag, memory_flag, registers_flag, with_memory, with_register,
}

-- The calls of the trace that an access makes, in order.
pub data Event : Type 0 where
  enter : (file : List ℕ) (line : ℕ) → Event
  leave : Event
  memory_access : (cycle type size cause address value : ℕ) → Event
  register_access : (cycle type reg mode value : ℕ) → Event

unfoldable pub trace_event : Event → Run Trace (Unit {0})
trace_event (enter file line) = trace_start_location file line
trace_event leave = trace_end_location
trace_event (memory_access cycle type size cause address value) =
    trace_memory cycle type size cause address value
trace_event (register_access cycle type reg mode value) = trace_register cycle type reg mode value

unfoldable pub trace_events : List Event → Run Trace (Unit {0})
unfolding trace_event
trace_events [] = pure tt
trace_events (e ∷ events) = trace_event e >>= λ _. trace_events events

-- Calls one inside the other, `n` deep at most, around accesses whose type and cause are 0 or 1 and whose
-- register and mode are in the bounds of the tables of names.
pub data IsNested : ℕ → List Event → Type 0 where
  finished : (n : ℕ) → IsNested n []
  memory :
      (n cycle type size cause address value : ℕ) (s : List Event)
      → type < 2
      → cause < 2
      → IsNested n s
      → IsNested n (memory_access cycle type size cause address value ∷ s)
  register :
      (n cycle type reg mode value : ℕ) (s : List Event)
      → type < 2
      → reg < 18
      → mode < 32
      → IsNested n s
      → IsNested n (register_access cycle type reg mode value ∷ s)
  call :
      (n : ℕ) (file : List ℕ) (line : ℕ) (inner s : List Event)
      → IsNested n inner
      → IsNested (suc n) s
      → IsNested (suc n) (enter file line ∷ (inner ++ leave ∷ s))

-- A state in which tracing is on, with the same flags and the same top of the stack.
pub record IsAfter (t t' : Trace) : Type 0 where
  pub still_enabled : t'.enabled ≡ true
  pub same_top : t'.location_stack_top ≡ t.location_stack_top
  pub same_flags : t'.trace_flags ≡ t.trace_flags

-- The number of locations on the stack.
abbrev pub depth : Trace → ℕ
depth t = add32 t.location_stack_top 1

pub event_then :
    (e : Event) (s : List Event) (t t' : Trace)
    → trace_event e t ≡ ok (tt, t')
    → trace_events (e ∷ s) t ≡ trace_events s t'
unfolding trace_events
event_then e s t t' h = bind_ok _ _ h refl

pub memory_event :
    (cycle type size cause address value : ℕ) (t : Trace)
    → type < 2
    → cause < 2
    → t.enabled ≡ true
    → (t' : Trace) × (trace_event (memory_access cycle type size cause address value) t
        ≡ ok (tt, t'))
      × IsAfter t t'
unfolding trace_event trace_memory
memory_event cycle type size cause address value t h h' on =
    elim (Bool-cases (has_flag t memory_flag)) [
      | inl traced ↦ (
        with_memory cycle type size cause address value t,
        rw (on, traced, lt→ltb type 2 h, lt→ltb cause 2 h') refl,
        record { still_enabled = on; same_top = refl; same_flags = refl },
      )
      | inr silent ↦ (
        t,
        rw (on, silent) refl,
        record { still_enabled = on; same_top = refl; same_flags = refl },
      )
    ]

register_traced_lem :
    (cycle type reg mode value : ℕ) (t : Trace)
    → type < 2
    → reg < 18
    → mode < 32
    → register_traced cycle type reg mode value t
      ≡ ok (tt, with_register cycle type (register_name_at reg) (mode_name_at mode) value t)
unfolding register_traced arm_get_mode_name arm_get_register_name lift modify
register_traced_lem cycle type reg mode value t h h' h'' =
    let mode_found : arm_get_mode_name mode ≡ ok (mode_name_at mode) =
      rw (lt→ltb mode 32 h'') refl in
    let name_found : arm_get_register_name reg ≡ ok (register_name_at reg) =
      rw (lt→ltb reg 18 h') refl in
    bind_ok _ _ (ap (λ o. lift o t) mode_found)
      (bind_ok _ _ (ap (λ o. lift o t) name_found) (rw (lt→ltb type 2 h) refl))

pub register_event :
    (cycle type reg mode value : ℕ) (t : Trace)
    → type < 2
    → reg < 18
    → mode < 32
    → t.enabled ≡ true
    → (t' : Trace) × (trace_event (register_access cycle type reg mode value) t ≡ ok (tt, t'))
      × IsAfter t t'
unfolding trace_event trace_register
register_event cycle type reg mode value t h h' h'' on =
    elim (Bool-cases (has_flag t registers_flag)) [
      | inl traced ↦ (
        with_register cycle type (register_name_at reg) (mode_name_at mode) value t,
        ap
              (λ b.
                if b && has_flag t registers_flag
                then register_traced cycle type reg mode value t
                else ok (tt, t))
              on
            ∙ ap (λ b. if b then register_traced cycle type reg mode value t else ok (tt, t)) traced
            ∙ register_traced_lem cycle type reg mode value t h h' h'',
        record { still_enabled = on; same_top = refl; same_flags = refl },
      )
      | inr silent ↦ (
        t,
        rw (on, silent) refl,
        record { still_enabled = on; same_top = refl; same_flags = refl },
      )
    ]

-- Within a location, and behind it.
unfoldable pub entered : List ℕ → ℕ → Trace → Trace
entered file line t =
    let top = add32 t.location_stack_top 1 in
    record t {
      location_stack_top = top;
      location_stack = λ i. if i == top then (file, line) else t.location_stack i;
    }

pub enter_event :
    (file : List ℕ) (line : ℕ) (t : Trace)
    → t.enabled ≡ true
    → depth t < 128
    → trace_event (enter file line) t ≡ ok (tt, entered file line t)
unfolding trace_event trace_start_location entered
enter_event file line t on room = rw (on, lt→ltb (depth t) 128 room) refl

pub leave_event :
    (t : Trace)
    → t.enabled ≡ true
    → trace_event leave t ≡ ok (tt, record t { location_stack_top = sub32 t.location_stack_top 1 })
unfolding trace_event trace_end_location
leave_event t on = rw on refl
