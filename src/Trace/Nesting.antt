-- ===== src/Trace/Nesting.antt =====
-- The accesses that the macros of arm_simulator-1.4/trace_location.h trace.
use uga_prog.Base.{
  ℕ, suc, ◌+◌, ◌^◌, ◌≤◌, ◌<◌, ◌≡◌, ◌∙◌, refl, ap, sym, arith, true, List, [], ◌∷◌, ◌++◌,
  append_assoc, append-nil, add32, sub32,
}
use uga_prog.Base.Outcome.{ok, pure}
use uga_prog.Trace.{Trace}
use uga_prog.Trace.Events.{
  Event, enter, leave, memory_access, register_access, trace_event, trace_events, IsNested,
  finished, memory, register, call, IsAfter, depth, event_then, memory_event, register_event,
  entered, enter_event, leave_event,
}

-- Events that lead to such a state, whatever events follow.
record Passes (s : List Event) (t : Trace) : Type 0 where
  after : Trace
  is_after : IsAfter t after
  runs : (rest : List Event) → trace_events (s ++ rest) t ≡ trace_events rest after

IsAfter-trans : {a b c : Trace} → IsAfter a b → IsAfter b c → IsAfter a c
IsAfter-trans h k = record {
  still_enabled = k.still_enabled;
  same_top = k.same_top ∙ h.same_top;
  same_flags = k.same_flags ∙ h.same_flags;
}

-- One event before others.
Passes-event :
    (e : Event) (s : List Event) (t t' : Trace)
    → trace_event e t ≡ ok (tt, t')
    → IsAfter t t'
    → Passes s t'
    → Passes (e ∷ s) t
Passes-event e s t t' h a p = record {
  after = p.after;
  is_after = IsAfter-trans a p.is_after;
  runs = λ rest. event_then e (s ++ rest) t t' h ∙ p.runs rest;
}

Passes-call :
    (file : List ℕ) (line : ℕ) (inner s : List Event) (t : Trace)
    → t.enabled ≡ true
    → t.location_stack_top < 2 ^ 32
    → depth t < 128
    → Passes inner (entered file line t)
    → ((t' : Trace) → IsAfter t t' → Passes s t')
    → Passes (enter file line ∷ (inner ++ leave ∷ s)) t
unfolding entered
Passes-call file line inner s t on fits room p k =
    let back = record p.after { location_stack_top = sub32 p.after.location_stack_top 1 } in
    let a : IsAfter t back = record {
      still_enabled = p.is_after.still_enabled;
      same_top = ap (λ n. sub32 n 1) p.is_after.same_top ∙ restored_top t.location_stack_top fits;
      same_flags = p.is_after.same_flags;
    } in
    let q = k back a in
    record {
      after = q.after;
      is_after = IsAfter-trans a q.is_after;
      runs = λ rest.
          event_then (enter file line) ((inner ++ leave ∷ s) ++ rest) t _
            (enter_event file line t on room)
          ∙ ap (λ l. trace_events l (entered file line t)) (append_assoc inner (leave ∷ s) rest)
          ∙ p.runs (leave ∷ (s ++ rest))
          ∙ event_then leave (s ++ rest) p.after back (leave_event p.after p.is_after.still_enabled)
          ∙ q.runs rest;
    }
  where
    restored_top : (n : ℕ) → n < 2 ^ 32 → sub32 (add32 n 1) 1 ≡ n
    restored_top n h = omega arith

IsNested-Passes :
    (n : ℕ) (s : List Event)
    → IsNested n s
    → (t : Trace) → t.enabled ≡ true
    → t.location_stack_top < 2 ^ 32
    → depth t + n ≤ 128
    → Passes s t
unfolding entered
IsNested-Passes n _ (finished _) t on fits room = record {
  after = t;
  is_after = record { still_enabled = on; same_top = refl; same_flags = refl };
  runs = λ rest. refl;
}
IsNested-Passes n _ (memory _ cycle type size cause address value s h h' nested) t on fits room =
    let (t', e, a) = memory_event cycle type size cause address value t h h' on in
    Passes-event (memory_access cycle type size cause address value) s t t' e a (
      IsNested-Passes n s nested t' a.still_enabled (omega (arith, a.same_top))
        (omega (arith, a.same_top)))
IsNested-Passes n _ (register _ cycle type reg mode value s h h' h'' nested) t on fits room =
    let (t', e, a) = register_event cycle type reg mode value t h h' h'' on in
    Passes-event (register_access cycle type reg mode value) s t t' e a (
      IsNested-Passes n s nested t' a.still_enabled (omega (arith, a.same_top))
        (omega (arith, a.same_top)))
IsNested-Passes n _ (call m file line inner s nested nested') t on fits room =
    Passes-call file line inner s t on fits (omega arith)
      (IsNested-Passes m inner nested (entered file line t) on (omega arith) (omega arith))
      (λ t' a.
        IsNested-Passes (suc m) s nested' t' a.still_enabled (omega (arith, a.same_top))
          (omega (arith, a.same_top)))

-- Traced accesses, each of a type and a cause that is 0 or 1, those of registers with a number below 18 and
-- a mode below 32, with calls one inside the other `n` deep at most: they return where tracing is on and
-- the stack of locations has `n` free places, so no write to the stack is out of bounds. Tracing stays on, and
-- the flags and the top of the stack are what they were.
pub IsNested-trace_events :
    (n : ℕ) (s : List Event) (t : Trace)
    → IsNested n s
    → t.enabled ≡ true
    → t.location_stack_top < 2 ^ 32
    → depth t + n ≤ 128
    → (t' : Trace) × (trace_events s t ≡ ok (tt, t')) × IsAfter t t'
unfolding trace_events pure
IsNested-trace_events n s t nested on fits room =
    let p = IsNested-Passes n s nested t on fits room in
    (p.after, ap (λ l. trace_events l t) (sym (append-nil s)) ∙ p.runs [], p.is_after)
