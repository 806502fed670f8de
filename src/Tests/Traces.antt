-- ===== src/Tests/Traces.antt =====
-- Runs of the trace and of the choice of an interrupt.
use uga_prog.Base.{◌≡◌, refl, arith, List, [], ◌∷◌, ◌++◌}
use uga_prog.Base.Outcome.{ok}
use uga_prog.Text.{codes}
use uga_prog.Trace.{Trace, initial}
use uga_prog.Trace.Events.{
  enter, leave, memory_access, register_access, Event, trace_events, IsNested, finished, memory,
  register, call, IsAfter,
}
use uga_prog.Trace.Nesting.{IsNested-trace_events}
use uga_prog.SendIrq.{irq_to_send}
use uga_prog.SendIrq.Choice.{IsChoice, irq_to_send_lem}

-- One location with an access inside, and one access behind it.
abbrev traced : List Event
traced =
    enter (codes "f") 3
    ∷ ((memory_access 1 1 4 0 16 7 ∷ []) ++ leave ∷ (register_access 1 0 15 16 9 ∷ []))

traced-IsNested : IsNested 1 traced
traced-IsNested =
    call 0 (codes "f") 3 (memory_access 1 1 4 0 16 7 ∷ []) (register_access 1 0 15 16 9 ∷ [])
      (memory 0 1 1 4 0 16 7 [] (omega arith) (omega arith) (finished 0))
      (register 1 1 0 15 16 9 [] (omega arith) (omega arith) (omega arith) (finished 1))

abbrev tracing : Trace
tracing = record initial { trace_flags = 11 }

IsNested-trace_events_example :
    (t' : Trace) × (trace_events traced tracing ≡ ok (tt, t')) × IsAfter tracing t'
IsNested-trace_events_example =
    IsNested-trace_events 1 traced tracing traced-IsNested refl (omega arith) (omega arith)

irq_to_send_lem_example :
    IsChoice (codes "interrupt") (irq_to_send (codes "host" ∷ codes "99" ∷ codes "interrupt" ∷ []))
irq_to_send_lem_example = irq_to_send_lem (codes "host") (codes "99") (codes "interrupt") []
