-- ===== src/Options.antt =====
-- arm_simulator-1.4/arm_simulator.c: the options of the command line, one by one as `getopt_long` gives
-- them. Whether `fopen` opens a file, and `strcmp`, are parameters.
pub mod Plain
use uga_prog.Base.{ℕ, Bool, List, [], ◌∷◌, Option, none, some, u16, ◌==◌, if◌then◌else◌}
use uga_prog.Base.Outcome.{Outcome, Stop, ok, stop}
use uga_prog.Text.{atoi}
use uga_prog.Debug.{Sign, Table, add_debug_to}
use uga_prog.Trace.{
  Trace, initial, memory_flag, registers_flag, state_flag, position_flag, trace_add,
}

-- What the options set: the ports, the file of the trace, with `none` for the standard output, the
-- flags of the trace, and the table of debugged files.
pub record Settings : Type 0 where
  pub gdb_port : ℕ
  pub irq_port : ℕ
  pub trace_file : Option (List ℕ)
  pub trace : Trace
  pub debugged : Table (List ℕ)

-- Before the first option. What the places of the empty table hold is not read.
abbrev pub unset : (ℕ → List ℕ) → Settings
unset files = record {
  gdb_port = 0;
  irq_port = 0;
  trace_file = none;
  trace = initial;
  debugged = record { files = files; nb = 0 };
}

module _ (opens : List ℕ → Bool) (strcmp : List ℕ → List ℕ → Sign) where
  abbrev with_trace : Settings → Outcome (Unit {0} × Trace) → Outcome Settings
  with_trace s (ok (_, t)) = ok (record s { trace = t })
  with_trace s (stop e) = stop e

  abbrev with_debugged : Settings → Outcome (Table (List ℕ)) → Outcome Settings
  with_debugged s (ok t) = ok (record s { debugged = t })
  with_debugged s (stop e) = stop e

  -- An option and its argument, which is empty where it has none.
  unfoldable pub set_option : ℕ → List ℕ → Settings → Outcome Settings
  unfolding trace_add
  set_option opt optarg s =
      if opt == b'g'
      then ok (record s { gdb_port = u16 (atoi optarg) })
      else if opt == b'i'
      then ok (record s { irq_port = u16 (atoi optarg) })
      else if opt == b'h'
      then stop (Stop.exited 0)
      else if opt == b't'
      then if opens optarg then ok (record s { trace_file = some optarg }) else stop (Stop.exited 1)
      else if opt == b'r'
      then with_trace s (trace_add registers_flag s.trace)
      else if opt == b'm'
      then with_trace s (trace_add memory_flag s.trace)
      else if opt == b's'
      then with_trace s (trace_add state_flag s.trace)
      else if opt == b'p'
      then with_trace s (trace_add position_flag s.trace)
      else if opt == b'd'
      then with_debugged s (add_debug_to strcmp optarg s.debugged)
      else stop (Stop.exited 1)

  unfoldable pub set_options : List (ℕ × List ℕ) → Settings → Outcome Settings
  unfolding set_option
  set_options [] s = ok s
  set_options ((opt, optarg) ∷ options) s = elim (set_option opt optarg s) [
    | ok s' ↦ set_options options s'
    | stop e ↦ stop e
  ]
