-- ===== src/Simulator/Answers.antt =====
-- What a debugger gets that connects to a simulator just started.
use uga_prog.Base.{ℕ, ◌≡◌, refl, arith, Bool, true, List, [], All}
use uga_prog.Base.Outcome.{ok}
use uga_prog.Memory.{Memory, memory_create}
use uga_prog.Debug.{Sign}
use uga_prog.Gdb.{Gdb, Build}
use uga_prog.Gdb.Analysis.{gdb_init_data}
use uga_prog.Scanner.{ParserData, gdb_scanner}
use uga_prog.Options.{Settings, unset, set_options}
use uga_prog.Soundness.Reachable.{new_core, arm_create_lem}
use uga_prog.Remote.{Request, IsInside, stream_of}
use uga_prog.Remote.Refines.{HasServed, gdb_scanner_refines}
use uga_prog.Simulator.{Blocks, memory_size, gdb_listener, create_machine, run_simulator}

-- The memory, the processor and the session of a start.
abbrev pub first_memory : Build → Blocks → Memory
first_memory build found = record {
  bytes = found.bytes;
  taille = memory_size;
  be = build.target_big;
}

abbrev pub first_session : Build → Blocks → Gdb
first_session build found = record {
  arm = new_core found.registers (first_memory build found);
  target_exception = 0;
  packet = [];
  sent = [];
  open_end = true;
}

create_machine_lem :
    (build : Build) (found : Blocks)
    → create_machine build found ≡ ok (new_core found.registers (first_memory build found))
unfolding create_machine memory_create
create_machine_lem build found =
    rw (arm_create_lem found.cycles found.registers (first_memory build found)) refl

gdb_listener_lem :
    (build : Build) (rounds : ℕ) (found : Blocks) (stream : List ℕ) (d : ParserData)
    → gdb_scanner build rounds (first_session build found) stream ≡ ok (tt, d)
    → gdb_listener build rounds (new_core found.registers (first_memory build found)) stream ≡ ok d
unfolding gdb_listener gdb_init_data
gdb_listener_lem build rounds found stream d e = rw e refl

-- Where the options are accepted: a simulator that is started, over a memory that holds anything, and a
-- client that asks, with an acknowledgement behind each request, to read at most 509 bytes or to write as
-- many as the request says, inside the 0x20000 of the memory. The run ends with the settings of the
-- options and no invalid byte held. The client is sent an acknowledgement and an answer to each request
-- in turn, as a memory that is a function and starts with those bytes answers them, and the memory in the
-- end holds what that function does; the registers are those of a new core.
pub run_simulator-answers :
    (opens : List ℕ → Bool) (strcmp : List ℕ → List ℕ → Sign) (build : Build) (rounds : ℕ)
    (found : Blocks) (options : List (ℕ × List ℕ)) (settings : Settings) (rs : List Request)
    → set_options opens strcmp options (unset found.files) ≡ ok settings
    → All (IsInside memory_size) rs
    → (g' : Gdb) × (run_simulator opens strcmp build rounds found options (stream_of rs)
        ≡ ok (settings, record { gdb = g'; buffer = [] }))
      × HasServed rs (first_session build found) g'
unfolding run_simulator new_core
run_simulator-answers opens strcmp build rounds found options settings rs accepted inside =
    let (g', run, served) =
      gdb_scanner_refines build rounds (first_session build found) rs inside (omega arith) refl in
    (
      g',
      rw
          (
            accepted,
            create_machine_lem build found,
            gdb_listener_lem build rounds found (stream_of rs) _ run,
          )
          refl,
      served,
    )
