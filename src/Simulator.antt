-- ===== src/Simulator.antt =====
-- arm_simulator-1.4/arm_simulator.c: `main`, from the options to the end of the gdb listener, where the
-- calls of malloc succeed and the irq listener reads nothing.
pub mod Answers
use uga_prog.Base.{ℕ, Bool, true, List, Option, none, some}
use uga_prog.Base.Outcome.{Outcome, Stop, ok, stop}
use uga_prog.Memory.{Memory, memory_create}
use uga_prog.Core.{Core}
use uga_prog.Exception.{arm_create}
use uga_prog.Debug.{Sign}
use uga_prog.Gdb.{Gdb, Build}
use uga_prog.Gdb.Analysis.{gdb_init_data}
use uga_prog.Scanner.{ParserData, gdb_scanner}
use uga_prog.Options.{Settings, unset, set_options}

-- What the blocks of malloc hold: the table of files, the memory, the core's cycle count and registers.
pub record Blocks : Type 0 where
  pub files : ℕ → List ℕ
  pub bytes : ℕ → ℕ
  pub cycles : ℕ
  pub registers : ℕ → ℕ

-- A null pointer, which is none of the calls' results here, is not passed on.
abbrev pub given : {A B : Type 0} → Option A → (A → Outcome B) → Outcome B
given none f = stop Stop.null_pointer
given (some a) f = f a

abbrev pub after : {A B : Type 0} → Outcome A → (A → Outcome B) → Outcome B
after (stop e) f = stop e
after (ok a) f = f a

abbrev pub memory_size : ℕ
memory_size = 0x20000

-- The session on an accepted connection.
unfoldable pub gdb_listener : Build → ℕ → Core → List ℕ → Outcome ParserData
gdb_listener build rounds arm stream =
    given (gdb_init_data true arm)
      λ gdb. after (gdb_scanner build rounds gdb stream) λ scanned. ok (scanned.1)

-- The memory and the processor that `main` creates.
unfoldable pub create_machine : Build → Blocks → Outcome Core
create_machine build found =
    given (memory_create true (some found.bytes) memory_size build.target_big)
      λ mem. after (arm_create (some found.cycles) (some found.registers) mem) λ arm. given arm ok

module _ (opens : List ℕ → Bool) (strcmp : List ℕ → List ℕ → Sign) where
  -- The options and their arguments as getopt_long gives them, and all bytes that gdb sends.
  unfoldable pub run_simulator :
      Build → ℕ → Blocks → List (ℕ × List ℕ) → List ℕ → Outcome (Settings × ParserData)
  run_simulator build rounds found options stream =
      after (set_options opens strcmp options (unset found.files)) λ settings.
        after (create_machine build found)
          λ arm. after (gdb_listener build rounds arm stream) λ served. ok (settings, served)
