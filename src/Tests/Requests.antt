-- ===== src/Tests/Requests.antt =====
-- A run of the scanner on the requests of a client.
use uga_prog.Base.{
  ltb, ◌==◌, if◌then◌else◌, ℕ, Bool, false, ◌*◌, ◌%◌, ◌≡◌, refl, arith, List, [], ◌∷◌,
}
use uga_prog.Base.Outcome.{ok, modify}
use uga_prog.Text.{
  codes, atoi, number_of, skip_space, signed_decimal, scan_unsigned, take_digits, digit_value,
}
use uga_prog.Gdb.{Gdb}
use uga_prog.Scanner.{gdb_scanner}
use uga_prog.Remote.{Number, Request, read, write, stream_of}
use uga_prog.Remote.Refines.{HasServed, gdb_scanner_refines}
use uga_prog.Debug.{Sign, negative, equal, positive}
use uga_prog.Options.{Settings, unset, set_option, set_options}
use uga_prog.Base.Bits.{bit}
use uga_prog.Options.Plain.{last_port, asks_for, set_options-plain}
use uga_prog.Trace.{initial, memory_flag, trace_add}
use uga_prog.Simulator.{Blocks, run_simulator}
use uga_prog.Simulator.Answers.{first_session, run_simulator-answers}
use uga_prog.Tests.Machine.{machine}
use uga_prog.Tests.Packets.{build, session}

-- 0x1a and 2.
abbrev there : Number
there = record { first = 1; others = 10 ∷ [] }

abbrev two : Number
two = record { first = 2; others = [] }

-- The bytes `}` and 1 are written, and read back.
abbrev asked : List Request
asked = write there two (0x7d ∷ 1 ∷ []) ∷ read there two ∷ []

gdb_scanner_refines_example :
    (g' : Gdb) × (gdb_scanner build 5 (session (machine 8 0x4000_0010)) (stream_of asked)
      ≡ ok (tt, record { gdb = g'; buffer = [] }))
    × HasServed asked (session (machine 8 0x4000_0010)) g'
unfolding number_of
gdb_scanner_refines_example =
    gdb_scanner_refines build 5 (session (machine 8 0x4000_0010)) asked (omega arith) (omega arith)
      refl

-- The options -g 4242 and -m.
abbrev options : List (ℕ × List ℕ)
options = (b'g', codes "4242") ∷ (b'm', []) ∷ []

abbrev no_file : List ℕ → Bool
no_file name = false

abbrev compare_names : List ℕ → List ℕ → Sign
compare_names [] [] = equal
compare_names [] (d ∷ t) = negative
compare_names (c ∷ s) [] = positive
compare_names (c ∷ s) (d ∷ t) =
    let rest = compare_names s t in if c == d then rest else if ltb c d then negative else positive

abbrev blocks : Blocks
blocks = record { files = λ i. []; bytes = λ i. i % 256; cycles = 9; registers = λ i. i * 3 }

abbrev settings : Settings
settings = record (unset blocks.files) {
  gdb_port = 4242;
  trace = record initial { trace_flags = memory_flag };
}

accepted : set_options no_file compare_names options (unset blocks.files) ≡ ok settings
unfolding set_options set_option trace_add atoi skip_space signed_decimal scan_unsigned take_digits
    number_of digit_value modify
accepted = refl

run_simulator-answers_example :
    (g' : Gdb) × (run_simulator no_file compare_names build 5 blocks options (stream_of asked)
      ≡ ok (settings, record { gdb = g'; buffer = [] }))
    × HasServed asked (first_session build blocks) g'
unfolding number_of
run_simulator-answers_example =
    run_simulator-answers no_file compare_names build 5 blocks options settings asked accepted
      (omega arith)

set_options-plain_example :
    (s' : Settings) × (set_options no_file compare_names options settings ≡ ok s')
    × (s'.gdb_port ≡ last_port b'g' options 4242)
    × (s'.irq_port ≡ last_port b'i' options 0)
    × (bit s'.trace.trace_flags 1 ≡ (if asks_for 1 options then 1 else bit memory_flag 1))
    × (s'.debugged ≡ settings.debugged)
    × (s'.trace_file ≡ settings.trace_file)
set_options-plain_example =
    set_options-plain no_file compare_names options settings 1 (refl, (refl, tt))
