-- ===== src/Tests/Streams.antt =====
-- Runs of the scanner and of whole sessions.
use uga_prog.Base.{suc, ◌+◌, ◌/◌, ◌≡◌, refl, arith, false, [], ◌∷◌, ◌++◌}
use uga_prog.Base.Outcome.{ok, ◌>>=◌, ◌>>◌}
use uga_prog.Text.{codes, print_byte}
use uga_prog.Gdb.{Build, on_arm, check_sum, framed, gdb_send_ack}
use uga_prog.Gdb.Analysis.{dispatch, gdb_init_data}
use uga_prog.Exception.{arm_exception}
use uga_prog.Scanner.{
  ParserData, error, on_gdb, handle_error, make_room, store_error, add_character_to_error, action,
  scan_loop, gdb_scanner,
}
use uga_prog.Scanner.Errors.{having_sent, requests, gdb_scanner-plain}
use uga_prog.Scanner.Packets.{scan_loop-framed}
use uga_prog.Scanner.Sessions.{
  irq_received, Session, started, matched, interrupted, IsSession, Session-IsSession,
}
use uga_prog.Soundness.Reachable.{new_core}
use uga_prog.Tests.Machine.{counting, machine, tripled}
use uga_prog.Tests.Steps.{start-Reachable}
use uga_prog.Tests.Packets.{session}

abbrev build : Build
build = record { host_big = false; target_big = false }

abbrev parsing : ParserData
parsing = record { gdb = session (machine 8 0x10); buffer = codes "z" }

gdb_scanner-plain_example :
    gdb_scanner build 5 (session (machine 8 0x10)) (codes "zz")
    ≡ ok (
      tt,
      record {
        gdb = having_sent (session (machine 8 0x10)) (requests ((2 + 1022) / 1023));
        buffer = [];
      },
    )
gdb_scanner-plain_example =
    gdb_scanner-plain build 5 (session (machine 8 0x10)) (codes "zz")
      (
        (ground arith, ground arith, ground arith, ground arith),
        ((ground arith, ground arith, ground arith, ground arith), tt),
      )
      refl

scan_loop-framed_example :
    scan_loop build 5 (suc 3) (framed (codes "?") ++ codes "+") parsing
    ≡ ((handle_error
            >> on_gdb (
                gdb_send_ack
                >> dispatch build 5
                    (codes "?" ++ 0 ∷ print_byte (check_sum 0 (codes "?")) ++ 0 ∷ [])))
          >> scan_loop build 5 3 (codes "+"))
        parsing
scan_loop-framed_example =
    scan_loop-framed build 5 3 (codes "?") (codes "+") parsing ((ground arith, ground arith), tt)

abbrev begun : ParserData
begun = record { gdb = session (new_core (tripled 8 0x10) (counting false)); buffer = [] }

begun-Session : Session build 64 false begun
unfolding gdb_init_data
begun-Session = started (new_core (tripled 8 0x10) (counting false)) _ start-Reachable refl

-- An invalid byte, and then an interrupt of the number 6.
interrupted_after : Session build 64 false (record begun { buffer = codes "z" })
unfolding action add_character_to_error make_room store_error irq_received on_gdb on_arm
    arm_exception ◌>>=◌
interrupted_after = interrupted 6 _ _ (matched 5 (error b'z') begun _ begun-Session refl) refl

Session-IsSession_example : IsSession 64 false (record begun { buffer = codes "z" })
Session-IsSession_example =
    Session-IsSession (record begun { buffer = codes "z" }) interrupted_after
