-- ===== src/Gdb/Actions.antt =====
-- Single actions of a session, run.
use uga_prog.Base.{ℕ, ◌+◌, ◌≤◌, ◌≡◌, refl, true, List, ◌++◌, length, le→leb}
use uga_prog.Base.Outcome.{Outcome, ok, pure, modify, ◌>>=◌}
use uga_prog.Core.{Core}
use uga_prog.Gdb.{
  Gdb, on_arm, emit, framed, print_at, gdb_transmit_packet, gdb_send_buffer, gdb_send_data,
}

abbrev pub pc_of : Core → ℕ
pc_of p = p.reg.reg 15

pub on_arm-ok :
    {A : Type 0} (m : Core → Outcome (A × Core)) (g : Gdb) (a : A) (p : Core)
    → m g.arm ≡ ok (a, p)
    → on_arm m g ≡ ok (a, record g { arm = p })
unfolding on_arm
on_arm-ok m g a p e = rw (e, on_arm) refl

pub sent_text :
    (text : List ℕ) (g : Gdb)
    → length text + 5 ≤ 1024
    → g.open_end ≡ true
    → gdb_send_data text g
      ≡ ok (tt, record g { packet = framed text; sent = g.sent ++ framed text })
unfolding gdb_send_data gdb_send_buffer gdb_transmit_packet emit modify ◌>>=◌
sent_text text g h opened = rw (le→leb (length text + 5) 1024 h, opened) refl

pub print_at_lem :
    (text piece : List ℕ) (g : Gdb)
    → length text + length piece + 2 ≤ 1024
    → print_at text piece g ≡ ok (text ++ piece, g)
unfolding print_at pure
print_at_lem text piece g h = rw (le→leb (length text + length piece + 2) 1024 h) refl
