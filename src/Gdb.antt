-- ===== src/Gdb.antt =====
-- arm_simulator-1.4/gdb_protocol.c: packets, their handlers, and the analysis of a packet. The
-- memory of a session is that of its processor. The calls of debug and trace functions change nothing
-- here and are left out; the lock is held for the whole of a handler.
pub mod Words
pub mod WordsBack
pub mod Handlers
pub mod Transfers
pub mod Analysis
pub mod Frame
pub mod Sound
pub mod Session
pub mod Actions
pub mod Rounds
pub mod Answer
pub mod Continue
pub mod Restore
pub mod Snapshot
pub mod Dump
pub mod Escape
use uga_prog.Base.{
  ℕ, zero, suc, ◌+◌, ◌%◌, ◌^◌, Bool, true, false, List, [], ◌∷◌, ◌++◌, u8, leb, if◌then◌else◌,
  length,
}
use uga_prog.Base.Outcome.{Outcome, Stop, ok, stop, Run, pure, halt, modify, ◌>>=◌, ◌>>◌}
use uga_prog.Text.{print_byte, codes}
use uga_prog.Core.{Core, Act}

-- `packet` holds its first `len` bytes, and `sent` what was written to the descriptor. `open_end` is
-- false once the descriptor is shut down for writing.
pub record Gdb : Type 0 where
  pub arm : Core
  pub target_exception : ℕ
  pub packet : List ℕ
  pub sent : List ℕ
  pub open_end : Bool

-- The byte orders of the host and of the simulator, which are fixed when the program is built.
pub record Build : Type 0 where
  pub host_big : Bool
  pub target_big : Bool

abbrev pub max_packet_size : ℕ
max_packet_size = 1024

-- A call on the processor of the session.
unfoldable pub on_arm : {A : Type 0} → Act A → Run Gdb A
on_arm m g = elim (m g.arm) [ ok (a, p) ↦ ok (a, record g { arm = p }) | stop e ↦ stop e ]

-- A write to the descriptor. Of no bytes `Rio_writen` makes none.
unfoldable pub emit : List ℕ → Run Gdb (Unit {0})
emit [] g = ok (tt, g)
emit (c ∷ bytes) g =
    if g.open_end then ok (tt, record g { sent = g.sent ++ (c ∷ bytes) }) else stop Stop.broken_pipe

unfoldable pub gdb_send_ack : Run Gdb (Unit {0})
unfolding emit
gdb_send_ack = emit (b'+' ∷ [])

unfoldable pub gdb_require_retransmission : Run Gdb (Unit {0})
unfolding emit
gdb_require_retransmission = emit (b'-' ∷ [])

unfoldable pub gdb_transmit_packet : Run Gdb (Unit {0})
unfolding emit
gdb_transmit_packet g = emit g.packet g

-- The sum of the bytes in an unsigned char.
unfoldable pub check_sum : ℕ → List ℕ → ℕ
check_sum check [] = check
check_sum check (c ∷ s) = check_sum (u8 (check + c)) s

unfoldable pub framed : List ℕ → List ℕ
unfolding check_sum print_byte
framed text = b'$' ∷ text ++ b'#' ∷ print_byte (check_sum 0 text)

-- The buffer holds the text. With the four other characters and the final 0 the packet has to fit.
unfoldable pub gdb_send_buffer : List ℕ → Run Gdb (Unit {0})
unfolding framed
gdb_send_buffer text =
    if leb (length text + 5) max_packet_size
    then (do modify (λ g. record g { packet = framed text }); gdb_transmit_packet)
    else halt Stop.out_of_bounds

unfoldable pub gdb_send_data : List ℕ → Run Gdb (Unit {0})
gdb_send_data text = gdb_send_buffer text

-- What sprintf appends to the text in the buffer, which starts at 1 of the packet; the final 0 has to
-- fit too.
unfoldable pub print_at : List ℕ → List ℕ → Run Gdb (List ℕ)
print_at text piece =
    if leb (length text + length piece + 2) max_packet_size
    then pure (text ++ piece)
    else halt Stop.out_of_bounds
