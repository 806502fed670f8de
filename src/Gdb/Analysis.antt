-- ===== src/Gdb/Analysis.antt =====
-- The start of a session, the table of handlers, and `gdb_packet_analysis`.
use uga_prog.Base.{
  ℕ, ◌+◌, ◌-◌, Bool, true, List, [], ◌∷◌, ◌++◌, Option, none, some, ◌==◌, if◌then◌else◌, length,
  take, drop,
}
use uga_prog.Base.Outcome.{Stop, Run, halt, ◌>>=◌, ◌>>◌}
use uga_prog.Text.{scan_x}
use uga_prog.Core.{Core}
use uga_prog.Gdb.{Gdb, Build, check_sum, gdb_send_ack, gdb_require_retransmission, gdb_send_data}
use uga_prog.Gdb.Handlers.{
  known, first_of, cont, kill_request, gdb_query, read_general_registers, gdb_read_register, reason,
  set_thread, gdb_step, write_general_registers, gdb_write_register,
}
use uga_prog.Gdb.Transfers.{read_memory, write_memory_binary}

-- `none` is the null pointer that a failed malloc gives.
unfoldable pub gdb_init_data : Bool → Core → Option Gdb
gdb_init_data allocated arm =
    if allocated
    then some (record { arm = arm; target_exception = 0; packet = []; sent = []; open_end = true })
    else none

-- The table that `gdb_init` fills; `rounds` cuts `cont` off.
unfoldable pub handler : Build → ℕ → ℕ → Option (List ℕ → Run Gdb (Unit {0}))
handler build rounds index =
    if index == b'c'
    then some (cont rounds)
    else if index == b'k'
    then some kill_request
    else if index == b'q'
    then some gdb_query
    else if index == b'g'
    then some (read_general_registers build)
    else if index == b'm'
    then some read_memory
    else if index == b'p'
    then some (gdb_read_register build)
    else if index == b'?'
    then some reason
    else if index == b'H'
    then some set_thread
    else if index == b's'
    then some gdb_step
    else if index == b'G'
    then some (write_general_registers build)
    else if index == b'X'
    then some write_memory_binary
    else if index == b'P'
    then some (gdb_write_register build)
    else none

-- The command is the first byte of the text, or the final 0 of an empty one.
unfoldable pub dispatch : Build → ℕ → List ℕ → Run Gdb (Unit {0})
unfolding handler
dispatch build rounds [] = halt Stop.out_of_bounds
dispatch build rounds (index ∷ text) = elim (handler build rounds index) [
  | none ↦ gdb_send_data []
  | some run ↦ run text
]

-- The text between `$` and `#`, and what stands after the `#`.
abbrev pub body_of : List ℕ → List ℕ
body_of packet = take (length packet - 4) (drop 1 packet)

abbrev pub trailer_of : List ℕ → List ℕ
trailer_of packet = drop (length packet - 4 + 2) packet

-- The packet is followed by the final 0 of its text. The `#` is overwritten by a 0.
unfoldable pub gdb_packet_analysis : Build → ℕ → List ℕ → Run Gdb (Unit {0})
unfolding check_sum dispatch
gdb_packet_analysis build rounds packet = do
  given ← known (first_of (scan_x (trailer_of packet)))
  if check_sum 0 (body_of packet) == given
      then (do
        gdb_send_ack
        dispatch build rounds (body_of packet ++ 0 ∷ trailer_of packet ++ 0 ∷ []))
      else gdb_require_retransmission
