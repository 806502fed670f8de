-- ===== src/Remote/Serve.antt =====
-- One request, served: its packet, as gdb_packet_analysis takes it.
use uga_prog.Base.{
  ℕ, ◌^◌, ◌<◌, ◌≡◌, ◌∙◌, ap, refl, sym, arith, true, List, [], ◌∷◌, ◌++◌, append_assoc, some,
  length, le→leb,
}
use uga_prog.Base.Outcome.{ok, ◌>>◌}
use uga_prog.Base.Keeps.{bind_ok}
use uga_prog.Text.{digit_value}
use uga_prog.Text.Numbers.{IsEnd}
use uga_prog.Gdb.{Gdb, Build, gdb_send_ack, emit}
use uga_prog.Gdb.Analysis.{dispatch, handler}
use uga_prog.Gdb.Transfers.{scan_pair, read_memory, write_memory_binary}
use uga_prog.Gdb.Dump.{dumped, read_memory_lem}
use uga_prog.Gdb.Escape.{escape, written, write_memory_binary_lem}
use uga_prog.Remote.{
  Number, value_of, Request, read, write, is_special, pair_text, request_text, IsInside,
}
use uga_prog.Remote.Requests.{scan_pair-pair_text, after_char-write}

-- The session after an acknowledgement, and after a request.
abbrev pub acked : Gdb → Gdb
acked g = record g { sent = g.sent ++ b'+' ∷ [] }

abbrev pub after_request : Gdb → Request → Gdb
after_request g (read address size) = dumped (acked g) (value_of size) (value_of address)
after_request g (write address size bytes) = written (acked g) (value_of address) bytes

ack_sent : (g : Gdb) → g.open_end ≡ true → gdb_send_ack g ≡ ok (tt, acked g)
unfolding gdb_send_ack emit
ack_sent g opened = rw opened refl

zero-IsEnd : IsEnd 0
unfolding digit_value
zero-IsEnd = (refl, refl)

colon-IsEnd : IsEnd b':'
unfolding digit_value
colon-IsEnd = (refl, refl)

read_served :
    (address size : Number) (s : List ℕ) (g : Gdb)
    → IsInside g.arm.mem.taille (read address size)
    → g.arm.mem.taille < 2 ^ 32
    → g.open_end ≡ true
    → read_memory (pair_text address size ++ 0 ∷ s) g
      ≡ ok (tt, dumped g (value_of size) (value_of address))
read_served address size s g (digits, digits', inside, few) small opened =
    let asked =
      scan_pair-pair_text address size 0 s digits digits' zero-IsEnd (omega arith) (omega arith) in
    let answer =
      read_memory_lem (pair_text address size ++ 0 ∷ s) g (value_of size) (value_of address) asked
        inside small opened in
    rw (le→leb (value_of size) 509 few) at answer

write_served :
    (address size : Number) (bytes s : List ℕ) (g : Gdb)
    → IsInside g.arm.mem.taille (write address size bytes)
    → g.arm.mem.taille < 2 ^ 32
    → g.open_end ≡ true
    → write_memory_binary (pair_text address size ++ b':' ∷ (escape is_special bytes ++ s)) g
      ≡ ok (tt, written g (value_of address) bytes)
write_served address size bytes s g (digits, digits', inside, start, counted, small_bytes) small
      opened =
    let content = escape is_special bytes ++ s in
    let asked : scan_pair (pair_text address size ++ b':' ∷ content)
        ≡ some (value_of address, length bytes) =
      scan_pair-pair_text address size b':' content digits digits' colon-IsEnd (omega arith)
        (omega arith)
      ∙ ap (λ n. some (value_of address, n)) (sym counted) in
    write_memory_binary_lem is_special (pair_text address size ++ b':' ∷ content) s g
      (value_of address) bytes refl asked (after_char-write address size content digits digits')
      start (omega arith) small opened

-- A request, acknowledged and handled, with anything behind its text.
pub dispatch-request :
    (build : Build) (rounds : ℕ) (r : Request) (s : List ℕ) (g : Gdb)
    → IsInside g.arm.mem.taille r
    → g.arm.mem.taille < 2 ^ 32
    → g.open_end ≡ true
    → (gdb_send_ack >> dispatch build rounds (request_text r ++ 0 ∷ s)) g
      ≡ ok (tt, after_request g r)
unfolding dispatch handler
dispatch-request build rounds (read address size) s g inside small opened =
    bind_ok _ _ (ack_sent g opened) (read_served address size s (acked g) inside small opened)
dispatch-request build rounds (write address size bytes) s g inside small opened =
    let regroup = append_assoc (pair_text address size) (b':' ∷ escape is_special bytes) (0 ∷ s) in
    bind_ok _ _ (ack_sent g opened) (
      ap (λ t. write_memory_binary t (acked g)) regroup
      ∙ write_served address size bytes (0 ∷ s) (acked g) inside small opened)
