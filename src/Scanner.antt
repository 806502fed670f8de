-- ===== src/Scanner.antt =====
-- arm_simulator-1.4/scanner.l: the rules by which the stream from gdb is cut into packets, and what is
-- done at each. Of the patterns that match, the longest one counts.
pub mod Errors
pub mod Packets
pub mod Sessions
use uga_prog.Base.{
  ℕ, zero, suc, ◌+◌, ◌-◌, Bool, true, false, ◌&&◌, ◌||◌, List, [], ◌∷◌, ◌++◌, Option, none, some,
  ltb, leb, ◌==◌, if◌then◌else◌, length,
}
use uga_prog.Base.Outcome.{Outcome, Stop, ok, stop, Run, pure, halt, modify, ◌>>=◌, ◌>>◌}
use uga_prog.Gdb.{Gdb, Build, gdb_require_retransmission, gdb_transmit_packet}
use uga_prog.Gdb.Analysis.{gdb_packet_analysis}

abbrev pub max_error_size : ℕ
max_error_size = 1024

-- `buffer` holds its first `len` bytes.
pub record ParserData : Type 0 where
  pub gdb : Gdb
  pub buffer : List ℕ

-- A call on the session of the parser.
unfoldable pub on_gdb : {A : Type 0} → Run Gdb A → Run ParserData A
on_gdb m d = elim (m d.gdb) [ ok (a, g) ↦ ok (a, record d { gdb = g }) | stop e ↦ stop e ]

-- The final 0 of the text has to fit.
unfoldable pub handle_error : Run ParserData (Unit {0})
handle_error d =
    if length d.buffer == 0
    then ok (tt, d)
    else if ltb (length d.buffer) max_error_size
    then (do on_gdb gdb_require_retransmission; modify (λ d. record d { buffer = [] })) d
    else stop Stop.out_of_bounds

-- Past the two bytes that stay free, the errors so far are handled first.
unfoldable pub make_room : Run ParserData (Unit {0})
unfolding handle_error
make_room d = if ltb (max_error_size - 2) (length d.buffer) then handle_error d else ok (tt, d)

unfoldable pub store_error : ℕ → Run ParserData (Unit {0})
store_error c d =
    if ltb (length d.buffer) max_error_size
    then ok (tt, record d { buffer = d.buffer ++ c ∷ [] })
    else stop Stop.out_of_bounds

unfoldable pub add_character_to_error : ℕ → Run ParserData (Unit {0})
unfolding make_room store_error
add_character_to_error c = do make_room; store_error c

-- What a rule matches. A newline matches no rule and is echoed.
pub data Token : Type 0 where
  ack : Token
  retransmission : Token
  packet : List ℕ → Token
  error : ℕ → Token
  newline : Token

abbrev pub is_hex : ℕ → Bool
is_hex c = (leb b'0' c && leb c b'9') || ((leb b'a' c && leb c b'f') || (leb b'A' c && leb c b'F'))

-- Two digits after a `#`, and what follows them.
abbrev pub two_digits : List ℕ → Option (List ℕ × List ℕ)
two_digits (c ∷ d ∷ s) = if is_hex c && is_hex d then some (b'#' ∷ c ∷ d ∷ [], s) else none
two_digits s = none

abbrev pub prepend : ℕ → Option (List ℕ × List ℕ) → Option (List ℕ × List ℕ)
prepend c none = none
prepend c (some (t, s)) = some (c ∷ t, s)

-- The part of a packet after its `$`, and what follows it.
unfoldable pub rest_of_packet : List ℕ → Option (List ℕ × List ℕ)
rest_of_packet [] = none
rest_of_packet (c ∷ s) =
    let rest = rest_of_packet s in
    if c == b'$' then none else if c == b'#' then two_digits s else prepend c rest

abbrev pub packet_or_error : List ℕ → Option (List ℕ × List ℕ) → Token × List ℕ
packet_or_error s none = (error b'$', s)
packet_or_error s (some (t, rest)) = (packet (b'$' ∷ t), rest)

-- The token at the front of a stream of a first byte and the others, and the stream after it.
unfoldable pub token : ℕ → List ℕ → Token × List ℕ
unfolding rest_of_packet
token c s =
    if c == b'+'
    then (ack, s)
    else if c == b'-'
    then (retransmission, s)
    else if c == b'$'
    then packet_or_error s (rest_of_packet s)
    else if c == 10
    then (newline, s)
    else (error c, s)

unfoldable pub action : Build → ℕ → Token → Run ParserData (Unit {0})
unfolding handle_error
action build rounds ack = handle_error
action build rounds retransmission = do handle_error; on_gdb gdb_transmit_packet
action build rounds (packet text) = (do
  handle_error
  on_gdb (gdb_packet_analysis build rounds text))
action build rounds (error c) = add_character_to_error c
action build rounds newline = pure tt

-- The whole stream; the first number is a bound on the tokens.
unfoldable pub scan_loop : Build → ℕ → ℕ → List ℕ → Run ParserData (Unit {0})
unfolding token action handle_error
scan_loop build rounds tokens [] = handle_error
scan_loop build rounds zero (c ∷ s) = halt Stop.unfinished
scan_loop build rounds (suc tokens) (c ∷ s) =
    action build rounds (token c s).0 >>= λ _. scan_loop build rounds tokens (token c s).1

-- A session that starts from a new one. There are no more tokens than bytes.
unfoldable pub gdb_scanner : Build → ℕ → Gdb → List ℕ → Outcome (Unit {0} × ParserData)
unfolding scan_loop
gdb_scanner build rounds gdb stream =
    scan_loop build rounds (length stream) stream (record { gdb = gdb; buffer = [] })
