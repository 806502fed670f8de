-- ===== src/Remote/Refines.antt =====
-- The stream of a client, from the scanner to the memory and back.
use uga_prog.Base.{
  ℕ, zero, suc, ◌+◌, ◌*◌, ◌^◌, ◌≤◌, ◌<◌, ◌≡◌, ◌∙◌, ap, refl, sym, fun_ext, arith, Bool-cases, inl,
  inr, true, List, [], ◌∷◌, ◌++◌, append_assoc, append-nil, length, length-append, All, u8, update,
  ◌==◌,
}
use mathlib.Core.Path.{subst}
use uga_prog.Base.Outcome.{ok, ◌>>◌}
use uga_prog.Base.Keeps.{bind_ok}
use uga_prog.Text.{print_byte}
use uga_prog.Memory.{Memory}
use uga_prog.Gdb.{Gdb, Build, check_sum, framed, gdb_send_ack}
use uga_prog.Gdb.Analysis.{dispatch}
use uga_prog.Gdb.Transfers.{set_mem}
use uga_prog.Gdb.Dump.{dump}
use uga_prog.Gdb.Escape.{filled, filled-size, filled-below, hex}
use uga_prog.Scanner.{ParserData, handle_error, on_gdb, scan_loop, gdb_scanner, token, action}
use uga_prog.Scanner.Errors.{handle_error-empty}
use uga_prog.Scanner.Packets.{scan_loop-framed}
use uga_prog.Remote.{
  value_of, Request, read, write, request_text, stream_of, IsInside, part, overlay, memory_after,
  answer_text, memory_after_all, answers,
}
use uga_prog.Remote.Requests.{request_text-IsInner}
use uga_prog.Remote.Serve.{after_request, dispatch-request}

overlay-same :
    (a i : ℕ) (s : List ℕ) (f f' : ℕ → ℕ) → f i ≡ f' i → overlay a s f i ≡ overlay a s f' i
overlay-same a i [] f f' e = e
overlay-same a i (c ∷ s) f f' e = elim (Bool-cases (i == a)) [
  | inl here ↦ rw here refl
  | inr apart ↦ rw apart (overlay-same (a + 1) i s f f' e)
]

filled-overlay :
    (a i : ℕ) (s : List ℕ) (mem : Memory)
    → All (λ c. c < 256) s
    → (filled a s mem).bytes i ≡ overlay a s mem.bytes i
filled-overlay a i [] mem h = refl
filled-overlay a i (c ∷ s) mem (lt, h) =
    let mem' = record mem { bytes = update mem.bytes a (u8 c) } in
    elim (Bool-cases (i == a)) [
      | inl here ↦ filled-below (a + 1) i s mem' (ground arith) ∙ rw here (omega arith)
      | inr apart ↦
          filled-overlay (a + 1) i s mem' h
          ∙ overlay-same (a + 1) i s mem'.bytes mem.bytes (rw apart refl)
          ∙ rw apart refl
    ]

dump-part : (mem : Memory) (n a : ℕ) → dump mem n a ≡ hex (part mem.bytes n a)
dump-part mem zero a = refl
dump-part mem (suc n) a = ap (λ t. print_byte (mem.bytes a) ++ t) (dump-part mem n (a + 1))

-- A session that has answered requests, as the abstract memory says.
pub record HasServed (rs : List Request) (g g' : Gdb) : Type 0 where
  pub answered : g'.sent ≡ g.sent ++ answers g.arm.mem.bytes rs
  pub stored_all : g'.arm.mem.bytes ≡ memory_after_all g.arm.mem.bytes rs
  pub same_size : g'.arm.mem.taille ≡ g.arm.mem.taille
  pub same_registers : g'.arm.reg ≡ g.arm.reg
  pub still_open : g'.open_end ≡ g.open_end

HasServed-none : (g : Gdb) → HasServed [] g g
HasServed-none g = record {
  answered = sym (append-nil g.sent);
  stored_all = refl;
  same_size = refl;
  same_registers = refl;
  still_open = refl;
}

after_request-sent :
    (n : ℕ) (g : Gdb) (r : Request)
    → (after_request g r).sent ≡ g.sent ++ (b'+' ∷ framed (answer_text g.arm.mem.bytes r))
after_request-sent n g (read address size) =
    append_assoc g.sent (b'+' ∷ []) _
    ∙ ap (λ t. g.sent ++ (b'+' ∷ framed t)) (dump-part g.arm.mem (value_of size) (value_of address))
after_request-sent n g (write address size bytes) = append_assoc g.sent (b'+' ∷ []) _

after_request-bytes :
    (n : ℕ) (g : Gdb) (r : Request)
    → IsInside n r
    → (after_request g r).arm.mem.bytes ≡ memory_after g.arm.mem.bytes r
unfolding set_mem
after_request-bytes n g (read address size) inside = refl
after_request-bytes n g (write address size bytes) (_, _, _, _, _, small) =
    fun_ext λ i. filled-overlay (value_of address) i bytes g.arm.mem small

after_request-size : (g : Gdb) (r : Request) → (after_request g r).arm.mem.taille ≡ g.arm.mem.taille
unfolding set_mem
after_request-size g (read address size) = refl
after_request-size g (write address size bytes) = filled-size (value_of address) bytes g.arm.mem

after_request-rest :
    (g : Gdb) (r : Request)
    → ((after_request g r).arm.reg ≡ g.arm.reg) × ((after_request g r).open_end ≡ g.open_end)
unfolding set_mem
after_request-rest g (read address size) = (refl, refl)
after_request-rest g (write address size bytes) = (refl, refl)

HasServed-next :
    (n : ℕ) (r : Request) (rs : List Request) (g g' : Gdb)
    → IsInside n r
    → HasServed rs (after_request g r) g'
    → HasServed (r ∷ rs) g g'
HasServed-next n r rs g g' inside h =
    let f = g.arm.mem.bytes in
    let now = after_request-bytes n g r inside in
    let (registers, end) = after_request-rest g r in
    record {
      answered =
          h.answered
          ∙ ap (λ t. t ++ answers (after_request g r).arm.mem.bytes rs) (after_request-sent n g r)
          ∙ append_assoc g.sent (b'+' ∷ framed (answer_text f r))
              (answers (after_request g r).arm.mem.bytes rs)
          ∙ ap (λ m. g.sent ++ ((b'+' ∷ framed (answer_text f r)) ++ answers m rs)) now;
      stored_all = h.stored_all ∙ ap (λ m. memory_after_all m rs) now;
      same_size = h.same_size ∙ after_request-size g r;
      same_registers = h.same_registers ∙ registers;
      still_open = h.still_open ∙ end;
    }

-- The parser with no invalid bytes held.
abbrev clean : Gdb → ParserData
clean g = record { gdb = g; buffer = [] }

module _ (build : Build) (rounds : ℕ) where
  ack_skipped :
      (tokens : ℕ) (s : List ℕ) (g : Gdb)
      → scan_loop build rounds (suc tokens) (b'+' ∷ s) (clean g)
        ≡ scan_loop build rounds tokens s (clean g)
  unfolding scan_loop token action
  ack_skipped tokens s g = bind_ok _ _ (handle_error-empty (clean g) refl) refl

  packet_served :
      (r : Request) (g : Gdb)
      → IsInside g.arm.mem.taille r
      → g.arm.mem.taille < 2 ^ 32
      → g.open_end ≡ true
      → (handle_error
            >> on_gdb (
                gdb_send_ack
                >> dispatch build rounds
                    (request_text r ++ 0 ∷ print_byte (check_sum 0 (request_text r)) ++ 0 ∷ [])))
          (clean g)
        ≡ ok (tt, clean (after_request g r))
  unfolding on_gdb
  packet_served r g inside small opened =
      let sum = print_byte (check_sum 0 (request_text r)) in
      let served =
        ap (λ t. (gdb_send_ack >> dispatch build rounds t) g)
          (append_assoc (request_text r) (0 ∷ sum) (0 ∷ []))
        ∙ dispatch-request build rounds r (sum ++ 0 ∷ []) g inside small opened in
      bind_ok _ _ (handle_error-empty (clean g) refl) (rw (served, on_gdb) refl)

  serves_stream :
      (rs : List Request) (tokens : ℕ) (g : Gdb)
      → All (IsInside g.arm.mem.taille) rs
      → g.arm.mem.taille < 2 ^ 32
      → g.open_end ≡ true
      → 2 * length rs ≤ tokens
      → (g' : Gdb) × (scan_loop build rounds tokens (stream_of rs) (clean g) ≡ ok (tt, clean g'))
        × HasServed rs g g'
  unfolding scan_loop
  serves_stream [] tokens g inside small opened enough =
      (g, handle_error-empty (clean g) refl, HasServed-none g)
  serves_stream (r ∷ rs) zero g inside small opened enough = absurd (omega arith)
  serves_stream (r ∷ rs) (suc zero) g inside small opened enough = absurd (omega arith)
  serves_stream (r ∷ rs) (suc (suc tokens)) g (now, inside) small opened enough =
      let h = after_request g r in
      let size = after_request-size g r in
      let (_, end) = after_request-rest g r in
      let (g', run, served) =
        serves_stream rs tokens h (subst (λ n. All (IsInside n) rs) (sym size) inside)
          (omega (arith, size)) (end ∙ opened) (omega arith) in
      (
        g',
        scan_loop-framed build rounds (suc tokens) (request_text r) (b'+' ∷ stream_of rs) (clean g)
              (request_text-IsInner g.arm.mem.taille r now)
            ∙ bind_ok _ _ (packet_served r g now small opened)
                (ack_skipped tokens (stream_of rs) h ∙ run),
        HasServed-next g.arm.mem.taille r rs g g' now served,
      )

stream-long : (rs : List Request) → 2 * length rs ≤ length (stream_of rs)
unfolding framed
stream-long [] = omega arith
stream-long (r ∷ rs) =
    omega (arith, length-append (framed (request_text r)) (b'+' ∷ stream_of rs), stream-long rs)

-- Whatever requests gdb sends, in any order and number, with an acknowledgement behind each: to read at
-- most 509 bytes, or to write as many bytes as the request says, inside the memory. The scanner returns,
-- with no invalid byte held. What it sends is an acknowledgement and the answer to each request in turn,
-- as a memory that is a function from addresses to bytes answers them; the bytes in the end are those of
-- that function, and the registers and the size of the memory are what they were. The memory is below
-- 2^32 bytes and the descriptor open.
pub gdb_scanner_refines :
    (build : Build) (rounds : ℕ) (g : Gdb) (rs : List Request)
    → All (IsInside g.arm.mem.taille) rs
    → g.arm.mem.taille < 2 ^ 32
    → g.open_end ≡ true
    → (g' : Gdb) × (gdb_scanner build rounds g (stream_of rs)
        ≡ ok (tt, record { gdb = g'; buffer = [] }))
      × HasServed rs g g'
unfolding gdb_scanner
gdb_scanner_refines build rounds g rs inside small opened =
    serves_stream build rounds rs (length (stream_of rs)) g inside small opened (stream-long rs)
