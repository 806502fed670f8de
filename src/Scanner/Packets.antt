-- ===== src/Scanner/Packets.antt =====
-- The packets of a stream, and the number of its tokens.
use mathlib.Core.Path.{fun_ext}
use uga_prog.Base.{
  ℕ, zero, suc, ◌/◌, ◌%◌, ◌≤◌, ◌<◌, ◌≡◌, ◌≢◌, ◌∙◌, refl, ap, arith, Bool, true, false, ◌&&◌, List,
  [], ◌∷◌, ◌++◌, append_assoc, length, All, Option, none, some, ◌==◌, if◌then◌else◌, ne→==_false,
}
use uga_prog.Base.Outcome.{Run, ◌>>=◌, ◌>>◌}
use uga_prog.Text.{print_byte, hex_digit}
use uga_prog.Gdb.{Build, check_sum, framed, gdb_send_ack}
use uga_prog.Gdb.Analysis.{dispatch}
use uga_prog.Gdb.Frame.{check_sum-lt, gdb_send_buffer-gdb_packet_analysis}
use uga_prog.Scanner.{
  ParserData, Token, packet, is_hex, two_digits, prepend, packet_or_error, rest_of_packet, token,
  action, handle_error, on_gdb, scan_loop,
}

-- A byte that can stand in the text of a packet.
abbrev pub IsInner : ℕ → Type 0
IsInner c = (c ≢ b'$') × (c ≢ b'#')

is_hex-hex_digit : (n : ℕ) → n < 16 → is_hex (hex_digit n) ≡ true
unfolding hex_digit
is_hex-hex_digit n h = ground arith

two_digits-print_byte :
    (v : ℕ) (s : List ℕ) → v < 256 → two_digits (print_byte v ++ s) ≡ some (b'#' ∷ print_byte v, s)
unfolding print_byte
two_digits-print_byte v s h =
    rw (is_hex-hex_digit (v / 16) (omega arith), is_hex-hex_digit (v % 16) (omega arith)) refl

rest_of_packet-text :
    (text : List ℕ) (v : ℕ) (s : List ℕ)
    → All IsInner text
    → v < 256
    → rest_of_packet (text ++ (b'#' ∷ print_byte v ++ s)) ≡ some (text ++ b'#' ∷ print_byte v, s)
unfolding rest_of_packet
rest_of_packet-text [] v s inner h = two_digits-print_byte v s h
rest_of_packet-text (c ∷ text) v s ((a, b), inner) h =
    rw (ne→==_false c b'$' a, ne→==_false c b'#' b)
      (ap (prepend c) (rest_of_packet-text text v s inner h))

token-framed :
    (text s : List ℕ)
    → All IsInner text
    → token b'$' ((text ++ b'#' ∷ print_byte (check_sum 0 text)) ++ s) ≡ (packet (framed text), s)
unfolding token framed
token-framed text s inner =
    let given : rest_of_packet ((text ++ b'#' ∷ print_byte (check_sum 0 text)) ++ s)
        ≡ some (text ++ b'#' ∷ print_byte (check_sum 0 text), s) =
      ap rest_of_packet (append_assoc text (b'#' ∷ print_byte (check_sum 0 text)) s)
      ∙ rest_of_packet-text text (check_sum 0 text) s inner (check_sum-lt 0 text (omega arith)) in
    ap (packet_or_error _) given

-- A packet that `gdb_send_buffer` frames, of a text with no `$` and no `#`, is one token of the stream
-- that it starts, whatever follows: the invalid bytes before it are handled, the packet is
-- acknowledged, its text goes to the handlers, and the scan goes on behind it.
pub scan_loop-framed :
    (build : Build) (rounds tokens : ℕ) (text s : List ℕ) (d : ParserData)
    → All IsInner text
    → scan_loop build rounds (suc tokens) (framed text ++ s) d
      ≡ ((handle_error
              >> on_gdb (
                  gdb_send_ack
                  >> dispatch build rounds (text ++ 0 ∷ print_byte (check_sum 0 text) ++ 0 ∷ [])))
            >> scan_loop build rounds tokens s)
          d
unfolding scan_loop action framed
scan_loop-framed build rounds tokens text s d inner =
    let accepted = fun_ext (gdb_send_buffer-gdb_packet_analysis build rounds text) in
    rw (token-framed text s inner)
      (ap (λ m. ((handle_error >> on_gdb m) >> scan_loop build rounds tokens s) d) accepted)

-- What is left of a stream has at most so many bytes.
abbrev NoLonger : {A : Type 0} → ℕ → Option (A × List ℕ) → Type 0
NoLonger n none = Unit
NoLonger n (some (t, rest)) = length rest ≤ n

NoLonger-if :
    {A : Type 0} (n : ℕ) (b : Bool) (o o' : Option (A × List ℕ))
    → NoLonger n o
    → NoLonger n o'
    → NoLonger n (if b then o else o')
NoLonger-if n true o o' h h' = h
NoLonger-if n false o o' h h' = h'

two_digits-NoLonger : (s : List ℕ) → NoLonger (suc (length s)) (two_digits s)
two_digits-NoLonger [] = tt
two_digits-NoLonger (c ∷ []) = tt
two_digits-NoLonger (c ∷ d ∷ s) = NoLonger-if _ (is_hex c && is_hex d) _ none (omega arith) tt

prepend-NoLonger :
    (c n : ℕ) (o : Option (List ℕ × List ℕ)) → NoLonger n o → NoLonger (suc n) (prepend c o)
prepend-NoLonger c n none h = tt
prepend-NoLonger c n (some (t, rest)) h = omega arith

rest_of_packet-NoLonger : (s : List ℕ) → NoLonger (length s) (rest_of_packet s)
unfolding rest_of_packet
rest_of_packet-NoLonger [] = tt
rest_of_packet-NoLonger (c ∷ s) = NoLonger-if _ (c == b'$') none _ tt (
    NoLonger-if _ (c == b'#') _ _ (two_digits-NoLonger s)
      (prepend-NoLonger c _ _ (rest_of_packet-NoLonger s)))

packet_or_error-NoLonger :
    (s : List ℕ) (o : Option (List ℕ × List ℕ))
    → NoLonger (length s) o
    → length (packet_or_error s o).1 ≤ length s
packet_or_error-NoLonger s none h = omega arith
packet_or_error-NoLonger s (some (t, rest)) h = h

token-length : (c : ℕ) (s : List ℕ) → length (token c s).1 ≤ length s
unfolding token
token-length c s = test (c == b'+') _ _ (omega arith) (
    test (c == b'-') _ _ (omega arith) (
      test (c == b'$') _ _ (packet_or_error-NoLonger s _ (rest_of_packet-NoLonger s))
        (test (c == 10) _ _ (omega arith) (omega arith))))
  where
    test :
        (b : Bool) (t t' : Token × List ℕ)
        → length t.1 ≤ length s
        → length t'.1 ≤ length s
        → length (if b then t else t').1 ≤ length s
    test true t t' h h' = h
    test false t t' h h' = h'

-- An action followed by two that agree.
bind_same :
    {S A B : Type 0} (m : Run S A) (f f' : A → Run S B)
    → ((a : A) (s : S) → f a s ≡ f' a s)
    → (s : S) → (m >>= f) s ≡ (m >>= f') s
bind_same m f f' e s = ap (λ k. (m >>= k) s) (fun_ext λ a. fun_ext λ t. e a t)

same_scan :
    (build : Build) (rounds m n : ℕ) (s : List ℕ) (d : ParserData)
    → length s ≤ m
    → length s ≤ n
    → scan_loop build rounds m s d ≡ scan_loop build rounds n s d
unfolding scan_loop
same_scan build rounds m n [] d h h' = refl
same_scan build rounds zero n (c ∷ s) d h h' = absurd (omega arith)
same_scan build rounds (suc m) zero (c ∷ s) d h h' = absurd (omega arith)
same_scan build rounds (suc m) (suc n) (c ∷ s) d h h' =
    bind_same (action build rounds (token c s).0) _ _
      (λ a t.
        same_scan build rounds m n (token c s).1 t (omega (arith, token-length c s))
          (omega (arith, token-length c s)))
      d

-- A bound on the tokens that is at least the number of the bytes is never reached: the scan does the
-- same with every such bound, that of `gdb_scanner` being one.
pub scan_loop-enough :
    (build : Build) (rounds tokens : ℕ) (s : List ℕ) (d : ParserData)
    → length s ≤ tokens
    → scan_loop build rounds tokens s d ≡ scan_loop build rounds (length s) s d
scan_loop-enough build rounds tokens s d h =
    same_scan build rounds tokens (length s) s d h (omega arith)
