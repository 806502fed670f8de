-- ===== src/Gdb/Frame.antt =====
-- A packet as it is sent, received again.
use uga_prog.Base.{
  ℕ, zero, suc, ◌+◌, ◌-◌, ◌<◌, ◌≡◌, ◌∙◌, ap, sym, refl, arith, List, [], ◌∷◌, ◌++◌, append_assoc,
  length, length-append, take, drop, some, u8, ==_refl,
}
use uga_prog.Base.Outcome.{pure, ◌>>◌}
use uga_prog.Base.Keeps.{bind_ok}
use uga_prog.Text.{print_byte, scan_x}
use uga_prog.Text.Hex.{scan_x-print_byte}
use uga_prog.Gdb.{Gdb, Build, check_sum, framed, gdb_send_ack}
use uga_prog.Gdb.Handlers.{known, first_of}
use uga_prog.Gdb.Analysis.{body_of, trailer_of, dispatch, gdb_packet_analysis}

pub check_sum-lt : (check : ℕ) (s : List ℕ) → check < 256 → check_sum check s < 256
unfolding check_sum
check_sum-lt check [] h = h
check_sum-lt check (c ∷ s) h = check_sum-lt (u8 (check + c)) s (omega arith)

module _ {ℓ} {A : Type ℓ} where
  take-append : (xs ys : List A) (n : ℕ) → n ≡ length xs → take n (xs ++ ys) ≡ xs
  take-append [] ys zero e = refl
  take-append [] ys (suc n) e = absurd (omega arith)
  take-append (x ∷ xs) ys zero e = absurd (omega arith)
  take-append (x ∷ xs) ys (suc n) e = ap (λ t. x ∷ t) (take-append xs ys n (omega arith))

  drop-append : (xs ys : List A) (n : ℕ) → n ≡ length xs → drop n (xs ++ ys) ≡ ys
  drop-append [] ys zero e = refl
  drop-append [] ys (suc n) e = absurd (omega arith)
  drop-append (x ∷ xs) ys zero e = absurd (omega arith)
  drop-append (x ∷ xs) ys (suc n) e = drop-append xs ys n (omega arith)

body_of-framed : (text : List ℕ) → body_of (framed text) ≡ text
unfolding framed print_byte
body_of-framed text =
    take-append text _ _ (omega (arith, length-append text (b'#' ∷ print_byte (check_sum 0 text))))

trailer_of-framed : (text : List ℕ) → trailer_of (framed text) ≡ print_byte (check_sum 0 text)
unfolding framed print_byte
trailer_of-framed text =
    let end = print_byte (check_sum 0 text) in
    let n = length text + 2 in
    let size : length (framed text) - 4 + 2 ≡ n =
      omega (arith, length-append text (b'#' ∷ print_byte (check_sum 0 text))) in
    ap (λ m. drop m (framed text)) size
    ∙ ap (drop n) (sym (append_assoc (b'$' ∷ text) (b'#' ∷ []) end))
    ∙ drop-append (b'$' ∷ text ++ b'#' ∷ []) end n (omega (arith, length-append text (b'#' ∷ [])))

-- A packet that `gdb_send_buffer` sends is accepted by `gdb_packet_analysis`: it is acknowledged, and
-- its text goes to the handlers.
pub gdb_send_buffer-gdb_packet_analysis :
    (build : Build) (rounds : ℕ) (text : List ℕ) (g : Gdb)
    → gdb_packet_analysis build rounds (framed text) g
      ≡ (gdb_send_ack
            >> dispatch build rounds (text ++ 0 ∷ print_byte (check_sum 0 text) ++ 0 ∷ []))
          g
unfolding gdb_packet_analysis pure
gdb_send_buffer-gdb_packet_analysis build rounds text g =
    let given : scan_x (trailer_of (framed text)) ≡ some (check_sum 0 text, []) =
      ap scan_x (trailer_of-framed text)
      ∙ scan_x-print_byte _ (check_sum-lt 0 text (omega arith)) in
    bind_ok _ _ (ap (λ t. known (first_of t) g) given)
      (rw (body_of-framed text, trailer_of-framed text, ==_refl (check_sum 0 text)) refl)
