-- ===== src/Scanner/Errors.antt =====
-- The buffer of invalid bytes of scanner.l.
use uga_prog.Base.{
  ℕ, zero, suc, ◌+◌, ◌/◌, ◌<◌, ◌≡◌, ◌≢◌, ◌∙◌, refl, ap, sym, arith, Bool-cases, inl, inr, true,
  List, [], ◌∷◌, ◌++◌, append_assoc, append-nil, length, length-append, All, ltb, ◌==◌,
  if◌then◌else◌, lt→ltb, ne→==_false,
}
use uga_prog.Base.Outcome.{ok, modify, ◌>>=◌}
use uga_prog.Base.Keeps.{bind_ok}
use uga_prog.Gdb.{Gdb, Build, gdb_require_retransmission, emit}
use uga_prog.Scanner.{
  ParserData, on_gdb, handle_error, make_room, store_error, add_character_to_error, token, error,
  action, scan_loop, gdb_scanner,
}

-- `n` requests.
abbrev pub requests : ℕ → List ℕ
requests zero = []
requests (suc n) = b'-' ∷ requests n

-- A session that has sent more bytes.
abbrev pub having_sent : Gdb → List ℕ → Gdb
having_sent g bytes = record g { sent = g.sent ++ bytes }

-- A byte that starts no packet, is no sign of gdb, and ends no line.
abbrev pub IsPlain : ℕ → Type 0
IsPlain c = (c ≢ b'+') × (c ≢ b'-') × (c ≢ b'$') × (c ≢ 10)

pub handle_error-empty : (d : ParserData) → length d.buffer ≡ 0 → handle_error d ≡ ok (tt, d)
unfolding handle_error
handle_error-empty d e = rw e refl

pub handle_error-open :
    (d : ParserData)
    → d.gdb.open_end ≡ true
    → 0 < length d.buffer
    → length d.buffer < 1024
    → handle_error d ≡ ok (tt, record { gdb = having_sent d.gdb (b'-' ∷ []); buffer = [] })
unfolding handle_error on_gdb gdb_require_retransmission emit modify ◌>>=◌
handle_error-open d opened some_bytes room =
    rw (ne→==_false (length d.buffer) 0 (omega arith), lt→ltb (length d.buffer) 1024 room, opened)
      refl

-- The state after an invalid byte.
abbrev pub after_error : ℕ → ParserData → ParserData
after_error c d =
    if ltb 1022 (length d.buffer)
    then record { gdb = having_sent d.gdb (b'-' ∷ []); buffer = c ∷ [] }
    else record d { buffer = d.buffer ++ c ∷ [] }

store_error-lem :
    (c : ℕ) (d : ParserData)
    → length d.buffer < 1024
    → store_error c d ≡ ok (tt, record d { buffer = d.buffer ++ c ∷ [] })
unfolding store_error
store_error-lem c d room = rw (lt→ltb (length d.buffer) 1024 room) refl

-- While the descriptor is open and the buffer holds at most 1023 bytes, an invalid byte is always
-- stored: behind the others, or, where 1023 are held, at the front, after a request of
-- retransmission for them.
pub add_character_to_error_lem :
    (c : ℕ) (d : ParserData)
    → d.gdb.open_end ≡ true
    → length d.buffer < 1024
    → add_character_to_error c d ≡ ok (tt, after_error c d)
unfolding add_character_to_error make_room
add_character_to_error_lem c d opened room = elim (Bool-cases (ltb 1022 (length d.buffer))) [
  | inl full ↦
      let emptied : ParserData = record { gdb = having_sent d.gdb (b'-' ∷ []); buffer = [] } in
      let made : make_room d ≡ ok (tt, emptied) =
        rw full (handle_error-open d opened (ground arith) room) in
      bind_ok _ _ made (rw full (store_error-lem c emptied (omega arith)))
  | inr free ↦
      let made : make_room d ≡ ok (tt, d) = rw free refl in
      bind_ok _ _ made (rw free (store_error-lem c d room))
]

token-plain : (c : ℕ) (s : List ℕ) → IsPlain c → token c s ≡ (error c, s)
unfolding token
token-plain c s (a, b, d, e) =
    rw (ne→==_false c b'+' a, ne→==_false c b'-' b, ne→==_false c b'$' d, ne→==_false c 10 e) refl

-- The requests for `k` bytes held and `n` to come.
abbrev count : ℕ → ℕ → ℕ
count k n = (k + n + 1022) / 1023

-- What a stream that ends with so many requests leaves of a session.
abbrev asked : Gdb → ℕ → ParserData
asked g n = record { gdb = having_sent g (requests n); buffer = [] }

empty-of : (s : List ℕ) → length s ≡ 0 → s ≡ []
empty-of [] e = refl
empty-of (c ∷ s) e = absurd (omega arith)

asked-none : (d : ParserData) → length d.buffer ≡ 0 → d ≡ asked d.gdb 0
asked-none d e =
    ap (λ t. record d { buffer = t }) (empty-of d.buffer e)
    ∙ ap (λ t. record { gdb = record d.gdb { sent = t }; buffer = [] })
        (sym (append-nil d.gdb.sent))

asked-now :
    (d : ParserData)
    → d.gdb.open_end ≡ true
    → length d.buffer < 1024
    → handle_error d ≡ ok (tt, asked d.gdb (count (length d.buffer) 0))
asked-now d opened room = elim (Bool-cases (length d.buffer == 0)) [
  | inl none_held ↦
      let e : length d.buffer ≡ 0 = ground arith in
      let n : 0 ≡ count (length d.buffer) 0 = omega arith in
      handle_error-empty d e ∙ ap (λ t. ok (tt, t)) (asked-none d e ∙ ap (asked d.gdb) n)
  | inr held ↦
      let n : 1 ≡ count (length d.buffer) 0 = ground arith in
      handle_error-open d opened (ground arith) room ∙ ap (λ m. ok (tt, asked d.gdb m)) n
]

-- The same requests are left to make after a byte is stored.
asked-after :
    (c n : ℕ) (d : ParserData)
    → length d.buffer < 1024
    → asked (after_error c d).gdb (count (length (after_error c d).buffer) n)
      ≡ asked d.gdb (count (length d.buffer) (suc n))
asked-after c n d room = elim (Bool-cases (ltb 1022 (length d.buffer))) [
  | inl full ↦
      let m : suc (count 1 n) ≡ count (length d.buffer) (suc n) = ground arith in
      rw full (
        ap (λ t. record { gdb = record d.gdb { sent = t }; buffer = [] })
          (append_assoc d.gdb.sent (b'-' ∷ []) (requests (count 1 n)))
        ∙ ap (asked d.gdb) m)
  | inr free ↦
      let m : count (length (d.buffer ++ c ∷ [])) n ≡ count (length d.buffer) (suc n) =
        omega (arith, length-append d.buffer (c ∷ [])) in
      rw free (ap (asked d.gdb) m)
]

after_error-open : (c : ℕ) (d : ParserData) → (after_error c d).gdb.open_end ≡ d.gdb.open_end
after_error-open c d = elim (Bool-cases (ltb 1022 (length d.buffer))) [
  | inl full ↦ rw full refl
  | inr free ↦ rw free refl
]

after_error-room : (c : ℕ) (d : ParserData) → length (after_error c d).buffer < 1024
after_error-room c d = elim (Bool-cases (ltb 1022 (length d.buffer))) [
  | inl full ↦ rw full (omega arith)
  | inr free ↦ rw free (ground (arith, length-append d.buffer (c ∷ [])))
]

scan-plain :
    (build : Build) (rounds : ℕ) (s : List ℕ) (d : ParserData)
    → All IsPlain s
    → d.gdb.open_end ≡ true
    → length d.buffer < 1024
    → scan_loop build rounds (length s) s d
      ≡ ok (tt, asked d.gdb (count (length d.buffer) (length s)))
unfolding scan_loop action
scan-plain build rounds [] d plain opened room = asked-now d opened room
scan-plain build rounds (c ∷ s) d (p, plain) opened room = rw (token-plain c s p) (
    bind_ok _ _ (add_character_to_error_lem c d opened room) (
      scan-plain build rounds s (after_error c d) plain (after_error-open c d ∙ opened)
        (after_error-room c d)
      ∙ ap (λ t. ok (tt, t)) (asked-after c (length s) d room)))

-- On a stream of bytes that start no packet, are no sign of gdb and end no line, with the descriptor
-- open, the scanner returns, so no write to the buffer of invalid bytes is out of its bounds. The
-- session is the same, but that it asks for one retransmission for each 1023 bytes and one for what is
-- left, and the buffer is empty.
pub gdb_scanner-plain :
    (build : Build) (rounds : ℕ) (g : Gdb) (stream : List ℕ)
    → All IsPlain stream
    → g.open_end ≡ true
    → gdb_scanner build rounds g stream
      ≡ ok (
        tt,
        record { gdb = having_sent g (requests ((length stream + 1022) / 1023)); buffer = [] },
      )
unfolding gdb_scanner
gdb_scanner-plain build rounds g stream plain opened =
    let n : count 0 (length stream) ≡ (length stream + 1022) / 1023 = omega arith in
    scan-plain build rounds stream (record { gdb = g; buffer = [] }) plain opened (omega arith)
    ∙ ap (λ m. ok (tt, asked g m)) n
