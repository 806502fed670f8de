-- ===== src/Gdb/Dump.antt =====
-- The answer to `m`.
use uga_prog.Base.{
  ℕ, zero, suc, ◌+◌, ◌*◌, ◌^◌, ◌≤◌, ◌<◌, ◌≡◌, ◌∙◌, refl, ap, sym, arith, Bool-cases, inl, inr, true,
  false, List, [], ◌++◌, append_assoc, append-nil, length, length-append, some, add32, leb,
  if◌then◌else◌, lt→ltb,
}
use uga_prog.Base.Outcome.{Stop, ok, stop, pure, halt, gets, ◌>>=◌}
use uga_prog.Base.Keeps.{bind_ok, bind_stop}
use uga_prog.Text.{print_byte}
use uga_prog.Memory.{Memory, memory_read_byte, memory_get_size}
use uga_prog.Gdb.{Gdb, framed, print_at, gdb_send_buffer, gdb_send_data}
use uga_prog.Gdb.Actions.{sent_text, print_at_lem}
use uga_prog.Gdb.Handlers.{known}
use uga_prog.Gdb.Transfers.{scan_pair, read_memory_loop, read_memory}

-- Two digits for each of `n` bytes from `a` on.
abbrev pub dump : Memory → ℕ → ℕ → List ℕ
dump mem zero a = []
dump mem (suc n) a = print_byte (mem.bytes a) ++ dump mem n (a + 1)

length-print_byte : (v : ℕ) → length (print_byte v) ≡ 2
unfolding print_byte
length-print_byte v = refl

length-dump : (mem : Memory) (n a : ℕ) → length (dump mem n a) ≡ 2 * n
length-dump mem zero a = refl
length-dump mem (suc n) a = omega (
  arith,
  length-append (print_byte (mem.bytes a)) (dump mem n (a + 1)),
  length-print_byte (mem.bytes a),
  length-dump mem n (a + 1),
)

memory_read_byte-inside :
    (mem : Memory) (a : ℕ) → a < mem.taille → memory_read_byte mem a ≡ some (mem.bytes a)
unfolding memory_read_byte memory_get_size
memory_read_byte-inside mem a h = rw (lt→ltb a mem.taille h) refl

print_at_full :
    (text piece : List ℕ) (g : Gdb)
    → 1024 < length text + length piece + 2
    → print_at text piece g ≡ stop Stop.out_of_bounds
unfolding print_at halt
print_at_full text piece g h = rw (full (length text + length piece + 2) h) refl
  where
    full : (n : ℕ) → 1024 < n → leb n 1024 ≡ false
    full n h = ground arith

module _ (g : Gdb) (small : g.arm.mem.taille < 2 ^ 32) where
  read_round :
      (n a : ℕ) (text : List ℕ)
      → a < g.arm.mem.taille
      → read_memory_loop (suc n) a text g
        ≡ (print_at text (print_byte (g.arm.mem.bytes a)) >>= λ t. read_memory_loop n (a + 1) t) g
  unfolding read_memory_loop gets
  read_round n a text inside =
      let next : add32 a 1 ≡ a + 1 = omega arith in
      bind_ok _ _ refl (rw (memory_read_byte-inside g.arm.mem a inside, next) refl)

  read_memory_loop-fits :
      (n a : ℕ) (text : List ℕ)
      → a + n ≤ g.arm.mem.taille
      → length text + 2 * n + 2 ≤ 1024
      → read_memory_loop n a text g ≡ ok (text ++ dump g.arm.mem n a, g)
  unfolding read_memory_loop pure
  read_memory_loop-fits zero a text h room = ap (λ t. ok (t, g)) (sym (append-nil text))
  read_memory_loop-fits (suc n) a text h room =
      let piece = print_byte (g.arm.mem.bytes a) in
      read_round n a text (omega arith)
      ∙ bind_ok _ _
          (print_at_lem text piece g (omega (arith, length-print_byte (g.arm.mem.bytes a))))
          (read_memory_loop-fits n (a + 1) (text ++ piece) (omega arith)
              (omega (arith, length-append text piece, length-print_byte (g.arm.mem.bytes a)))
            ∙ ap (λ t. ok (t, g)) (append_assoc text piece (dump g.arm.mem n (a + 1))))

  read_memory_loop-overflows :
      (n a : ℕ) (text : List ℕ)
      → a + n ≤ g.arm.mem.taille
      → length text ≤ 1022
      → 1022 < length text + 2 * n
      → read_memory_loop n a text g ≡ stop Stop.out_of_bounds
  read_memory_loop-overflows zero a text h room over = absurd (omega arith)
  read_memory_loop-overflows (suc n) a text h room over =
      let piece = print_byte (g.arm.mem.bytes a) in
      let two = length-print_byte (g.arm.mem.bytes a) in
      read_round n a text (omega arith) ∙ elim (Bool-cases (leb (length text + 4) 1024)) [
        | inl fits ↦ bind_ok _ _ (print_at_lem text piece g (ground (arith, two))) (
            read_memory_loop-overflows n (a + 1) (text ++ piece) (omega arith)
              (ground (arith, length-append text piece, two))
              (omega (arith, length-append text piece, two)))
        | inr full ↦ bind_stop _ _ (print_at_full text piece g (ground (arith, two)))
      ]

send_full :
    (text : List ℕ) (g : Gdb)
    → 1024 < length text + 5
    → gdb_send_buffer text g ≡ stop Stop.out_of_bounds
unfolding gdb_send_buffer halt
send_full text g h = rw (full (length text + 5) h) refl
  where
    full : (n : ℕ) → 1024 < n → leb n 1024 ≡ false
    full n h = ground arith

-- The session after the answer to `m`.
abbrev pub dumped : Gdb → ℕ → ℕ → Gdb
dumped g n a =
    let answer = framed (dump g.arm.mem n a) in
    record g { packet = answer; sent = g.sent ++ answer }

-- For a request of `n` bytes that all are in the memory, of less than 2^32 bytes, while the descriptor is
-- open: the answer of two digits for each is sent if `n` is at most 509, and for a longer request the
-- packet is written past its 1024 bytes.
pub read_memory_lem :
    (text : List ℕ) (g : Gdb) (n a : ℕ)
    → scan_pair text ≡ some (a, n)
    → a + n ≤ g.arm.mem.taille
    → g.arm.mem.taille < 2 ^ 32
    → g.open_end ≡ true
    → read_memory text g ≡ (if leb n 509 then ok (tt, dumped g n a) else stop Stop.out_of_bounds)
unfolding read_memory gdb_send_data pure
read_memory_lem text g n a asked inside small opened =
    let pair = ap (λ o. known o g) asked in
    let size = length-dump g.arm.mem n a in
    elim (Bool-cases (leb n 509)) [
      | inl short ↦ rw short (
          bind_ok _ _ pair (
            bind_ok _ _ (read_memory_loop-fits g small n a [] inside (ground arith))
              (sent_text (dump g.arm.mem n a) g (ground (arith, size)) opened)))
      | inr long ↦ rw long (
          bind_ok _ _ pair (elim (Bool-cases (leb n 511)) [
            | inl filled ↦
                bind_ok _ _ (read_memory_loop-fits g small n a [] inside (ground arith))
                  (send_full (dump g.arm.mem n a) g (ground (arith, size)))
            | inr over ↦
                bind_stop _ _
                  (read_memory_loop-overflows g small n a [] inside (omega arith) (ground arith))
          ]))
    ]
