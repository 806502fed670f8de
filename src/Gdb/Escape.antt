-- ===== src/Gdb/Escape.antt =====
-- The bytes that `X` writes, and `m` reads.
use uga_prog.Base.{
  ℕ, suc, ◌+◌, ◌^◌, ◌≤◌, ◌<◌, ◌≡◌, ◌∙◌, refl, ap, arith, bit_xor, Bool, Bool-cases, inl, inr, true,
  false, List, [], ◌∷◌, ◌++◌, append_assoc, length, All, some, u8, add32, ◌==◌, if◌then◌else◌,
  lt→ltb, le→leb, update,
}
use uga_prog.Base.Bits.{bit_xor_cancel}
use mathlib.Core.Path.{subst}
use uga_prog.Base.Outcome.{ok, pure, gets, modify}
use uga_prog.Base.Keeps.{bind_ok}
use uga_prog.Text.{print_byte, codes, after_char}
use uga_prog.Memory.{Memory, memory_write_byte, memory_get_size}
use uga_prog.Gdb.{Gdb, framed}
use uga_prog.Gdb.Actions.{sent_text}
use uga_prog.Gdb.Dump.{dump, dumped, read_memory_lem}
use uga_prog.Gdb.Handlers.{known}
use uga_prog.Gdb.Transfers.{
  scan_pair, set_mem, next_byte, write_memory_loop, write_content, write_memory_binary, read_memory,
}

-- Bytes as gdb sends them: those that `needs` names come as 0x7d and the byte with its bit 5 turned.
abbrev pub escape : (ℕ → Bool) → List ℕ → List ℕ
escape needs [] = []
escape needs (c ∷ s) = (if needs c then 0x7d ∷ bit_xor c 0x20 ∷ [] else c ∷ []) ++ escape needs s

-- The two digits of each byte.
abbrev pub hex : List ℕ → List ℕ
hex [] = []
hex (c ∷ s) = print_byte c ++ hex s

next_byte-escape :
    (needs : ℕ → Bool) (c : ℕ) (s : List ℕ)
    → needs 0x7d ≡ true
    → next_byte ((if needs c then 0x7d ∷ bit_xor c 0x20 ∷ [] else c ∷ []) ++ s) ≡ some (c, s)
unfolding next_byte
next_byte-escape needs c s always = elim (Bool-cases (needs c)) [
  | inl marked ↦ rw marked (ap (λ v. some (v, s)) (bit_xor_cancel c 0x20))
  | inr plain ↦ rw plain (elim (Bool-cases (c == 0x7d)) [
    | inl is ↦ absurd (clash (subst (λ k. needs k ≡ false) (same is) plain))
    | inr other ↦ rw other refl
  ])
]
  where
    same : (c == 0x7d) ≡ true → c ≡ 0x7d
    same e = ground arith

    clash : needs 0x7d ≡ false → ⊥
    clash never = grind (arith, always, never)

-- The memory with bytes from `a` on.
abbrev pub filled : ℕ → List ℕ → Memory → Memory
filled a [] mem = mem
filled a (c ∷ s) mem = filled (a + 1) s (record mem { bytes = update mem.bytes a (u8 c) })

pub filled-size : (a : ℕ) (s : List ℕ) (mem : Memory) → (filled a s mem).taille ≡ mem.taille
filled-size a [] mem = refl
filled-size a (c ∷ s) mem = filled-size (a + 1) s _

pub filled-below :
    (a b : ℕ) (s : List ℕ) (mem : Memory) → b < a → (filled a s mem).bytes b ≡ mem.bytes b
filled-below a b [] mem h = refl
filled-below a b (c ∷ s) mem h = filled-below (a + 1) b s _ (omega arith) ∙ ground arith

dump-filled :
    (a : ℕ) (s : List ℕ) (mem : Memory)
    → All (λ c. c < 256) s
    → dump (filled a s mem) (length s) a ≡ hex s
dump-filled a [] mem small = refl
dump-filled a (c ∷ s) mem (lt, small) =
    let mem' = record mem { bytes = update mem.bytes a (u8 c) } in
    let first : (filled (a + 1) s mem').bytes a ≡ c =
      filled-below (a + 1) a s mem' (omega arith) ∙ ground arith in
    rw first (ap (λ t. print_byte c ++ t) (dump-filled (a + 1) s mem' small))

memory_write_byte-inside :
    (mem : Memory) (a v : ℕ)
    → a < mem.taille
    → memory_write_byte mem a (u8 v) ≡ some (record mem { bytes = update mem.bytes a (u8 v) })
unfolding memory_write_byte memory_get_size
memory_write_byte-inside mem a v h =
    let cut : u8 (u8 v) ≡ u8 v = omega arith in rw (lt→ltb a mem.taille h, cut) refl

write_round :
    (n a c : ℕ) (content rest : List ℕ) (g : Gdb)
    → next_byte content ≡ some (c, rest)
    → a < g.arm.mem.taille
    → g.arm.mem.taille < 2 ^ 32
    → write_memory_loop (suc n) a content g
      ≡ write_memory_loop n (a + 1) rest (set_mem (filled a (c ∷ []) g.arm.mem) g)
unfolding write_memory_loop set_mem gets modify
write_round n a c content rest g e inside small =
    let next : add32 a 1 ≡ a + 1 = omega arith in
    rw (e, write_memory_loop)
      (bind_ok _ _ refl
        (rw (memory_write_byte-inside g.arm.mem a c inside, next) (bind_ok _ _ refl refl)))

write_memory_loop-escape :
    (needs : ℕ → Bool) (s rest : List ℕ) (a : ℕ) (g : Gdb)
    → needs 0x7d ≡ true
    → a + length s ≤ g.arm.mem.taille
    → g.arm.mem.taille < 2 ^ 32
    → write_memory_loop (length s) a (escape needs s ++ rest) g
      ≡ ok (true, set_mem (filled a s g.arm.mem) g)
unfolding write_memory_loop set_mem pure
write_memory_loop-escape needs [] rest a g always inside small = refl
write_memory_loop-escape needs (c ∷ s) rest a g always inside small =
    let one = if needs c then 0x7d ∷ bit_xor c 0x20 ∷ [] else c ∷ [] in
    ap (λ t. write_memory_loop (suc (length s)) a t g) (append_assoc one (escape needs s) rest)
    ∙ write_round (length s) a c _ _ g (next_byte-escape needs c (escape needs s ++ rest) always)
        (omega arith) small
    ∙ write_memory_loop-escape needs s rest (a + 1) _ always (omega arith) small

-- The session after bytes are written and `OK` is sent.
abbrev pub written : Gdb → ℕ → List ℕ → Gdb
written g a s = record (set_mem (filled a s g.arm.mem) g) {
  packet = framed (codes "OK");
  sent = g.sent ++ framed (codes "OK");
}

pub write_memory_binary_lem :
    (needs : ℕ → Bool) (text rest : List ℕ) (g : Gdb) (a : ℕ) (s : List ℕ)
    → needs 0x7d ≡ true
    → scan_pair text ≡ some (a, length s)
    → after_char b':' text ≡ some (escape needs s ++ rest)
    → a < g.arm.mem.taille
    → a + length s ≤ g.arm.mem.taille
    → g.arm.mem.taille < 2 ^ 32
    → g.open_end ≡ true
    → write_memory_binary text g ≡ ok (tt, written g a s)
unfolding write_memory_binary write_content set_mem gets memory_get_size pure
write_memory_binary_lem needs text rest g a s always asked content start inside small opened =
    bind_ok _ _ (ap (λ o. known o g) asked) (
      bind_ok _ _ refl (
        rw (content, lt→ltb a g.arm.mem.taille start)
          (bind_ok _ _ (write_memory_loop-escape needs s rest a g always inside small)
            (sent_text (codes "OK") (set_mem (filled a s g.arm.mem) g) (omega arith) opened))))

-- Bytes that `X` writes into the memory, escaped by any rule that escapes 0x7d, are the ones that `m`
-- then answers for their place: up to 509 of them, at an address inside the memory, with the
-- descriptor open.
pub write_memory_binary-read_memory :
    (needs : ℕ → Bool) (text rest question : List ℕ) (g : Gdb) (a : ℕ) (s : List ℕ)
    → needs 0x7d ≡ true
    → scan_pair text ≡ some (a, length s)
    → after_char b':' text ≡ some (escape needs s ++ rest)
    → scan_pair question ≡ some (a, length s)
    → All (λ c. c < 256) s
    → length s ≤ 509
    → a < g.arm.mem.taille
    → a + length s ≤ g.arm.mem.taille
    → g.arm.mem.taille < 2 ^ 32
    → g.open_end ≡ true
    → (g' g'' : Gdb) × (write_memory_binary text g ≡ ok (tt, g'))
      × (read_memory question g' ≡ ok (tt, g''))
      × (g''.sent ≡ (g.sent ++ framed (codes "OK")) ++ framed (hex s))
unfolding set_mem
write_memory_binary-read_memory needs text rest question g a s always asked content again bytes few
      start inside small opened =
    let h = written g a s in
    let size = filled-size a s g.arm.mem in
    let answer =
      read_memory_lem question h (length s) a again (omega (arith, size)) (omega (arith, size))
        opened in
    (
      h,
      dumped h (length s) a,
      write_memory_binary_lem needs text rest g a s always asked content start inside small opened,
      (rw (le→leb (length s) 509 few) at answer),
      ap (λ t. (g.sent ++ framed (codes "OK")) ++ framed t) (dump-filled a s g.arm.mem bytes),
    )
