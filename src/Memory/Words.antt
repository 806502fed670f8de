-- ===== src/Memory/Words.antt =====
-- Word accesses of memory.c: past the first word, and at address 0.
use uga_prog.Base.{
  ℕ, ◌+◌, ◌*◌, ◌^◌, ◌≤◌, ◌<◌, ◌≡◌, ◌∙◌, ap, refl, Bool, true, false, none, some, arith, bit_or, u8,
  u32, if◌then◌else◌, update, lt→ltb,
}
use uga_prog.Base.Bits.{bit_or_aligned, bit_or_comm, bit_or-zero}
use uga_prog.Memory.{
  Memory, memory_read_word, memory_write_word, word_loop, word_part, write_word_loop, word_byte,
}

-- A read from 4 up gives 0, whatever the memory holds.
pub memory_read_word_beyond :
    (mem : Memory) (a : ℕ) → 4 ≤ a → a < mem.taille → memory_read_word mem a ≡ some 0
unfolding memory_read_word
memory_read_word_beyond mem a far inside = ground arith

pub memory_read_word_outside :
    (mem : Memory) (a : ℕ) → mem.taille ≤ a → memory_read_word mem a ≡ none
unfolding memory_read_word
memory_read_word_outside mem a outside = ground arith

-- The number that four bytes stand for, the most significant one first.
abbrev pub from_bytes : ℕ → ℕ → ℕ → ℕ → ℕ
from_bytes a b c d = a * 2 ^ 24 + b * 2 ^ 16 + c * 2 ^ 8 + d

-- Four parts joined from the most significant down, or from the least significant up.
join_down :
    (a b c d : ℕ)
    → a < 256
    → b < 256
    → c < 256
    → d < 256
    → bit_or (bit_or (bit_or (bit_or 0 (a * 2 ^ 24)) (b * 2 ^ 16)) (c * 2 ^ 8)) d
      ≡ from_bytes a b c d
join_down a b c d ha hb hc hd =
    rw
      (
        bit_or_comm 0 (a * 2 ^ 24),
        bit_or-zero (a * 2 ^ 24),
        bit_or_aligned 24 (a * 2 ^ 24) (b * 2 ^ 16) (omega arith) (omega arith),
        bit_or_aligned 16 (a * 2 ^ 24 + b * 2 ^ 16) (c * 2 ^ 8) (omega arith) (omega arith),
        bit_or_aligned 8 (a * 2 ^ 24 + b * 2 ^ 16 + c * 2 ^ 8) d (omega arith) (omega arith),
      )
      refl

join_up :
    (a b c d : ℕ)
    → a < 256
    → b < 256
    → c < 256
    → d < 256
    → bit_or (bit_or (bit_or (bit_or 0 d) (c * 2 ^ 8)) (b * 2 ^ 16)) (a * 2 ^ 24)
      ≡ from_bytes a b c d
join_up a b c d ha hb hc hd =
    rw
      (
        bit_or_comm 0 d,
        bit_or-zero d,
        bit_or_comm d (c * 2 ^ 8),
        bit_or_aligned 8 (c * 2 ^ 8) d (omega arith) (omega arith),
        bit_or_comm (c * 2 ^ 8 + d) (b * 2 ^ 16),
        bit_or_aligned 16 (b * 2 ^ 16) (c * 2 ^ 8 + d) (omega arith) (omega arith),
        bit_or_comm (b * 2 ^ 16 + (c * 2 ^ 8 + d)) (a * 2 ^ 24),
        bit_or_aligned 24 (a * 2 ^ 24) (b * 2 ^ 16 + (c * 2 ^ 8 + d)) (omega arith) (omega arith),
      )
      (omega arith)

read_word_loop :
    (mem : Memory)
    → 4 ≤ mem.taille
    → memory_read_word mem 0
      ≡ some (
          bit_or
            (bit_or
              (bit_or (bit_or 0 (word_part mem 0 (mem.bytes 0))) (word_part mem 1 (mem.bytes 1)))
              (word_part mem 2 (mem.bytes 2)))
            (word_part mem 3 (mem.bytes 3)))
unfolding memory_read_word word_loop
read_word_loop mem h = ground arith

-- A word read at 0 of a memory of at least four bytes is the number that they stand for in the
-- order of the memory's endianness.
pub memory_read_word_start :
    (mem : Memory)
    → 4 ≤ mem.taille
    → ((i : ℕ) → mem.bytes i < 256)
    → memory_read_word mem 0
      ≡ some (
          if mem.be
          then from_bytes (mem.bytes 0) (mem.bytes 1) (mem.bytes 2) (mem.bytes 3)
          else from_bytes (mem.bytes 3) (mem.bytes 2) (mem.bytes 1) (mem.bytes 0))
unfolding word_part
memory_read_word_start mem h fits =
    read_word_loop mem h ∙ ap some (joined mem.be _ _ _ _ (fits 0) (fits 1) (fits 2) (fits 3))
  where
    joined :
        (be : Bool) (a b c d : ℕ)
        → a < 256
        → b < 256
        → c < 256
        → d < 256
        → bit_or
            (bit_or
              (bit_or
                (bit_or 0 (if be then u32 (a * 2 ^ 24) else u32 (a * 1)))
                (if be then u32 (b * 2 ^ 16) else u32 (b * 2 ^ 8)))
              (if be then u32 (c * 2 ^ 8) else u32 (c * 2 ^ 16)))
            (if be then u32 (d * 1) else u32 (d * 2 ^ 24))
          ≡ (if be then from_bytes a b c d else from_bytes d c b a)
    joined true a b c d ha hb hc hd =
        let ea : u32 (a * 2 ^ 24) ≡ a * 2 ^ 24 = omega arith in
        let eb : u32 (b * 2 ^ 16) ≡ b * 2 ^ 16 = omega arith in
        let ec : u32 (c * 2 ^ 8) ≡ c * 2 ^ 8 = omega arith in
        let ed : u32 (d * 1) ≡ d = omega arith in
        rw (ea, eb, ec, ed) (join_down a b c d ha hb hc hd)
    joined false a b c d ha hb hc hd =
        let ea : u32 (a * 1) ≡ a = omega arith in
        let eb : u32 (b * 2 ^ 8) ≡ b * 2 ^ 8 = omega arith in
        let ec : u32 (c * 2 ^ 16) ≡ c * 2 ^ 16 = omega arith in
        let ed : u32 (d * 2 ^ 24) ≡ d * 2 ^ 24 = omega arith in
        rw (ea, eb, ec, ed) (join_up d c b a hd hc hb ha)

-- The memory after the four writes.
abbrev pub written : Memory → ℕ → ℕ → ℕ → ℕ → Memory
written mem a b c d = record mem {
  bytes = update (update (update (update mem.bytes 0 a) 1 b) 2 c) 3 d;
}

abbrev pub cut : Memory → ℕ → ℕ → ℕ
cut mem i value = u8 (u8 (word_byte mem i value))

pub write_word_loop_start :
    (mem : Memory) (value : ℕ)
    → 4 ≤ mem.taille
    → memory_write_word mem 0 value
      ≡ some (
          written mem
            (cut mem 0 (u32 value))
            (cut mem 1 (u32 value))
            (cut mem 2 (u32 value))
            (cut mem 3 (u32 value)))
unfolding memory_write_word write_word_loop word_byte
write_word_loop_start mem value h =
    rw
      (
        lt→ltb 0 mem.taille (omega arith),
        lt→ltb 1 mem.taille (omega arith),
        lt→ltb 2 mem.taille (omega arith),
        lt→ltb 3 mem.taille (omega arith),
      )
      refl
