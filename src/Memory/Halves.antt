-- ===== src/Memory/Halves.antt =====
-- Half accesses of memory.c.
use uga_prog.Base.{
  refl, ℕ, ◌+◌, ◌*◌, ◌^◌, ◌≤◌, ◌<◌, ◌≡◌, ◌∙◌, ap, Bool, true, false, some, arith, bit_or, u16,
  if◌then◌else◌, lt→ltb,
}
use uga_prog.Base.Bits.{bit_or_aligned, bit_or_comm, bit_or-zero}
use uga_prog.Memory.{Memory, memory_read_half, half_loop, half_part}

joined :
    (be : Bool) (a b : ℕ)
    → a < 256
    → b < 256
    → u16 (
        bit_or (u16 (bit_or 0 (if be then a * 2 ^ 8 else a * 1))) (if be then b * 1 else b * 2 ^ 8))
      ≡ (if be then a * 2 ^ 8 + b else b * 2 ^ 8 + a)
joined true a b ha hb =
    let first : u16 (bit_or 0 (a * 2 ^ 8)) ≡ a * 2 ^ 8 =
      ap u16 (bit_or_comm 0 (a * 2 ^ 8) ∙ bit_or-zero (a * 2 ^ 8)) ∙ omega arith in
    let second : b * 1 ≡ b = omega arith in
    rw (first, second, bit_or_aligned 8 (a * 2 ^ 8) b (omega arith) hb) (omega arith)
joined false a b ha hb =
    let first : u16 (bit_or 0 (a * 1)) ≡ a =
      ap u16 (bit_or_comm 0 (a * 1) ∙ bit_or-zero (a * 1)) ∙ omega arith in
    rw (first, bit_or_comm a (b * 2 ^ 8), bit_or_aligned 8 (b * 2 ^ 8) a (omega arith) ha)
      (omega arith)

read_half_loop :
    (mem : Memory) (a : ℕ)
    → 2 ≤ mem.taille
    → a < mem.taille
    → memory_read_half mem a
      ≡ some (
          u16 (
            bit_or
              (u16 (bit_or 0 (half_part mem 0 (mem.bytes 0))))
              (half_part mem 1 (mem.bytes 1))))
unfolding memory_read_half half_loop
read_half_loop mem a room inside =
    rw
      (
        lt→ltb a mem.taille inside,
        lt→ltb 0 mem.taille (omega arith),
        lt→ltb 1 mem.taille (omega arith),
      )
      refl

-- A half read anywhere in a memory of at least two bytes is the number that bytes 0 and 1 stand for
-- in the order of the memory's endianness, whatever the address.
pub memory_read_half_start :
    (mem : Memory) (a : ℕ)
    → 2 ≤ mem.taille
    → ((i : ℕ) → mem.bytes i < 256)
    → a < mem.taille
    → memory_read_half mem a
      ≡ some
          (if mem.be then mem.bytes 0 * 2 ^ 8 + mem.bytes 1 else mem.bytes 1 * 2 ^ 8 + mem.bytes 0)
unfolding half_part
memory_read_half_start mem a room fits inside =
    read_half_loop mem a room inside ∙ ap some (joined mem.be _ _ (fits 0) (fits 1))
