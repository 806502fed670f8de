-- ===== src/Memory/Stored.antt =====
-- `memory_write_word` of memory.c at any address: its loop runs from the address while that is below 4.
use uga_prog.Base.{
  ℕ, zero, suc, ◌+◌, ◌-◌, ◌*◌, ◌/◌, ◌%◌, ◌^◌, ◌≤◌, ◌<◌, ◌≡◌, ◌∙◌, ap, refl, sym, arith, Bool,
  Bool-cases, inl, inr, true, false, ◌&&◌, some, u8, u32, ltb, leb, ◌==◌, if◌then◌else◌, lt→ltb,
  update,
}
use mathlib.Core.Path.{subst}
use uga_prog.Memory.{
  Memory, or_same, memory_get_size, memory_write_byte, memory_write_word, write_word_loop,
  word_byte,
}

-- The power of 256 that a byte of the first word stands for.
abbrev pub weight : Memory → ℕ → ℕ
weight mem i = if mem.be then 3 - i else i

stored_at : Memory → ℕ → ℕ → ℕ
stored_at mem i value = u8 (u8 (word_byte mem i value))

-- The bytes that a loop of `left` rounds writes, from `i` on.
IsWritten : Memory → Memory → ℕ → ℕ → ℕ → Type 0
IsWritten mem mem' left i value =
    (mem'.taille ≡ mem.taille)
    × (mem'.be ≡ mem.be)
    × ((j : ℕ)
        → mem'.bytes j
          ≡ (if leb i j && ltb j (i + left) then stored_at mem j value else mem.bytes j))

abbrev with_byte : Memory → ℕ → ℕ → Memory
with_byte mem i value = record mem { bytes = update mem.bytes i (stored_at mem i value) }

byte_written :
    (mem : Memory) (i value : ℕ)
    → i < mem.taille
    → or_same (memory_write_byte mem i (u8 (word_byte mem i value))) mem ≡ with_byte mem i value
unfolding memory_write_byte memory_get_size stored_at
byte_written mem i value h =
    let inside : ltb i mem.taille ≡ true = lt→ltb i mem.taille h in rw inside refl

-- The bytes of the rounds from the second on, and the byte of the first.
one_more :
    (f : ℕ → ℕ) (i left stored j : ℕ)
    → (w : ℕ) → (j ≡ i → w ≡ stored)
    → (if leb (i + 1) j && ltb j (i + 1 + left) then w else update f i stored j)
      ≡ (if leb i j && ltb j (i + suc left) then w else f j)
one_more f i left stored j w h = elim (Bool-cases (j == i)) [
  | inl here ↦ let e = h (ground arith) in ground arith
  | inr apart ↦ ground arith
]

write_word_loop-IsWritten :
    (mem : Memory) (left i value : ℕ)
    → i + left ≤ mem.taille
    → IsWritten mem (write_word_loop left i value mem) left i value
unfolding write_word_loop IsWritten stored_at
write_word_loop-IsWritten mem zero i value h = (refl, refl, λ j. ground arith)
write_word_loop-IsWritten mem (suc left) i value h =
    let (size, end, bytes) =
      write_word_loop-IsWritten (with_byte mem i value) left (i + 1) value (omega arith) in
    subst (λ m. IsWritten mem (write_word_loop left (i + 1) value m) (suc left) i value)
      (sym (byte_written mem i value (omega arith)))
      (
        size,
        end,
        λ j.
            bytes j
            ∙ one_more mem.bytes i left (stored_at mem i value) j (stored_at mem j value)
                (λ e. ap (λ t. stored_at mem t value) e),
      )

stored_at_lem :
    (mem : Memory) (j value : ℕ)
    → value < 2 ^ 32
    → j < 4
    → stored_at mem j (u32 value) ≡ (value + weight mem j) / 2 ^ (8 * weight mem j) % 256
unfolding stored_at word_byte
stored_at_lem mem j value fits h = by_order mem.be j h
  where
    by_order :
        (big : Bool) (j : ℕ)
        → j < 4
        → u8 (
            u8 (
              if big
              then (u32 value + (4 - j - 1)) / 2 ^ (8 * (4 - j - 1))
              else u32 (u32 value + j) / 2 ^ (8 * j)))
          ≡ (value + (if big then 3 - j else j)) / 2 ^ (8 * (if big then 3 - j else j)) % 256
    by_order true zero h = omega arith
    by_order false zero h = omega arith
    by_order true (suc zero) h = omega arith
    by_order false (suc zero) h = omega arith
    by_order true (suc (suc zero)) h = omega arith
    by_order false (suc (suc zero)) h = omega arith
    by_order true (suc (suc (suc zero))) h = omega arith
    by_order false (suc (suc (suc zero))) h = omega arith
    by_order big (suc (suc (suc (suc j)))) h = absurd (omega arith)

write_inside :
    (mem : Memory) (a v : ℕ)
    → a < mem.taille
    → memory_write_word mem a v ≡ some (write_word_loop (4 - a) a (u32 v) mem)
unfolding memory_write_word memory_get_size
write_inside mem a v inside = rw (lt→ltb a mem.taille inside) refl

same_range :
    (a j s t k : ℕ)
    → (j < 4 → s ≡ t)
    → (if leb a j && ltb j (a + (4 - a)) then s else k) ≡ (if leb a j && ltb j 4 then t else k)
same_range a j s t k h = elim (Bool-cases (ltb j 4)) [
  | inl low ↦ let e = h (ground arith) in ground arith
  | inr high ↦ ground arith
]

-- A word written inside a memory of at least four bytes is accepted, and keeps the size. A byte at the
-- address or behind it, and below 4, becomes that of its weight in the word plus the weight, the weight
-- being its place from the little end; every other byte stays, so from address 4 on nothing is written.
pub memory_write_word_lem :
    (mem : Memory) (a v : ℕ)
    → 4 ≤ mem.taille
    → a < mem.taille
    → v < 2 ^ 32
    → (mem' : Memory) × (memory_write_word mem a v ≡ some mem')
      × (mem'.taille ≡ mem.taille)
      × ((j : ℕ)
          → mem'.bytes j ≡ (
              if leb a j && ltb j 4
              then (v + weight mem j) / 2 ^ (8 * weight mem j) % 256
              else mem.bytes j))
unfolding IsWritten
memory_write_word_lem mem a v room inside fits =
    let (size, end, bytes) = write_word_loop-IsWritten mem (4 - a) a (u32 v) (omega arith) in
    (
      write_word_loop (4 - a) a (u32 v) mem,
      write_inside mem a v inside,
      size,
      λ j. bytes j ∙ same_range a j _ _ (mem.bytes j) (stored_at_lem mem j v fits),
    )
