-- ===== src/Memory/Anywhere.antt =====
-- `memory_read_word` of memory.c at any address: its loop runs from the address while that is below 4.
use uga_prog.Base.{
  ℕ, zero, suc, ◌-◌, ◌*◌, ◌%◌, ◌^◌, ◌≤◌, ◌<◌, ◌≡◌, ◌∙◌, ap, refl, sym, Bool, true, false,
  Bool-cases, inl, inr, none, some, arith, ltb, bit_or, if◌then◌else◌,
}
use uga_prog.Memory.{
  Memory, or_keep, memory_get_size, memory_read_byte, memory_read_word, word_loop, word_part,
}
use uga_prog.Memory.Words.{
  from_bytes, memory_read_word_start, memory_read_word_beyond, memory_read_word_outside,
}

-- The memory with 0 in place of its first bytes.
abbrev blanked : ℕ → Memory → Memory
blanked a mem = record mem { bytes = λ i. if ltb i a then 0 else mem.bytes i }

word_part-zero : (mem : Memory) (i : ℕ) → word_part mem i 0 ≡ 0
unfolding word_part
word_part-zero mem i = ground arith

byte_inside :
    (mem : Memory) (i v : ℕ) → i < mem.taille → or_keep (memory_read_byte mem i) v ≡ mem.bytes i
unfolding memory_read_byte memory_get_size
byte_inside mem i v h = ground arith

-- Four parts joined, from one of the four places on.
abbrev parts_from : (ℕ → ℕ) → ℕ → ℕ
parts_from part zero = bit_or (bit_or (bit_or (bit_or 0 (part 0)) (part 1)) (part 2)) (part 3)
parts_from part (suc zero) = bit_or (bit_or (bit_or 0 (part 1)) (part 2)) (part 3)
parts_from part (suc (suc zero)) = bit_or (bit_or 0 (part 2)) (part 3)
parts_from part (suc (suc (suc a))) = bit_or 0 (part 3)

word_loop-parts :
    (mem : Memory) (a : ℕ)
    → 4 ≤ mem.taille
    → a < 4
    → word_loop mem (4 - a) a 0 0 ≡ parts_from (λ i. word_part mem i (mem.bytes i)) a
unfolding word_loop
word_loop-parts mem a room h =
    let inside : (i v : ℕ) → i < 4 → or_keep (memory_read_byte mem i) v ≡ mem.bytes i =
      λ i v lt. byte_inside mem i v (omega arith) in
    in_places a h inside
  where
    in_places :
        (a : ℕ)
        → a < 4
        → ((i v : ℕ) → i < 4 → or_keep (memory_read_byte mem i) v ≡ mem.bytes i)
        → word_loop mem (4 - a) a 0 0 ≡ parts_from (λ i. word_part mem i (mem.bytes i)) a
    in_places zero h inside = simp (
      inside 0 _ (omega arith),
      inside 1 _ (omega arith),
      inside 2 _ (omega arith),
      inside 3 _ (omega arith),
    )
    in_places (suc zero) h inside =
        simp (inside 1 _ (omega arith), inside 2 _ (omega arith), inside 3 _ (omega arith))
    in_places (suc (suc zero)) h inside = simp (inside 2 _ (omega arith), inside 3 _ (omega arith))
    in_places (suc (suc (suc zero))) h inside = simp (inside 3 _ (omega arith))
    in_places (suc (suc (suc (suc a)))) h inside = absurd (omega arith)

parts_from-blanked :
    (mem : Memory) (a : ℕ)
    → a < 4
    → parts_from (λ i. word_part mem i (mem.bytes i)) a
      ≡ parts_from (λ i. word_part (blanked a mem) i ((blanked a mem).bytes i)) 0
unfolding word_part
parts_from-blanked mem zero h = refl
parts_from-blanked mem (suc zero) h = simp (word_part-zero (blanked 1 mem))
parts_from-blanked mem (suc (suc zero)) h = simp (word_part-zero (blanked 2 mem))
parts_from-blanked mem (suc (suc (suc zero))) h = simp (word_part-zero (blanked 3 mem))
parts_from-blanked mem (suc (suc (suc (suc a)))) h = absurd (omega arith)

-- A word as a number, of four bytes in an order, and what a late start leaves of it.
abbrev pub word_at_start : Memory → ℕ
word_at_start mem =
    if mem.be
    then from_bytes (mem.bytes 0) (mem.bytes 1) (mem.bytes 2) (mem.bytes 3)
    else from_bytes (mem.bytes 3) (mem.bytes 2) (mem.bytes 1) (mem.bytes 0)

abbrev pub left_from : ℕ → Bool → ℕ → ℕ
left_from a big w = if big then w % 2 ^ (8 * (4 - a)) else w - w % 2 ^ (8 * a)

blanked-word :
    (mem : Memory) (a : ℕ)
    → ((i : ℕ) → mem.bytes i < 256)
    → a < 4
    → word_at_start (blanked a mem) ≡ left_from a mem.be (word_at_start mem)
blanked-word mem a fits h = by_place a mem.be h (fits 0) (fits 1) (fits 2) (fits 3)
  where
    by_place :
        (a : ℕ) (big : Bool) {b0 b1 b2 b3 : ℕ}
        → a < 4
        → b0 < 256
        → b1 < 256
        → b2 < 256
        → b3 < 256
        → (if big
            then from_bytes
                (if ltb 0 a then 0 else b0)
                (if ltb 1 a then 0 else b1)
                (if ltb 2 a then 0 else b2)
                (if ltb 3 a then 0 else b3)
            else from_bytes
                (if ltb 3 a then 0 else b3)
                (if ltb 2 a then 0 else b2)
                (if ltb 1 a then 0 else b1)
                (if ltb 0 a then 0 else b0))
          ≡ left_from a big (if big then from_bytes b0 b1 b2 b3 else from_bytes b3 b2 b1 b0)
    by_place zero true h h0 h1 h2 h3 = omega arith
    by_place zero false h h0 h1 h2 h3 = omega arith
    by_place (suc zero) true h h0 h1 h2 h3 = omega arith
    by_place (suc zero) false h h0 h1 h2 h3 = omega arith
    by_place (suc (suc zero)) true h h0 h1 h2 h3 = omega arith
    by_place (suc (suc zero)) false h h0 h1 h2 h3 = omega arith
    by_place (suc (suc (suc zero))) true h h0 h1 h2 h3 = omega arith
    by_place (suc (suc (suc zero))) false h h0 h1 h2 h3 = omega arith
    by_place (suc (suc (suc (suc a)))) big h h0 h1 h2 h3 = absurd (omega arith)

read_inside :
    (mem : Memory) (a : ℕ)
    → a < mem.taille
    → memory_read_word mem a ≡ some (word_loop mem (4 - a) a 0 0)
unfolding memory_read_word
read_inside mem a inside = ground arith

read_below :
    (mem : Memory) (a : ℕ)
    → 4 ≤ mem.taille
    → ((i : ℕ) → mem.bytes i < 256)
    → a < 4
    → memory_read_word mem a ≡ some (left_from a mem.be (word_at_start mem))
read_below mem a room fits h =
    read_inside mem a (omega arith)
    ∙ ap some (
        word_loop-parts mem a room h
        ∙ parts_from-blanked mem a h
        ∙ sym (word_loop-parts (blanked a mem) 0 room (omega arith)))
    ∙ sym (read_inside (blanked a mem) 0 (omega arith))
    ∙ memory_read_word_start (blanked a mem) room (λ i. ground (arith, fits i))
    ∙ ap some (blanked-word mem a fits h)

-- A word read, in a memory of at least four bytes, all of 8 bits: outside the memory the read fails. Inside
-- it and from address 4 on it gives 0, and at 0 to 3 what the word at 0 has in the bytes from there on,
-- the others being 0.
pub memory_read_word_lem :
    (mem : Memory) (a : ℕ)
    → 4 ≤ mem.taille
    → ((i : ℕ) → mem.bytes i < 256)
    → memory_read_word mem a ≡ (
        if ltb a mem.taille
        then some (if ltb a 4 then left_from a mem.be (word_at_start mem) else 0)
        else none)
memory_read_word_lem mem a room fits = elim (Bool-cases (ltb a mem.taille)) [
  | inl inside ↦ rw inside (in_memory (ground arith))
  | inr outside ↦ rw outside (memory_read_word_outside mem a (ground arith))
]
  where
    in_memory :
        a < mem.taille
        → memory_read_word mem a
          ≡ some (if ltb a 4 then left_from a mem.be (word_at_start mem) else 0)
    in_memory inside = elim (Bool-cases (ltb a 4)) [
      | inl low ↦ rw low (read_below mem a room fits (ground arith))
      | inr high ↦ rw high (memory_read_word_beyond mem a (ground arith) inside)
    ]
