-- ===== src/Memory/Bounds.antt =====
-- The bytes, the size and the endianness of a memory over the writes of memory.c.
use uga_prog.Base.{
  ℕ, zero, suc, ◌+◌, ◌-◌, u16, u32, ◌<◌, ◌≡◌, Bool, Option, none, some, arith, ltb, Bool-cases, inl,
  inr,
}
use uga_prog.Memory.{
  Memory, memory_write_byte, memory_write_half, memory_write_word, write_half_loop, write_word_loop,
  or_same,
}

pub record IsBytes (size : ℕ) (big : Bool) (mem : Memory) : Type 0 where
  pub fits : (a : ℕ) → mem.bytes a < 256
  pub same_size : mem.taille ≡ size
  pub same_end : mem.be ≡ big

-- What holds of the memory where a write succeeds.
abbrev pub Writes : (Memory → Type 0) → Option Memory → Type 0
Writes P none = Unit
Writes P (some m) = P m

module _ {size : ℕ} {big : Bool} where
  pub write_byte-IsBytes :
      (mem : Memory) (a v : ℕ)
      → IsBytes size big mem
      → Writes (IsBytes size big) (memory_write_byte mem a v)
  unfolding memory_write_byte
  write_byte-IsBytes mem a v h = elim (Bool-cases (ltb a mem.taille)) [
    | inl inside ↦ rw inside (record {
      fits = λ j. ground (arith, h.fits j);
      same_size = h.same_size;
      same_end = h.same_end;
    })
    | inr outside ↦ rw outside tt
  ]

  or_same-IsBytes :
      (o : Option Memory) (mem : Memory)
      → Writes (IsBytes size big) o
      → IsBytes size big mem
      → IsBytes size big (or_same o mem)
  or_same-IsBytes none mem ho h = h
  or_same-IsBytes (some m) mem ho h = ho

  write_half_loop-IsBytes :
      (left i value : ℕ) (mem : Memory)
      → IsBytes size big mem
      → IsBytes size big (write_half_loop left i value mem)
  unfolding write_half_loop
  write_half_loop-IsBytes zero i value mem h = h
  write_half_loop-IsBytes (suc left) i value mem h =
      write_half_loop-IsBytes left (i + 1) value _
        (or_same-IsBytes _ mem (write_byte-IsBytes mem i _ h) h)

  write_word_loop-IsBytes :
      (left i value : ℕ) (mem : Memory)
      → IsBytes size big mem
      → IsBytes size big (write_word_loop left i value mem)
  unfolding write_word_loop
  write_word_loop-IsBytes zero i value mem h = h
  write_word_loop-IsBytes (suc left) i value mem h =
      write_word_loop-IsBytes left (i + 1) value _
        (or_same-IsBytes _ mem (write_byte-IsBytes mem i _ h) h)

  pub write_half-IsBytes :
      (mem : Memory) (a v : ℕ)
      → IsBytes size big mem
      → Writes (IsBytes size big) (memory_write_half mem a v)
  unfolding memory_write_half
  write_half-IsBytes mem a v h = elim (Bool-cases (ltb a mem.taille)) [
    | inl inside ↦ rw inside (write_half_loop-IsBytes (2 - a) a (u16 v) mem h)
    | inr outside ↦ rw outside tt
  ]

  pub write_word-IsBytes :
      (mem : Memory) (a v : ℕ)
      → IsBytes size big mem
      → Writes (IsBytes size big) (memory_write_word mem a v)
  unfolding memory_write_word
  write_word-IsBytes mem a v h = elim (Bool-cases (ltb a mem.taille)) [
    | inl inside ↦ rw inside (write_word_loop-IsBytes (4 - a) a (u32 v) mem h)
    | inr outside ↦ rw outside tt
  ]
