-- ===== src/Memory.antt =====
-- arm_simulator-1.4/memory.c: the simulated memory. The block that malloc returned is a function
-- of the index; `some` is the return value 0 and `none` is -1.
pub mod Bounds
pub mod Words
pub mod Anywhere
pub mod Stored
pub mod RoundTrip
pub mod Bytes
pub mod Halves
use uga_prog.Base.{
  ℕ, zero, suc, ◌+◌, ◌-◌, ◌*◌, ◌<<<◌, ◌>>>◌, bit_or, Bool, Option, none, some, u8, u16, u32, ltb,
  if◌then◌else◌, update,
}

pub record Memory : Type 0 where
  pub bytes : ℕ → ℕ
  pub taille : ℕ
  pub be : Bool

-- The results of the two calls of malloc: no struct, no data block, or a block as it was found.
unfoldable pub memory_create : Bool → Option (ℕ → ℕ) → ℕ → Bool → Option Memory
memory_create struct_allocated block size is_big_endian =
    if struct_allocated
    then elim block [
      | none ↦ none
      | some found ↦ some (record { bytes = found; taille = size; be = is_big_endian })
    ]
    else none

unfoldable pub memory_get_size : Memory → ℕ
memory_get_size mem = mem.taille

unfoldable pub memory_read_byte : Memory → ℕ → Option ℕ
unfolding memory_get_size
memory_read_byte mem address =
    if ltb address (memory_get_size mem) then some (mem.bytes address) else none

-- The byte that a failed read leaves in the caller's variable is the one it held.
abbrev pub or_keep : Option ℕ → ℕ → ℕ
or_keep none v = v
or_keep (some v') _ = v'

-- One byte of a half, at `i` of 0 and 1, put in its place.
unfoldable pub half_part : Memory → ℕ → ℕ → ℕ
half_part mem i v = if mem.be then v <<< (8 * (2 - i - 1)) else v <<< (8 * i)

unfoldable pub half_loop : Memory → ℕ → ℕ → ℕ → ℕ → ℕ
unfolding half_part memory_read_byte
half_loop mem zero i v value = value
half_loop mem (suc left) i v value =
    let v' = or_keep (memory_read_byte mem i) v in
    half_loop mem left (i + 1) v' (u16 (bit_or value (half_part mem i v')))

-- The loop runs over `i` from 0, whatever the address.
unfoldable pub memory_read_half : Memory → ℕ → Option ℕ
unfolding half_loop memory_get_size
memory_read_half mem address =
    if ltb address (memory_get_size mem) then some (half_loop mem 2 0 0 0) else none

unfoldable pub word_part : Memory → ℕ → ℕ → ℕ
word_part mem i v = if mem.be then u32 (v <<< (8 * (4 - i - 1))) else u32 (v <<< (8 * i))

unfoldable pub word_loop : Memory → ℕ → ℕ → ℕ → ℕ → ℕ
unfolding word_part memory_read_byte
word_loop mem zero i v value = value
word_loop mem (suc left) i v value =
    let v' = or_keep (memory_read_byte mem i) v in
    word_loop mem left (i + 1) v' (bit_or value (word_part mem i v'))

-- The loop runs from `address` while below 4. An `int` that went negative is a huge size_t there.
unfoldable pub memory_read_word : Memory → ℕ → Option ℕ
unfolding word_loop memory_get_size
memory_read_word mem address =
    if ltb address (memory_get_size mem)
    then some (word_loop mem (4 - address) address 0 0)
    else none

unfoldable pub memory_write_byte : Memory → ℕ → ℕ → Option Memory
unfolding memory_get_size
memory_write_byte mem address value =
    if ltb address (memory_get_size mem)
    then some (record mem { bytes = update mem.bytes address (u8 value) })
    else none

-- A write whose result is not looked at.
abbrev pub or_same : Option Memory → Memory → Memory
or_same none mem = mem
or_same (some mem') _ = mem'

-- `(value + i) >> 8 * i`, in int or size_t, where a uint16_t does not wrap.
unfoldable pub half_byte : Memory → ℕ → ℕ → ℕ
half_byte mem i value =
    if mem.be then (value + (2 - i - 1)) >>> (8 * (2 - i - 1)) else (value + i) >>> (8 * i)

unfoldable pub write_half_loop : ℕ → ℕ → ℕ → Memory → Memory
unfolding half_byte memory_write_byte
write_half_loop zero i value mem = mem
write_half_loop (suc left) i value mem =
    write_half_loop left (i + 1) value
      (or_same (memory_write_byte mem i (u8 (half_byte mem i value))) mem)

unfoldable pub memory_write_half : Memory → ℕ → ℕ → Option Memory
unfolding write_half_loop memory_get_size
memory_write_half mem address value =
    if ltb address (memory_get_size mem)
    then some (write_half_loop (2 - address) address (u16 value) mem)
    else none

-- `value + i` is a uint32_t and wraps, `value + (4 - i - 1)` is a size_t and does not.
unfoldable pub word_byte : Memory → ℕ → ℕ → ℕ
word_byte mem i value =
    if mem.be then (value + (4 - i - 1)) >>> (8 * (4 - i - 1)) else u32 (value + i) >>> (8 * i)

unfoldable pub write_word_loop : ℕ → ℕ → ℕ → Memory → Memory
unfolding word_byte memory_write_byte
write_word_loop zero i value mem = mem
write_word_loop (suc left) i value mem =
    write_word_loop left (i + 1) value
      (or_same (memory_write_byte mem i (u8 (word_byte mem i value))) mem)

unfoldable pub memory_write_word : Memory → ℕ → ℕ → Option Memory
unfolding write_word_loop memory_get_size
memory_write_word mem address value =
    if ltb address (memory_get_size mem)
    then some (write_word_loop (4 - address) address (u32 value) mem)
    else none
