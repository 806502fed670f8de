-- ===== src/Memory/Bytes.antt =====
-- Byte accesses of memory.c.
use uga_prog.Base.{ℕ, ◌<◌, ◌≡◌, arith, u8, ◌==◌, some, if◌then◌else◌, update}
use uga_prog.Memory.{Memory, memory_read_byte, memory_write_byte}

-- A byte written inside the memory is the one read back at its address, cut to 8 bits, and a read
-- at any other address gives what it gave before, errors included.
pub memory_write_byte-memory_read_byte :
    (mem : Memory) (a v : ℕ)
    → a < mem.taille
    → (mem' : Memory) × (memory_write_byte mem a v ≡ some mem')
      × ((b : ℕ)
          → memory_read_byte mem' b ≡ (if b == a then some (u8 v) else memory_read_byte mem b))
unfolding memory_write_byte memory_read_byte
memory_write_byte-memory_read_byte mem a v inside =
    (record mem { bytes = update mem.bytes a (u8 v) }, ground arith, λ b. ground arith)
