-- ===== src/Gdb/Transfers.antt =====
-- The handlers that read and write the memory.
use uga_prog.Base.{
  ℕ, zero, suc, bit_xor, Bool, true, false, List, [], ◌∷◌, Option, none, some, u8, add32, ltb, ◌==◌,
  if◌then◌else◌,
}
use uga_prog.Base.Outcome.{Stop, Run, pure, halt, gets, modify, ◌>>=◌}
use uga_prog.Text.{codes, after_char, scan_x, print_byte}
use uga_prog.Memory.{Memory, memory_read_byte, memory_write_byte, memory_get_size}
use uga_prog.Gdb.{Gdb, gdb_send_data, gdb_send_buffer, print_at}
use uga_prog.Gdb.Handlers.{known}

-- What follows the comma of "%x,%x".
unfoldable pub scan_second : ℕ → List ℕ → Option (ℕ × ℕ)
unfolding scan_x
scan_second address [] = none
scan_second address (c ∷ s) =
    if c == b','
    then elim (scan_x s) [ none ↦ none | some (size, rest) ↦ some (address, size) ]
    else none

-- "%x,%x": both numbers, or `none` where one stays uninitialised.
unfoldable pub scan_pair : List ℕ → Option (ℕ × ℕ)
unfolding scan_second scan_x
scan_pair text = elim (scan_x text) [
  | none ↦ none
  | some (address, rest) ↦ scan_second address rest
]

unfoldable pub read_memory_loop : ℕ → ℕ → List ℕ → Run Gdb (List ℕ)
read_memory_loop zero address text = pure text
read_memory_loop (suc size) address text =
    gets (λ g. memory_read_byte g.arm.mem address) >>= λ value. elim value [
      | none ↦ pure text
      | some v ↦
          print_at text (print_byte v) >>= λ text'. read_memory_loop size (add32 address 1) text'
    ]

unfoldable pub read_memory : List ℕ → Run Gdb (Unit {0})
read_memory text = do
  pair ← known (scan_pair text)
  answer ← read_memory_loop (pair.1) (pair.0) []
  gdb_send_buffer answer

unfoldable pub set_mem : Memory → Gdb → Gdb
set_mem mem g = record g { arm = record g.arm { mem = mem } }

-- A byte as it stands, or the one that follows 0x7d with its bit 5 turned.
unfoldable pub next_byte : List ℕ → Option (ℕ × List ℕ)
next_byte [] = none
next_byte (c ∷ s) =
    if c == 0x7d then elim s [ [] ↦ none | d ∷ rest ↦ some (bit_xor d 0x20, rest) ] else some (c, s)

-- `write_ok` is false after a write that fails. A packet that ends too early is read past its end.
unfoldable pub write_memory_loop : ℕ → ℕ → List ℕ → Run Gdb Bool
write_memory_loop zero address content = pure true
write_memory_loop (suc size) address content = elim (next_byte content) [
  | none ↦ halt Stop.out_of_bounds
  | some (value, rest) ↦ gets (λ g. memory_write_byte g.arm.mem address (u8 value)) >>= λ written.
      elim written [
        | none ↦ pure false
        | some mem ↦ modify (set_mem mem) >>= λ _. write_memory_loop size (add32 address 1) rest
      ]
]

-- From the content after the `:`.
unfoldable pub write_content : ℕ × ℕ → Bool → Option (List ℕ) → Run Gdb (Unit {0})
write_content pair inside none = halt Stop.null_pointer
write_content pair inside (some content) = do
  write_ok ← (if inside then write_memory_loop (pair.1) (pair.0) content else pure false)
  if write_ok then gdb_send_data (codes "OK") else gdb_send_data (codes "E02")

unfoldable pub write_memory_binary : List ℕ → Run Gdb (Unit {0})
unfolding write_content
write_memory_binary text = do
  pair ← known (scan_pair text)
  inside ← gets (λ g. ltb pair.0 (memory_get_size g.arm.mem))
  write_content pair inside (after_char b':' text)
