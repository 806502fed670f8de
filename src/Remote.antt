-- ===== src/Remote.antt =====
-- What gdb and the simulator say to one another about the memory, from the side of gdb: its requests as
-- the protocol writes them, and the answers that it can expect of a memory that is a function. The code
-- that has to meet this is arm_simulator-1.4/scanner.l and gdb_protocol.c.
pub mod Requests
pub mod Serve
pub mod Refines
use uga_prog.Base.{
  ℕ, zero, suc, ◌+◌, ◌≤◌, ◌<◌, ◌≡◌, Bool, ◌||◌, List, [], ◌∷◌, ◌++◌, length, All, ◌==◌,
  if◌then◌else◌,
}
use uga_prog.Text.{codes, number_of}
use uga_prog.Text.Numbers.{hex_text, AreDigits}
use uga_prog.Gdb.{framed}
use uga_prog.Gdb.Escape.{escape, hex}

-- A number as its hexadecimal digits, the first one apart.
pub record Number : Type 0 where
  pub first : ℕ
  pub others : List ℕ

abbrev pub digits_of : Number → List ℕ
digits_of n = n.first ∷ n.others

abbrev pub value_of : Number → ℕ
value_of n = number_of 16 0 (digits_of n)

-- Bytes from an address, asked for or given.
pub data Request : Type 0 where
  read : (address size : Number) → Request
  write : (address size : Number) (bytes : List ℕ) → Request

-- The bytes that cannot stand in a packet as they are.
abbrev pub is_special : ℕ → Bool
is_special c = ((c == 0x7d) || (c == b'$')) || (c == b'#')

abbrev pub pair_text : Number → Number → List ℕ
pair_text address size = hex_text (digits_of address) ++ (b',' ∷ hex_text (digits_of size))

abbrev pub request_text : Request → List ℕ
request_text (read address size) = b'm' ∷ pair_text address size
request_text (write address size bytes) =
    b'X' ∷ (pair_text address size ++ (b':' ∷ escape is_special bytes))

-- The stream of gdb, which acknowledges each answer.
abbrev pub stream_of : List Request → List ℕ
stream_of [] = []
stream_of (r ∷ rs) = framed (request_text r) ++ (b'+' ∷ stream_of rs)

-- Requests that are inside a memory of a size, and have answers that fit a packet.
abbrev pub IsInside : ℕ → Request → Type 0
IsInside memory_size (read address size) =
    AreDigits (digits_of address)
    × AreDigits (digits_of size)
    × (value_of address + value_of size ≤ memory_size)
    × (value_of size ≤ 509)
IsInside memory_size (write address size bytes) =
    AreDigits (digits_of address)
    × AreDigits (digits_of size)
    × (value_of address + value_of size ≤ memory_size)
    × (value_of address < memory_size)
    × (length bytes ≡ value_of size)
    × All (λ c. c < 256) bytes

-- The abstract memory, `n` bytes of it from `a` on, and bytes laid over it there.
abbrev pub part : (ℕ → ℕ) → ℕ → ℕ → List ℕ
part f zero a = []
part f (suc n) a = f a ∷ part f n (a + 1)

abbrev pub overlay : ℕ → List ℕ → (ℕ → ℕ) → ℕ → ℕ
overlay a [] f i = f i
overlay a (c ∷ s) f i = if i == a then c else overlay (a + 1) s f i

abbrev pub memory_after : (ℕ → ℕ) → Request → ℕ → ℕ
memory_after f (read address size) = f
memory_after f (write address size bytes) = overlay (value_of address) bytes f

abbrev pub answer_text : (ℕ → ℕ) → Request → List ℕ
answer_text f (read address size) = hex (part f (value_of size) (value_of address))
answer_text f (write address size bytes) = codes "OK"

abbrev pub memory_after_all : (ℕ → ℕ) → List Request → ℕ → ℕ
memory_after_all f [] = f
memory_after_all f (r ∷ rs) = memory_after_all (memory_after f r) rs

-- Each request is acknowledged and answered, in their order.
abbrev pub answers : (ℕ → ℕ) → List Request → List ℕ
answers f [] = []
answers f (r ∷ rs) = (b'+' ∷ framed (answer_text f r)) ++ answers (memory_after f r) rs
