-- ===== src/Gdb/Words.antt =====
-- `read_uint32` and `write_uint32`: a word as eight hexadecimal digits, in the byte order of the
-- target.
use uga_prog.Base.{
  ℕ, ◌+◌, ◌*◌, ◌/◌, ◌-◌, ◌%◌, ◌^◌, Bool, true, false, List, [], ◌∷◌, ◌++◌, Option, none, some, u8,
  if◌then◌else◌,
}
use uga_prog.Text.{print_byte, scan_hex}
use uga_prog.Gdb.{Build}

abbrev pub same_order : Bool → Bool → Bool
same_order true b = b
same_order false true = false
same_order false false = true

-- `data += 2`
abbrev pub skip_two : List ℕ → List ℕ
skip_two [] = []
skip_two (a ∷ []) = []
skip_two (a ∷ b ∷ s) = s

-- The variable after "%02x": a text that is no number leaves it, and `none` is a value that the
-- packet does not determine.
unfoldable pub scan_byte : List ℕ → Option ℕ → Option ℕ
scan_byte [] old = none
scan_byte (c ∷ s) old = elim (scan_hex 2 (c ∷ s)) [ none ↦ old | some (v, rest) ↦ some v ]

-- The integer of the union, from its bytes in the order of the memory.
unfoldable pub integer_of : Bool → ℕ → ℕ → ℕ → ℕ → ℕ
integer_of host_big a b c d =
    if host_big
    then a * 2 ^ 24 + b * 2 ^ 16 + c * 2 ^ 8 + d
    else d * 2 ^ 24 + c * 2 ^ 16 + b * 2 ^ 8 + a

-- The four bytes as they were read, each cut to an unsigned char.
unfoldable pub union_of : Build → Option ℕ → Option ℕ → Option ℕ → Option ℕ → Option ℕ
union_of build (some a) (some b) (some c) (some d) = some (
    if same_order build.host_big build.target_big
    then integer_of build.host_big (u8 a) (u8 b) (u8 c) (u8 d)
    else integer_of build.host_big (u8 d) (u8 c) (u8 b) (u8 a))
union_of build _ _ _ _ = none

unfoldable pub read_uint32 : Build → List ℕ → Option ℕ
read_uint32 build s =
    let a = scan_byte s none in
    let b = scan_byte (skip_two s) a in
    let c = scan_byte (skip_two (skip_two s)) b in
    let d = scan_byte (skip_two (skip_two (skip_two s))) c in union_of build a b c d

-- Byte `i` of the union that holds the value.
unfoldable pub union_byte : Bool → ℕ → ℕ → ℕ
union_byte host_big value i =
    if host_big then value / 2 ^ (8 * (3 - i)) % 2 ^ 8 else value / 2 ^ (8 * i) % 2 ^ 8

unfoldable pub write_uint32 : Build → ℕ → List ℕ
write_uint32 build value =
    let byte = λ (i : ℕ). print_byte (union_byte build.host_big value i) in
    if same_order build.host_big build.target_big
    then byte 0 ++ (byte 1 ++ (byte 2 ++ byte 3))
    else byte 3 ++ (byte 2 ++ (byte 1 ++ byte 0))
