-- ===== src/Base/Word.antt =====
-- The fixed-width unsigned integers of C as native numbers: casts, shifts, wrapping arithmetic.
use Prim.Native.Nat.{ℕ, ◌+◌, ◌-◌, ◌*◌, ◌/◌, ◌%◌, ◌^◌}

abbrev pub u8 : ℕ → ℕ
u8 x = x % 2 ^ 8

abbrev pub u16 : ℕ → ℕ
u16 x = x % 2 ^ 16

abbrev pub u32 : ℕ → ℕ
u32 x = x % 2 ^ 32

infixl 72 ◌<<<◌ ◌>>>◌
-- `x << n` before any cast, and `x >> n`.
abbrev pub ◌<<<◌ : ℕ → ℕ → ℕ
x <<< n = x * 2 ^ n

abbrev pub ◌>>>◌ : ℕ → ℕ → ℕ
x >>> n = x / 2 ^ n

-- `a + b` and `a - b` on uint32_t; `-` on ℕ stops at 0, so the modulus is added first.
abbrev pub add32 : ℕ → ℕ → ℕ
add32 a b = (a + b) % 2 ^ 32

abbrev pub sub32 : ℕ → ℕ → ℕ
sub32 a b = (a + (2 ^ 32 - b % 2 ^ 32)) % 2 ^ 32

-- `~x` on uint32_t.
abbrev pub not32 : ℕ → ℕ
not32 x = 2 ^ 32 - 1 - x % 2 ^ 32
