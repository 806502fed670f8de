-- ===== src/Util.antt =====
-- arm_simulator-1.4/util.h and util.c: the bit macros, and the shifts that C has no operator for.
use uga_prog.Base.{
  ℕ, ◌+◌, ◌-◌, ◌^◌, ◌<<<◌, ◌>>>◌, bit_and, bit_or, Bool, ◌||◌, u32, not32, ◌==◌, leb, if◌then◌else◌,
}
use uga_prog.Base.Outcome.{Outcome, Stop, ok, stop}
pub mod Fields
pub mod Shifts
pub mod Reverse
pub mod Set

unfoldable pub get_bit : ℕ → ℕ → ℕ
get_bit x i = bit_and (x >>> i) 1

unfoldable pub set_bit : ℕ → ℕ → ℕ
set_bit x i = bit_or x (u32 (1 <<< i))

unfoldable pub clr_bit : ℕ → ℕ → ℕ
clr_bit x i = bit_and x (not32 (1 <<< i))

-- `(~0) >> n << n` is all ones but for the low n, since `~0` is an int and keeps its sign.
unfoldable pub get_bits : ℕ → ℕ → ℕ → ℕ
get_bits x h l = bit_and (x >>> l) (2 ^ (h - l + 1) - 1)

-- `bits` is not cut to the field. A field up to bit 31 shifts `~0` by its width.
unfoldable pub set_bits : ℕ → ℕ → ℕ → ℕ → ℕ
set_bits x h l bits =
    bit_or (bit_or (bit_and x (2 ^ l - 1)) (bit_and x (2 ^ 32 - 2 ^ (h + 1)))) (u32 (bits <<< l))

unfoldable pub reverse_2 : ℕ → ℕ
reverse_2 x = bit_or (bit_and x 0xFF <<< 8) (bit_and (x >>> 8) 0xFF)

unfoldable pub reverse_4 : ℕ → ℕ
reverse_4 x =
    bit_or
      (bit_or (bit_or (bit_and x 0xFF <<< 24) (bit_and (x >>> 8) 0xFF <<< 16))
        (bit_and (x >>> 16) 0xFF <<< 8))
      (bit_and (x >>> 24) 0xFF)

-- `~0 << (32 - shift)`, which C leaves undefined for `shift` 0, is reached only by a set bit 31.
unfoldable pub asr_sign : ℕ → ℕ → Outcome ℕ
asr_sign value shift =
    if get_bit value 31 == 0
    then ok 0
    else if shift == 0
    then stop Stop.wide_shift
    else ok (2 ^ 32 - 2 ^ (32 - shift))

unfoldable pub asr : ℕ → ℕ → Outcome ℕ
unfolding asr_sign
asr value shift = if leb 32 shift then stop Stop.wide_shift else elim (asr_sign value shift) [
  | ok ones ↦ ok (bit_or (value >>> shift) ones)
  | stop e ↦ stop e
]

-- A rotation by 0 shifts left by 32, and one by 32 or more shifts right by as much.
unfoldable pub ror : ℕ → ℕ → Outcome ℕ
ror value rotation =
    if (rotation == 0) || leb 32 rotation
    then stop Stop.wide_shift
    else ok (bit_or (value >>> rotation) (u32 (value <<< (32 - rotation))))
