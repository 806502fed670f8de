-- ===== src/Util/Reverse.antt =====
-- `reverse_4` of util.h.
use uga_prog.Base.{ℕ, ◌+◌, ◌*◌, ◌/◌, ◌%◌, ◌^◌, ◌<◌, ◌≡◌, arith}
use uga_prog.Base.Bits.{bit_and_ones, bit_or_aligned}
use uga_prog.Util.{reverse_4}

reverse_4_lem :
    (x : ℕ)
    → reverse_4 x
      ≡ x % 2 ^ 8 * 2 ^ 24
        + x / 2 ^ 8 % 2 ^ 8 * 2 ^ 16
        + x / 2 ^ 16 % 2 ^ 8 * 2 ^ 8
        + x / 2 ^ 24 % 2 ^ 8
unfolding reverse_4
reverse_4_lem x =
    let a = x % 2 ^ 8 in
    let b = x / 2 ^ 8 % 2 ^ 8 in
    let c = x / 2 ^ 16 % 2 ^ 8 in
    let d = x / 2 ^ 24 % 2 ^ 8 in
    rw
      (
        bit_and_ones 8 x,
        bit_and_ones 8 (x / 2 ^ 8),
        bit_and_ones 8 (x / 2 ^ 16),
        bit_and_ones 8 (x / 2 ^ 24),
        bit_or_aligned 24 (a * 2 ^ 24) (b * 2 ^ 16) (omega arith) (omega arith),
        bit_or_aligned 16 (a * 2 ^ 24 + b * 2 ^ 16) (c * 2 ^ 8) (omega arith) (omega arith),
      )
      (bit_or_aligned 8 (a * 2 ^ 24 + b * 2 ^ 16 + c * 2 ^ 8) d (omega arith) (omega arith))

-- Reversing the bytes of a uint32_t twice gives it back.
pub reverse_4-reverse_4 : (x : ℕ) → x < 2 ^ 32 → reverse_4 (reverse_4 x) ≡ x
reverse_4-reverse_4 x h = omega (arith, reverse_4_lem x, reverse_4_lem (reverse_4 x))
