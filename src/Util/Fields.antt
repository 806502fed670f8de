-- ===== src/Util/Fields.antt =====
-- The bit macros of util.h as arithmetic: a bit, a field, a set or a cleared bit.
use native.Mathlib.Nat.{one-le-pow, mod-lt, mod-eq_of_lt, pow-succ'}
use uga_prog.Base.{
  ℕ, zero, suc, ◌+◌, ◌-◌, ◌*◌, ◌/◌, ◌%◌, ◌^◌, ◌≤◌, ◌<◌, ◌≡◌, ◌∙◌, ap, refl, arith, bit_and, bit_or,
  not32, u32, ◌==◌, if◌then◌else◌,
}
use uga_prog.Base.Bits.{bit, bit-eq, bit_and_ones, bit-and, bit-or, bit-lt_two, bit-zero}
use uga_prog.Util.{get_bit, set_bit, clr_bit, get_bits}

-- `get_bit` is the bit of the binary digits.
pub get_bit-eq-bit : (x i : ℕ) → get_bit x i ≡ bit x i
unfolding get_bit
get_bit-eq-bit x i = omega (arith, bit_and_ones 1 (x / 2 ^ i), bit-eq x i)

pub get_bit_lem : (x i : ℕ) → get_bit x i ≡ x / 2 ^ i % 2
get_bit_lem x i = get_bit-eq-bit x i ∙ bit-eq x i

pub get_bit-lt_two : (x i : ℕ) → get_bit x i < 2
get_bit-lt_two x i = omega (arith, get_bit-eq-bit x i, bit-lt_two x i)

-- For h at least l, `get_bits x h l` is the number that the bits h down to l stand for.
pub get_bits_lem : (x h l : ℕ) → l ≤ h → get_bits x h l ≡ x / 2 ^ l % 2 ^ (h - l + 1)
unfolding get_bits
get_bits_lem x h l le = bit_and_ones (h - l + 1) (x / 2 ^ l)

pub pow-lt-pow_right : (i n : ℕ) → i < n → 2 ^ i < 2 ^ n
pow-lt-pow_right i zero h = absurd (omega arith)
pow-lt-pow_right zero (suc n) h = omega (arith, pow-succ' 2 n, one-le-pow n 2 (omega arith))
pow-lt-pow_right (suc i) (suc n) h =
    omega (arith, pow-succ' 2 n, pow-succ' 2 i, pow-lt-pow_right i n (omega arith))

pub get_bits-lt : (x h l : ℕ) → get_bits x h l < 2 ^ (h - l + 1)
unfolding get_bits
get_bits-lt x h l = rw bit_and_ones (mod-lt _ (one-le-pow (h - l + 1) 2 (omega arith)))

-- The bits of a power of two.
bit-pow : (i j : ℕ) → bit (2 ^ i) j ≡ (if i == j then 1 else 0)
unfolding bit
bit-pow zero zero = refl
bit-pow zero (suc j) = rw bit-zero (ground arith)
bit-pow (suc i) zero = ground (arith, pow-succ' 2 i)
bit-pow (suc i) (suc j) =
    let half : 2 ^ suc i / 2 ≡ 2 ^ i = omega (arith, pow-succ' 2 i) in
    ap (λ t. bit t j) half ∙ bit-pow i j ∙ ground arith

-- The bits of a complement of `n` bits.
pub bit-complement : (n y j : ℕ) → y < 2 ^ n → j < n → bit (2 ^ n - 1 - y) j ≡ 1 - bit y j
unfolding bit
bit-complement zero y j hy hj = absurd (omega arith)
bit-complement (suc n) y zero hy hj = omega (arith, pow-succ' 2 n)
bit-complement (suc n) y (suc j) hy hj =
    let half : (2 ^ suc n - 1 - y) / 2 ≡ 2 ^ n - 1 - y / 2 = omega (arith, pow-succ' 2 n) in
    ap (λ t. bit t j) half ∙ bit-complement n (y / 2) j (omega (arith, pow-succ' 2 n)) (omega arith)

-- `set_bit` sets its bit and leaves the other 31 as they are.
pub get_bit-set_bit :
    (x i j : ℕ) → i < 32 → get_bit (set_bit x i) j ≡ (if i == j then 1 else get_bit x j)
unfolding set_bit
get_bit-set_bit x i j hi =
    let small : 2 ^ i % 2 ^ 32 ≡ 2 ^ i = mod-eq_of_lt (pow-lt-pow_right i 32 hi) in
    let as_pow : bit (u32 (1 * 2 ^ i)) j ≡ (if i == j then 1 else 0) =
      ap (λ t. bit t j) (omega (arith, small)) ∙ bit-pow i j in
    ground (
      arith,
      get_bit-eq-bit (bit_or x (u32 (1 * 2 ^ i))) j,
      bit-or x (u32 (1 * 2 ^ i)) j,
      get_bit-eq-bit x j,
      bit-lt_two x j,
      as_pow,
    )

-- `clr_bit` clears its bit and leaves the other 31 as they are.
pub get_bit-clr_bit :
    (x i j : ℕ) → i < 32 → j < 32 → get_bit (clr_bit x i) j ≡ (if i == j then 0 else get_bit x j)
unfolding clr_bit
get_bit-clr_bit x i j hi hj =
    let below : 2 ^ i < 2 ^ 32 = pow-lt-pow_right i 32 hi in
    let small : not32 (1 * 2 ^ i) ≡ 2 ^ 32 - 1 - 2 ^ i = omega (arith, mod-eq_of_lt below) in
    let as_pow : bit (not32 (1 * 2 ^ i)) j ≡ 1 - (if i == j then 1 else 0) =
      ap (λ t. bit t j) small
      ∙ bit-complement 32 (2 ^ i) j below hj
      ∙ ap (λ (t : ℕ). 1 - t) (bit-pow i j) in
    ground (
      arith,
      get_bit-eq-bit (bit_and x (not32 (1 * 2 ^ i))) j,
      bit-and x (not32 (1 * 2 ^ i)) j,
      get_bit-eq-bit x j,
      bit-lt_two x j,
      as_pow,
    )

-- A cast to uint32_t keeps the 32 low bits.
pub get_bit-u32 : (x j : ℕ) → j < 32 → get_bit (u32 x) j ≡ get_bit x j
get_bit-u32 x j h =
    let ones : bit (2 ^ 32 - 1) j ≡ 1 =
      bit-complement 32 0 j (omega arith) h ∙ ap (λ (t : ℕ). 1 - t) (bit-zero j) in
    omega (
      arith,
      get_bit-eq-bit (u32 x) j,
      get_bit-eq-bit x j,
      ap (λ t. bit t j) (bit_and_ones 32 x),
      bit-and x (2 ^ 32 - 1) j,
      ones,
      bit-lt_two x j,
    )
