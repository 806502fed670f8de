-- ===== src/Base/Bits.antt =====
-- Bit by bit laws of `&`, `|` and `^`, which at variables the tactics take for unknowns.
use Prim.Native.Nat.{
  ℕ, zero, suc, ◌+◌, ◌-◌, ◌*◌, ◌/◌, ◌%◌, ◌^◌, ◌≤◌, ◌<◌, bit_and, bit_or, bit_xor, min, max, digits,
  bitwise, bit_and-bitwise, bit_or-bitwise, bit_xor-bitwise, differ,
}
use mathlib.Core.Path.{◌≡◌, refl, ap, ◌∙◌}
use native.Mathlib.Nat.{pow-succ', div-div-eq-div-mul, div-add-mod, one-le-pow}
use native.Mathlib.Omega.{arith}

-- The recursion behind the three operations takes fuel; any fuel that is not below `a` serves.
module _ (z : ℕ → ℕ) (f : ℕ → ℕ → ℕ) where
  enough_fuel : (m n a b : ℕ) → a ≤ m → a ≤ n → digits z f m a b ≡ digits z f n a b
  enough_fuel zero zero zero b hm hn = refl
  enough_fuel zero zero (suc a) b hm hn = refl
  enough_fuel zero (suc n) zero b hm hn = refl
  enough_fuel zero (suc n) (suc a) b hm hn = absurd (omega arith)
  enough_fuel (suc m) zero zero b hm hn = refl
  enough_fuel (suc m) zero (suc a) b hm hn = absurd (omega arith)
  enough_fuel (suc m) (suc n) zero b hm hn = refl
  enough_fuel (suc m) (suc n) (suc a) b hm hn =
      let half : ℕ = suc a / 2 in
      ap (λ t. t * 2 + f (suc a % 2) (b % 2))
        (enough_fuel m n half (b / 2) (omega arith) (omega arith))

  lowest_digit :
      (a b : ℕ)
      → bitwise z f (suc a) b ≡ bitwise z f (suc a / 2) (b / 2) * 2 + f (suc a % 2) (b % 2)
  lowest_digit a b =
      ap (λ t. t * 2 + f (suc a % 2) (b % 2))
        (enough_fuel a (suc a / 2) (suc a / 2) (b / 2) (omega arith) (omega arith))

pub bit_and_digit : (a b : ℕ) → bit_and a b ≡ bit_and (a / 2) (b / 2) * 2 + min (a % 2) (b % 2)
bit_and_digit zero b = omega (arith, bit_and-bitwise 0 b, bit_and-bitwise 0 (b / 2))
bit_and_digit (suc a) b = omega (
  arith,
  bit_and-bitwise (suc a) b,
  bit_and-bitwise (suc a / 2) (b / 2),
  lowest_digit (λ _. 0) min a b,
)

pub bit_or_digit : (a b : ℕ) → bit_or a b ≡ bit_or (a / 2) (b / 2) * 2 + max (a % 2) (b % 2)
bit_or_digit zero b = omega (arith, bit_or-bitwise 0 b, bit_or-bitwise 0 (b / 2))
bit_or_digit (suc a) b = omega (
  arith,
  bit_or-bitwise (suc a) b,
  bit_or-bitwise (suc a / 2) (b / 2),
  lowest_digit (λ y. y) max a b,
)

differ_of_bits : (x y : ℕ) → x < 2 → y < 2 → differ x y ≡ (x + y) % 2
differ_of_bits zero y hx hy = omega arith
differ_of_bits (suc zero) zero hx hy = refl
differ_of_bits (suc zero) (suc zero) hx hy = refl
differ_of_bits (suc zero) (suc (suc y)) hx hy = absurd (omega arith)
differ_of_bits (suc (suc x)) y hx hy = absurd (omega arith)

pub bit_xor_digit : (a b : ℕ) → bit_xor a b ≡ bit_xor (a / 2) (b / 2) * 2 + (a % 2 + b % 2) % 2
bit_xor_digit zero b = omega (arith, bit_xor-bitwise 0 b, bit_xor-bitwise 0 (b / 2))
bit_xor_digit (suc a) b = omega (
  arith,
  bit_xor-bitwise (suc a) b,
  bit_xor-bitwise (suc a / 2) (b / 2),
  lowest_digit (λ y. y) differ a b,
  differ_of_bits (suc a % 2) (b % 2),
)

-- Bit `k` of a number.
unfoldable pub bit : ℕ → ℕ → ℕ
bit x zero = x % 2
bit x (suc k) = bit (x / 2) k

pub bit-eq : (x k : ℕ) → bit x k ≡ x / 2 ^ k % 2
unfolding bit
bit-eq x zero = omega arith
bit-eq x (suc k) =
    omega (
      arith,
      bit-eq (x / 2) k,
      div-div-eq-div-mul x 2 (2 ^ k),
      ap (λ (t : ℕ). x / t) (pow-succ' 2 k),
    )

pub bit-lt_two : (x k : ℕ) → bit x k < 2
bit-lt_two x k = omega (arith, bit-eq x k)

pub bit-or : (a b k : ℕ) → bit (bit_or a b) k ≡ max (bit a k) (bit b k)
unfolding bit
bit-or a b zero = omega (arith, bit_or_digit a b)
bit-or a b (suc k) =
    let half : bit_or a b / 2 ≡ bit_or (a / 2) (b / 2) = omega (arith, bit_or_digit a b) in
    ap (λ t. bit t k) half ∙ bit-or (a / 2) (b / 2) k

pub bit-and : (a b k : ℕ) → bit (bit_and a b) k ≡ min (bit a k) (bit b k)
unfolding bit
bit-and a b zero = omega (arith, bit_and_digit a b)
bit-and a b (suc k) =
    let half : bit_and a b / 2 ≡ bit_and (a / 2) (b / 2) = omega (arith, bit_and_digit a b) in
    ap (λ t. bit t k) half ∙ bit-and (a / 2) (b / 2) k

pub bit-xor : (a b k : ℕ) → bit (bit_xor a b) k ≡ (bit a k + bit b k) % 2
unfolding bit
bit-xor a b zero = omega (arith, bit_xor_digit a b)
bit-xor a b (suc k) =
    let half : bit_xor a b / 2 ≡ bit_xor (a / 2) (b / 2) = omega (arith, bit_xor_digit a b) in
    ap (λ t. bit t k) half ∙ bit-xor (a / 2) (b / 2) k

-- A number is determined by its bits.
bits_ext_below : (n a b : ℕ) → a ≤ n → b ≤ n → ((k : ℕ) → bit a k ≡ bit b k) → a ≡ b
unfolding bit
bits_ext_below zero a b ha hb h = omega arith
bits_ext_below (suc n) a b ha hb h =
    let rest : a / 2 ≡ b / 2 =
      bits_ext_below n (a / 2) (b / 2) (omega arith) (omega arith) (λ k. h (suc k)) in
    let low : a % 2 ≡ b % 2 = h 0 in omega arith

pub bits_ext : (a b : ℕ) → ((k : ℕ) → bit a k ≡ bit b k) → a ≡ b
bits_ext a b h = bits_ext_below (max a b) a b (omega arith) (omega arith) h

pub bit_or_comm : (a b : ℕ) → bit_or a b ≡ bit_or b a
bit_or_comm a b = bits_ext _ _ λ k. omega (arith, bit-or a b k, bit-or b a k)

pub bit_xor_cancel : (a b : ℕ) → bit_xor (bit_xor a b) b ≡ a
bit_xor_cancel a b =
    bits_ext _ _ λ k. omega (arith, bit-xor (bit_xor a b) b k, bit-xor a b k, bit-lt_two a k)

pub bit-zero : (k : ℕ) → bit 0 k ≡ 0
unfolding bit
bit-zero zero = refl
bit-zero (suc k) = bit-zero k

pub bit_or-zero : (a : ℕ) → bit_or a 0 ≡ a
bit_or-zero a = bits_ext _ _ λ k. omega (arith, bit-or a 0 k, bit-zero k)

pub bit_and-zero : (a : ℕ) → bit_and a 0 ≡ 0
bit_and-zero a = bits_ext _ _ λ k. omega (arith, bit-and a 0 k, bit-zero k)

-- `x & (2^k - 1)` keeps the low `k` bits.
pub bit_and_ones : (k x : ℕ) → bit_and x (2 ^ k - 1) ≡ x % 2 ^ k
bit_and_ones zero x = bit_and-zero x ∙ omega arith
bit_and_ones (suc k) x = omega (
  arith,
  bit_and_digit x (2 ^ suc k - 1),
  bit_and_ones k (x / 2),
  ap (λ (t : ℕ). bit_and (x / 2) t) (ones_half k),
  pow-succ' 2 k,
  one-le-pow k 2 (omega arith),
  low_of_double x k,
)
  where
    ones_half : (k : ℕ) → (2 ^ suc k - 1) / 2 ≡ 2 ^ k - 1
    ones_half k = omega (arith, pow-succ' 2 k, one-le-pow k 2 (omega arith))

    low_of_double : (x k : ℕ) → x % 2 ^ suc k ≡ x / 2 % 2 ^ k * 2 + x % 2
    low_of_double x k = omega (
      arith,
      div-add-mod x (2 ^ suc k),
      div-add-mod (x / 2) (2 ^ k),
      ap (λ (t : ℕ). t * (x / t)) (pow-succ' 2 k),
      ap (λ (t : ℕ). 2 * 2 ^ k * t) (div-div-eq-div-mul x 2 (2 ^ k)),
    )

-- `(q << k) | r` is a sum where `r` has `k` bits.
pub bit_or_disjoint : (k q r : ℕ) → r < 2 ^ k → bit_or (q * 2 ^ k) r ≡ q * 2 ^ k + r
bit_or_disjoint zero q r h = let e : r ≡ 0 = omega arith in rw e (bit_or-zero (q * 1) ∙ omega arith)
bit_or_disjoint (suc k) q r h =
    let double : q * 2 ^ suc k ≡ 2 * (q * 2 ^ k) =
      omega (arith, ap (λ (t : ℕ). q * t) (pow-succ' 2 k)) in
    let halved : q * 2 ^ suc k / 2 ≡ q * 2 ^ k = omega arith in
    omega (
      arith,
      bit_or_digit (q * 2 ^ suc k) r,
      ap (λ (t : ℕ). bit_or t (r / 2)) halved,
      bit_or_disjoint k q (r / 2) (omega (arith, pow-succ' 2 k)),
    )

-- `a | r` where `a` has no bit below `k` and `r` none from `k` up.
pub bit_or_aligned : (k a r : ℕ) → a % 2 ^ k ≡ 0 → r < 2 ^ k → bit_or a r ≡ a + r
bit_or_aligned k a r aligned small =
    let whole : a ≡ a / 2 ^ k * 2 ^ k = omega (arith, div-add-mod a (2 ^ k)) in
    ap (λ t. bit_or t r) whole
    ∙ bit_or_disjoint k (a / 2 ^ k) r small
    ∙ omega (arith, div-add-mod a (2 ^ k))

pub bit-lt_pow : (n i x : ℕ) → x < 2 ^ n → n ≤ i → bit x i ≡ 0
unfolding bit
bit-lt_pow zero i x h le = let e : x ≡ 0 = omega arith in rw e (bit-zero i)
bit-lt_pow (suc n) zero x h le = absurd (omega arith)
bit-lt_pow (suc n) (suc i) x h le =
    bit-lt_pow n i (x / 2) (omega (arith, pow-succ' 2 n)) (omega arith)
