-- ===== src/Util/Shifts.antt =====
-- `asr` and `ror` of util.c, bit by bit.
use native.Mathlib.Nat.{pow-succ', one-le-pow, div-div-eq-div-mul}
use uga_prog.Base.{
  ℕ, zero, suc, ◌+◌, ◌-◌, ◌*◌, ◌/◌, ◌%◌, ◌^◌, ◌<◌, ◌≡◌, ◌∙◌, sym, ap, min, max, arith, Bool-cases,
  inl, inr, bit_or, u32, ltb, ◌==◌, if◌then◌else◌,
}
use uga_prog.Base.Bits.{bit, bit-or, bit-lt_two, bit-lt_pow, bit-zero}
use uga_prog.Base.Outcome.{ok}
use uga_prog.Util.{get_bit, asr_sign, asr, ror}
use uga_prog.Util.Fields.{get_bit-eq-bit, get_bit-u32, bit-complement, pow-lt-pow_right}

bit-div : (k j x : ℕ) → bit (x / 2 ^ k) j ≡ bit x (k + j)
unfolding bit
bit-div zero j x =
    let e : x / 2 ^ 0 ≡ x = omega arith in
    let f : 0 + j ≡ j = omega arith in ap (λ t. bit t j) e ∙ ap (bit x) (sym f)
bit-div (suc k) j x =
    let e : x / 2 ^ suc k ≡ x / 2 / 2 ^ k =
      ap (λ (t : ℕ). x / t) (pow-succ' 2 k ∙ omega arith) ∙ sym (div-div-eq-div-mul x 2 (2 ^ k)) in
    let f : suc k + j ≡ suc (k + j) = omega arith in
    ap (λ t. bit t j) e ∙ bit-div k j (x / 2) ∙ sym (ap (bit x) f)

double_half : (k x : ℕ) → x * 2 ^ suc k / 2 ≡ x * 2 ^ k
double_half k x = omega (arith, ap (λ (t : ℕ). x * t) (pow-succ' 2 k))

pub bit-mul_low : (k j x : ℕ) → j < k → bit (x * 2 ^ k) j ≡ 0
unfolding bit
bit-mul_low zero j x h = absurd (omega arith)
bit-mul_low (suc k) zero x h = omega (arith, ap (λ (t : ℕ). x * t) (pow-succ' 2 k))
bit-mul_low (suc k) (suc j) x h =
    ap (λ t. bit t j) (double_half k x) ∙ bit-mul_low k j x (omega arith)

pub bit-mul_high : (k j i x : ℕ) → i ≡ k + j → bit (x * 2 ^ k) i ≡ bit x j
unfolding bit
bit-mul_high zero j i x h =
    let e : x * 2 ^ 0 ≡ x = omega arith in
    let f : i ≡ j = omega arith in ap (λ t. bit t i) e ∙ ap (bit x) f
bit-mul_high (suc k) j zero x h = absurd (omega arith)
bit-mul_high (suc k) j (suc i) x h =
    ap (λ t. bit t i) (double_half k x) ∙ bit-mul_high k j i x (omega arith)

pub bit-ones : (k j : ℕ) → bit (2 ^ k - 1) j ≡ (if ltb j k then 1 else 0)
unfolding bit
bit-ones zero j = bit-zero j ∙ ground arith
bit-ones (suc k) zero = ground (arith, pow-succ' 2 k, one-le-pow k 2 (omega arith))
bit-ones (suc k) (suc j) =
    let e : (2 ^ suc k - 1) / 2 ≡ 2 ^ k - 1 = omega (arith, pow-succ' 2 k) in
    ap (λ t. bit t j) e ∙ bit-ones k j ∙ ground arith

-- A bit of the two parts joined.
joined_bit : (a b j : ℕ) → get_bit (bit_or a b) j ≡ max (bit a j) (bit b j)
joined_bit a b j = get_bit-eq-bit (bit_or a b) j ∙ bit-or a b j

rotated_bit :
    (v r j : ℕ)
    → v < 2 ^ 32
    → 0 < r
    → r < 32
    → j < 32
    → max (bit v (r + j)) (bit (u32 (v * 2 ^ (32 - r))) j) ≡ bit v ((j + r) % 32)
rotated_bit v r j hv h0 h32 hj =
    let kept : bit (u32 (v * 2 ^ (32 - r))) j ≡ bit (v * 2 ^ (32 - r)) j =
      sym (get_bit-eq-bit _ j) ∙ get_bit-u32 (v * 2 ^ (32 - r)) j hj ∙ get_bit-eq-bit _ j in
    elim (Bool-cases (ltb j (32 - r))) [
      | inl low ↦
          let same : (j + r) % 32 ≡ r + j = ground arith in
          omega (arith, kept, bit-mul_low (32 - r) j v (ground arith), ap (bit v) same)
      | inr high ↦
          let same : (j + r) % 32 ≡ j + r - 32 = ground arith in
          omega (
            arith,
            kept,
            bit-lt_pow 32 (r + j) v hv (ground arith),
            bit-mul_high (32 - r) (j + r - 32) j v (ground arith),
            ap (bit v) same,
          )
    ]

-- For a rotation by 1 to 31, `ror` gives the word whose bit j is bit j + rotation of the value,
-- around the 32 bits.
pub ror_bits :
    (value rotation j : ℕ)
    → value < 2 ^ 32
    → 0 < rotation
    → rotation < 32
    → j < 32
    → (w : ℕ) × (ror value rotation ≡ ok w) × (get_bit w j ≡ get_bit value ((j + rotation) % 32))
unfolding ror
ror_bits v r j hv h0 h32 hj = (
  bit_or (v / 2 ^ r) (u32 (v * 2 ^ (32 - r))),
  ground arith,
  joined_bit (v / 2 ^ r) (u32 (v * 2 ^ (32 - r))) j
      ∙ ap (λ t. max t (bit (u32 (v * 2 ^ (32 - r))) j)) (bit-div r j v)
      ∙ rotated_bit v r j hv h0 h32 hj
      ∙ sym (get_bit-eq-bit v _),
)

-- The ones that a negative value is filled up with.
pub sign_ones :
    (s j : ℕ)
    → 0 < s
    → s < 32
    → j < 32
    → bit (2 ^ 32 - 2 ^ (32 - s)) j ≡ (if ltb j (32 - s) then 0 else 1)
sign_ones s j h0 h32 hj =
    let fits : 2 ^ (32 - s) - 1 < 2 ^ 32 =
      omega (arith, pow-lt-pow_right (32 - s) 32 (omega arith)) in
    let as_not : 2 ^ 32 - 2 ^ (32 - s) ≡ 2 ^ 32 - 1 - (2 ^ (32 - s) - 1) =
      omega (arith, one-le-pow (32 - s) 2 (omega arith)) in
    ap (λ t. bit t j) as_not
    ∙ bit-complement 32 (2 ^ (32 - s) - 1) j fits hj
    ∙ ap (λ (t : ℕ). 1 - t) (bit-ones (32 - s) j)
    ∙ ground arith

-- What a shifted value and its filling give at a bit, the filling known there.
filled_bit :
    (v s j fill : ℕ)
    → v < 2 ^ 32
    → s < 32
    → j < 32
    → bit fill j ≡ (if ltb j (32 - s) then 0 else bit v 31)
    → max (bit v (s + j)) (bit fill j) ≡ bit v (min (j + s) 31)
filled_bit v s j fill hv h32 hj e = elim (Bool-cases (ltb j (32 - s))) [
  | inl low ↦ let same : min (j + s) 31 ≡ s + j = ground arith in ground (arith, e, ap (bit v) same)
  | inr high ↦
      let same : min (j + s) 31 ≡ 31 = ground arith in
      ground (arith, e, ap (bit v) same, bit-lt_pow 32 (s + j) v hv (ground arith))
]

shifted_bit :
    (v s j : ℕ)
    → v < 2 ^ 32
    → 0 < s
    → s < 32
    → j < 32
    → max (bit v (s + j)) (bit (if bit v 31 == 0 then 0 else 2 ^ 32 - 2 ^ (32 - s)) j)
      ≡ bit v (min (j + s) 31)
shifted_bit v s j hv h0 h32 hj = elim (Bool-cases (bit v 31 == 0)) [
  | inl clear ↦ rw clear (filled_bit v s j 0 hv h32 hj (bit-zero j ∙ ground arith))
  | inr set ↦ rw set (
      filled_bit v s j (2 ^ 32 - 2 ^ (32 - s)) hv h32 hj
        (sign_ones s j h0 h32 hj ∙ ground (arith, bit-lt_two v 31)))
]

-- For a shift by 1 to 31, `asr` gives the word whose bit j is bit j + shift of the value, or its
-- sign bit where there is none.
pub asr_bits :
    (value shift j : ℕ)
    → value < 2 ^ 32
    → 0 < shift
    → shift < 32
    → j < 32
    → (w : ℕ) × (asr value shift ≡ ok w) × (get_bit w j ≡ get_bit value (min (j + shift) 31))
unfolding asr asr_sign
asr_bits v s j hv h0 h32 hj = (
  bit_or (v / 2 ^ s) (if get_bit v 31 == 0 then 0 else 2 ^ 32 - 2 ^ (32 - s)),
  ground arith,
  joined_bit (v / 2 ^ s) _ j
      ∙ ap (λ t. max t (bit (if get_bit v 31 == 0 then 0 else 2 ^ 32 - 2 ^ (32 - s)) j))
          (bit-div s j v)
      ∙ ap (λ t. max (bit v (s + j)) (bit (if t == 0 then 0 else 2 ^ 32 - 2 ^ (32 - s)) j))
          (get_bit-eq-bit v 31)
      ∙ shifted_bit v s j hv h0 h32 hj
      ∙ sym (get_bit-eq-bit v _),
)
