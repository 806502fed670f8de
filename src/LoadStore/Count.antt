-- ===== src/LoadStore/Count.antt =====
-- `number_of_set_bits_in` over a list of sixteen registers.
use uga_prog.Base.{ℕ, zero, suc, ◌+◌, ◌^◌, ◌≤◌, ◌<◌, ◌≡◌, refl, ◌∙◌, arith, Bool-cases, inl, inr}
use uga_prog.Base.Bits.{bit-lt_pow}
use uga_prog.Util.{get_bit}
use uga_prog.Util.Fields.{get_bit-lt_two, get_bit-eq-bit}
use uga_prog.Condition.{nonzero}
use uga_prog.LoadStore.Multiple.{count_loop, number_of_set_bits_in}

-- The loop of `number_of_set_bits_in` adds to what it starts from.
pub count_loop-add :
    (left i field nb : ℕ) → count_loop left i field nb ≡ nb + count_loop left i field 0
unfolding count_loop
count_loop-add zero i field nb = omega arith
count_loop-add (suc left) i field nb = elim (Bool-cases (nonzero (get_bit field i))) [
  | inl set ↦ rw set (
      omega (
        arith,
        count_loop-add left (i + 1) field (nb + 1),
        count_loop-add left (i + 1) field (0 + 1),
      ))
  | inr clear ↦ rw clear (count_loop-add left (i + 1) field nb)
]

pub count_loop-le : (left i field : ℕ) → count_loop left i field 0 ≤ left
unfolding count_loop
count_loop-le zero i field = omega arith
count_loop-le (suc left) i field = elim (Bool-cases (nonzero (get_bit field i))) [
  | inl set ↦
      rw set
        (omega (arith, count_loop-add left (i + 1) field (0 + 1), count_loop-le left (i + 1) field))
  | inr clear ↦ rw clear (omega (arith, count_loop-le left (i + 1) field))
]

count_loop-split :
    (m n k i j field : ℕ)
    → n ≡ m + k
    → j ≡ i + m
    → count_loop n i field 0 ≡ count_loop m i field 0 + count_loop k j field 0
unfolding count_loop
count_loop-split zero n k i j field e f =
    let same : n ≡ k = omega arith in
    let here : j ≡ i = omega arith in rw (same, here) (omega arith)
count_loop-split (suc m) zero k i j field e f = absurd (omega arith)
count_loop-split (suc m) (suc n) k i j field e f =
    let rest = count_loop-split m n k (i + 1) j field (omega arith) (omega arith) in
    elim (Bool-cases (nonzero (get_bit field i))) [
      | inl set ↦ rw set (
          omega (
            arith,
            rest,
            count_loop-add n (i + 1) field (0 + 1),
            count_loop-add m (i + 1) field (0 + 1),
          ))
      | inr clear ↦ rw clear rest
    ]

-- A field of sixteen bits has no bit from 16 on.
count_loop-beyond : (left i field : ℕ) → field < 2 ^ 16 → 16 ≤ i → count_loop left i field 0 ≡ 0
unfolding count_loop
count_loop-beyond zero i field h hi = refl
count_loop-beyond (suc left) i field h hi =
    let zero_bit : get_bit field i ≡ 0 = get_bit-eq-bit field i ∙ bit-lt_pow 16 i field h hi in
    rw zero_bit (count_loop-beyond left (i + 1) field h (omega arith))

last_round : (field : ℕ) → count_loop 1 15 field 0 ≡ get_bit field 15
unfolding count_loop
last_round field = ground (arith, get_bit-lt_two field 15)

pub count_lem :
    (field : ℕ)
    → field < 2 ^ 16
    → number_of_set_bits_in field ≡ count_loop 15 0 field 0 + get_bit field 15
unfolding number_of_set_bits_in
count_lem field h = omega (
  arith,
  count_loop-split 15 31 16 0 15 field refl refl,
  count_loop-split 1 16 15 15 16 field refl refl,
  count_loop-beyond 15 16 field h (omega arith),
  last_round field,
)
