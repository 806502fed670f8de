-- ===== src/Util/Set.antt =====
-- `set_bits` of util.h: a field of a word replaced.
use uga_prog.Base.{
  ℕ, ◌+◌, ◌-◌, ◌*◌, ◌^◌, ◌≤◌, ◌<◌, ◌≡◌, ◌∙◌, ap, sym, arith, bit_and, bit_or, ◌||◌, u32, ltb, leb,
  Bool-cases, inl, inr, if◌then◌else◌,
}
use uga_prog.Base.Bits.{bit, bit-and, bit-or, bit-lt_two, bit-lt_pow}
use uga_prog.Util.{get_bit, set_bits}
use uga_prog.Util.Fields.{get_bit-eq-bit, get_bit-u32}
use uga_prog.Util.Shifts.{bit-mul_low, bit-mul_high, bit-ones, sign_ones}

-- A mask of ones from bit n up.
high_ones :
    (n j : ℕ) → 0 < n → n < 32 → j < 32 → bit (2 ^ 32 - 2 ^ n) j ≡ (if ltb j n then 0 else 1)
high_ones n j h0 h32 hj =
    let back : 32 - (32 - n) ≡ n = omega arith in
    ap (λ (t : ℕ). bit (2 ^ 32 - 2 ^ t) j) (sym back)
    ∙ sign_ones (32 - n) j (omega arith) (omega arith) hj
    ∙ ap (λ (t : ℕ). if ltb j t then 0 else 1) back

-- The field in its place.
placed_bit :
    (v l n j : ℕ)
    → v < 2 ^ n
    → j < 32
    → bit (u32 (v * 2 ^ l)) j ≡ (if ltb j l || leb (l + n) j then 0 else bit v (j - l))
placed_bit v l n j hv hj =
    let kept : bit (u32 (v * 2 ^ l)) j ≡ bit (v * 2 ^ l) j =
      sym (get_bit-eq-bit _ j) ∙ get_bit-u32 (v * 2 ^ l) j hj ∙ get_bit-eq-bit _ j in
    kept ∙ elim (Bool-cases (ltb j l)) [
      | inl low ↦ rw low (bit-mul_low l j v (ground arith))
      | inr high ↦ rw high (above (ground arith))
    ]
  where
    above : l ≤ j → bit (v * 2 ^ l) j ≡ (if leb (l + n) j then 0 else bit v (j - l))
    above le =
        let moved = bit-mul_high l (j - l) j v (omega arith) in
        elim (Bool-cases (leb (l + n) j)) [
          | inl past ↦ rw past (moved ∙ bit-lt_pow n (j - l) v hv (ground arith))
          | inr inside ↦ rw inside moved
        ]

-- For a field below bit 31 and a value that fits it: the bits of the field are those of the value, and
-- the others of the 32 are those of the word.
pub get_bit-set_bits :
    (x h l v j : ℕ)
    → l ≤ h
    → h < 31
    → v < 2 ^ (h - l + 1)
    → j < 32
    → get_bit (set_bits x h l v) j ≡ (if ltb j l || ltb h j then get_bit x j else get_bit v (j - l))
unfolding set_bits
get_bit-set_bits x h l v j le h31 fits hj =
    let low = bit_and x (2 ^ l - 1) in
    let high = bit_and x (2 ^ 32 - 2 ^ (h + 1)) in
    let field = u32 (v * 2 ^ l) in
    ground (
      arith,
      get_bit-eq-bit (bit_or (bit_or low high) field) j,
      bit-or (bit_or low high) field j,
      bit-or low high j,
      bit-and x (2 ^ l - 1) j,
      bit-and x (2 ^ 32 - 2 ^ (h + 1)) j,
      bit-ones l j,
      high_ones (h + 1) j (omega arith) (omega arith) hj,
      placed_bit v l (h - l + 1) j fits hj,
      bit-lt_two x j,
      bit-lt_two v (j - l),
      get_bit-eq-bit x j,
      get_bit-eq-bit v (j - l),
    )
