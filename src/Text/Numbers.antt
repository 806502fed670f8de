-- ===== src/Text/Numbers.antt =====
-- A number of hexadecimal digits scanned by "%x", whatever its length.
use uga_prog.Base.{
  ℕ, zero, suc, ◌^◌, ◌≤◌, ◌<◌, ◌≡◌, ap, refl, arith, false, ◌&&◌, List, [], ◌∷◌, ◌++◌, none, some,
  u32, leb, ◌==◌, length, All,
}
use uga_prog.Text.{
  hex_digit, digit_value, take_digits, number_of, scan_unsigned, scan_prefixed, skip_space,
  signed_hex, scan_hex, scan_x, is_x,
}
use uga_prog.Text.Hex.{digit_value-hex_digit, hex_digit-plain}

-- The text of some digits.
abbrev pub hex_text : List ℕ → List ℕ
hex_text [] = []
hex_text (d ∷ ds) = hex_digit d ∷ hex_text ds

abbrev pub AreDigits : List ℕ → Type 0
AreDigits ds = All (λ d. d < 16) ds

-- A byte that ends a number: no digit, and no `x`.
abbrev pub IsEnd : ℕ → Type 0
IsEnd c = (digit_value 16 c ≡ none) × (is_x c ≡ false)

take_digits-hex_text :
    (width : ℕ) (ds : List ℕ) (c : ℕ) (s : List ℕ)
    → AreDigits ds
    → IsEnd c
    → length ds ≤ width
    → take_digits 16 width (hex_text ds ++ c ∷ s) ≡ (ds, c ∷ s)
unfolding take_digits
take_digits-hex_text zero [] c s h e enough = refl
take_digits-hex_text (suc width) [] c s h (e, x) enough = rw (e, take_digits) refl
take_digits-hex_text zero (d ∷ ds) c s h e enough = absurd (omega arith)
take_digits-hex_text (suc width) (d ∷ ds) c s (lt, h) e enough =
    rw
      (digit_value-hex_digit d lt, take_digits-hex_text width ds c s h e (omega arith), take_digits)
      refl

-- The second byte of a number, or the one that ends it, is no `x`.
prefixed_digits :
    (width d : ℕ) (ds : List ℕ) (c : ℕ) (s : List ℕ)
    → AreDigits ds
    → IsEnd c
    → scan_prefixed width (hex_text (d ∷ ds) ++ c ∷ s)
      ≡ scan_unsigned 16 width (hex_text (d ∷ ds) ++ c ∷ s)
unfolding scan_prefixed
prefixed_digits width d [] c s h (e, x) =
    let off : (leb 2 width && ((hex_digit d == b'0') && is_x c)) ≡ false = ground arith in
    rw off refl
prefixed_digits width d (d' ∷ ds) c s (lt, h) e =
    let (_, _, _, x) = hex_digit-plain d' lt in
    let off : (leb 2 width && ((hex_digit d == b'0') && is_x (hex_digit d'))) ≡ false =
      ground arith in
    rw off refl

length-hex_text : (ds : List ℕ) (s : List ℕ) → length ds ≤ length (hex_text ds ++ s)
length-hex_text [] s = omega arith
length-hex_text (d ∷ ds) s = omega (arith, length-hex_text ds s)

-- A number, and what follows it.
pub scan_x-hex_text :
    (d : ℕ) (ds : List ℕ) (c : ℕ) (s : List ℕ)
    → AreDigits (d ∷ ds)
    → IsEnd c
    → number_of 16 0 (d ∷ ds) < 2 ^ 32
    → scan_x (hex_text (d ∷ ds) ++ c ∷ s) ≡ some (number_of 16 0 (d ∷ ds), c ∷ s)
unfolding scan_x scan_hex skip_space signed_hex scan_unsigned
scan_x-hex_text d ds c s (lt, h) e small =
    let (space, minus, plus, x) = hex_digit-plain d lt in
    let width = length (hex_text (d ∷ ds) ++ c ∷ s) in
    let taken =
      take_digits-hex_text width (d ∷ ds) c s (lt, h) e (length-hex_text (d ∷ ds) (c ∷ s)) in
    let cut : u32 (number_of 16 0 (d ∷ ds)) ≡ number_of 16 0 (d ∷ ds) = omega arith in
    rw (space, minus, plus, prefixed_digits width d ds c s h e, taken)
      (ap (λ (n : ℕ). some (n, c ∷ s)) cut)
