-- ===== src/Text/Hex.antt =====
-- A byte printed by "%02x" and scanned by "%2x" or "%x".
use uga_prog.Base.{
  ℕ, ◌+◌, ◌*◌, ◌/◌, ◌%◌, ◌<◌, ◌≡◌, ◌∙◌, ap, refl, arith, false, ◌&&◌, List, [], ◌∷◌, ◌++◌, some,
  leb, ◌==◌,
}
use uga_prog.Text.{
  hex_digit, print_byte, digit_value, take_digits, number_of, scan_unsigned, scan_prefixed,
  skip_space, signed_hex, scan_hex, scan_x, is_space, is_x,
}

pub digit_value-hex_digit : (n : ℕ) → n < 16 → digit_value 16 (hex_digit n) ≡ some n
unfolding digit_value hex_digit
digit_value-hex_digit n h = ground arith

pub hex_digit-plain :
    (n : ℕ)
    → n < 16
    → (is_space (hex_digit n) ≡ false)
      × ((hex_digit n == b'-') ≡ false)
      × ((hex_digit n == b'+') ≡ false)
      × (is_x (hex_digit n) ≡ false)
unfolding hex_digit
hex_digit-plain n h = (ground arith, ground arith, ground arith, ground arith)

-- Two digits taken with a width of two, and with any larger one where nothing follows.
take_two :
    (a b : ℕ) (s : List ℕ)
    → a < 16
    → b < 16
    → take_digits 16 2 (hex_digit a ∷ hex_digit b ∷ s) ≡ (a ∷ b ∷ [], s)
unfolding take_digits
take_two a b s ha hb = rw (digit_value-hex_digit a ha, digit_value-hex_digit b hb, take_digits) refl

prefixed_plain :
    (width a b : ℕ) (s : List ℕ)
    → is_x b ≡ false
    → scan_prefixed width (a ∷ b ∷ s) ≡ scan_unsigned 16 width (a ∷ b ∷ s)
unfolding scan_prefixed
prefixed_plain width a b s h =
    let off : (leb 2 width && ((a == b'0') && is_x b)) ≡ false = ground arith in rw off refl

-- A text that starts with two digits has no space, sign or prefix to skip.
scan_two :
    (a b width : ℕ) (s : List ℕ)
    → a < 16
    → b < 16
    → take_digits 16 width (hex_digit a ∷ hex_digit b ∷ s) ≡ (a ∷ b ∷ [], s)
    → scan_hex width (hex_digit a ∷ hex_digit b ∷ s) ≡ some (a * 16 + b, s)
unfolding scan_hex skip_space signed_hex scan_unsigned number_of
scan_two a b width s ha hb taken =
    let (space, minus, plus, x) = hex_digit-plain a ha in
    let (space', minus', plus', x') = hex_digit-plain b hb in
    rw (space, minus, plus, prefixed_plain width (hex_digit a) (hex_digit b) s x', taken)
      (ap (λ (n : ℕ). some (n, s)) (omega arith))

-- A printed byte is scanned as the byte, whatever follows.
pub scan_hex-print_byte :
    (v : ℕ) (s : List ℕ) → v < 256 → scan_hex 2 (print_byte v ++ s) ≡ some (v, s)
unfolding print_byte
scan_hex-print_byte v s h =
    scan_two (v / 16) (v % 16) 2 s (omega arith) (omega arith)
      (take_two (v / 16) (v % 16) s (omega arith) (omega arith))
    ∙ ap (λ (n : ℕ). some (n, s)) (omega arith)

-- So does "%x" at the end of a text.
pub scan_x-print_byte : (v : ℕ) → v < 256 → scan_x (print_byte v) ≡ some (v, [])
unfolding print_byte scan_x
scan_x-print_byte v h =
    scan_two (v / 16) (v % 16) 2 [] (omega arith) (omega arith)
      (take_two (v / 16) (v % 16) [] (omega arith) (omega arith))
    ∙ ap (λ (n : ℕ). some (n, [])) (omega arith)
