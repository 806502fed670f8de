-- ===== src/Text.antt =====
-- Strings of C as lists of bytes, and what gdb_protocol.c uses of the library of C: "%02x" of
-- sprintf, "%x" of sscanf, atoi, index, strcmp. Text ends at the first 0 or at the end of the list.
pub mod Hex
pub mod Numbers
use Prim.Native.Char.{code}
use Prim.Native.String.{String}
use uga_prog.Base.{
  ℕ, zero, suc, ◌+◌, ◌-◌, ◌*◌, ◌/◌, ◌%◌, ◌^◌, Bool, true, false, ◌&&◌, ◌||◌, List, [], ◌∷◌, Option,
  none, some, u32, ltb, leb, ◌==◌, if◌then◌else◌, length,
}

abbrev pub codes : String → List ℕ
codes String.[] = []
codes (String.◌∷◌ c s) = code c ∷ codes s

-- What is before the first 0.
unfoldable pub c_string : List ℕ → List ℕ
c_string [] = []
c_string (c ∷ s) = let rest = c_string s in if c == 0 then [] else c ∷ rest

unfoldable pub same_text : List ℕ → List ℕ → Bool
same_text [] [] = true
same_text (a ∷ s) (b ∷ t) = (a == b) && same_text s t
same_text _ _ = false

-- The first `n` bytes of `s` are those of the text.
unfoldable pub has_prefix : List ℕ → List ℕ → Bool
has_prefix [] s = true
has_prefix (a ∷ t) [] = false
has_prefix (a ∷ t) (b ∷ s) = (a == b) && has_prefix t s

-- What follows the first `c` of a text; `none` is the null pointer.
unfoldable pub after_char : ℕ → List ℕ → Option (List ℕ)
after_char c [] = none
after_char c (d ∷ s) =
    let rest = after_char c s in if d == c then some s else if d == 0 then none else rest

unfoldable pub hex_digit : ℕ → ℕ
hex_digit n = if ltb n 10 then b'0' + n else b'a' + (n - 10)

-- "%02x" of a byte.
unfoldable pub print_byte : ℕ → List ℕ
unfolding hex_digit
print_byte v = hex_digit (v / 16) ∷ hex_digit (v % 16) ∷ []

unfoldable pub digit_value : ℕ → ℕ → Option ℕ
digit_value base c =
    if leb b'0' c && leb c b'9'
    then some (c - b'0')
    else if (base == 16) && (leb b'a' c && leb c b'f')
    then some (c - b'a' + 10)
    else if (base == 16) && (leb b'A' c && leb c b'F')
    then some (c - b'A' + 10)
    else none

-- The digits at the front, of `width` bytes at most, and what follows them.
unfoldable pub take_digits : ℕ → ℕ → List ℕ → List ℕ × List ℕ
take_digits base zero s = ([], s)
take_digits base (suc width) [] = ([], [])
take_digits base (suc width) (c ∷ s) = elim (digit_value base c) [
  | none ↦ ([], c ∷ s)
  | some d ↦ let r = take_digits base width s in (d ∷ r.0, r.1)
]

unfoldable pub number_of : ℕ → ℕ → List ℕ → ℕ
number_of base v [] = v
number_of base v (d ∷ ds) = number_of base (v * base + d) ds

-- A number without sign, and what follows it; `none` where no digit is.
abbrev pub counted : ℕ → List ℕ × List ℕ → Option (ℕ × List ℕ)
counted base ([], s) = none
counted base (d ∷ ds, s) = some (number_of base 0 (d ∷ ds), s)

unfoldable pub scan_unsigned : ℕ → ℕ → List ℕ → Option (ℕ × List ℕ)
unfolding number_of
scan_unsigned base width s = counted base (take_digits base width s)

abbrev pub is_x : ℕ → Bool
is_x c = (c == b'x') || (c == b'X')

-- Base 16 allows 0x before the digits.
unfoldable pub scan_prefixed : ℕ → List ℕ → Option (ℕ × List ℕ)
scan_prefixed width (z ∷ x ∷ s) =
    if leb 2 width && ((z == b'0') && is_x x)
    then scan_unsigned 16 (width - 2) s
    else scan_unsigned 16 width (z ∷ x ∷ s)
scan_prefixed width s = scan_unsigned 16 width s

abbrev pub is_space : ℕ → Bool
is_space c = (c == 32) || (leb 9 c && leb c 13)

unfoldable pub skip_space : List ℕ → List ℕ
skip_space [] = []
skip_space (c ∷ s) = let rest = skip_space s in if is_space c then rest else c ∷ s

-- The negation of an unsigned int.
abbrev pub negated : Option (ℕ × List ℕ) → Option (ℕ × List ℕ)
negated none = none
negated (some (v, s)) = some ((2 ^ 32 - u32 v) % 2 ^ 32, s)

abbrev pub as_u32 : Option (ℕ × List ℕ) → Option (ℕ × List ℕ)
as_u32 none = none
as_u32 (some (v, s)) = some (u32 v, s)

unfoldable pub signed_hex : ℕ → List ℕ → Option (ℕ × List ℕ)
signed_hex width [] = none
signed_hex width (c ∷ s) =
    if c == b'-'
    then negated (scan_prefixed (width - 1) s)
    else if c == b'+'
    then as_u32 (scan_prefixed (width - 1) s)
    else as_u32 (scan_prefixed width (c ∷ s))

-- "%x" with a width, from a text: the unsigned int and what follows it.
unfoldable pub scan_hex : ℕ → List ℕ → Option (ℕ × List ℕ)
scan_hex width s = signed_hex width (skip_space s)

-- "%x" with no width.
unfoldable pub scan_x : List ℕ → Option (ℕ × List ℕ)
scan_x s = scan_hex (length s) s

abbrev pub or_zero : Option (ℕ × List ℕ) → ℕ
or_zero none = 0
or_zero (some (v, s)) = v

unfoldable pub signed_decimal : List ℕ → ℕ
unfolding scan_unsigned
signed_decimal [] = 0
signed_decimal (c ∷ s) =
    if c == b'-'
    then or_zero (negated (scan_unsigned 10 (length s) s))
    else if c == b'+'
    then u32 (or_zero (scan_unsigned 10 (length s) s))
    else u32 (or_zero (scan_unsigned 10 (suc (length s)) (c ∷ s)))

-- The int as its bit pattern.
unfoldable pub atoi : List ℕ → ℕ
unfolding skip_space signed_decimal
atoi s = signed_decimal (skip_space s)
