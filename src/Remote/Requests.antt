-- ===== src/Remote/Requests.antt =====
-- What the parsers of gdb_protocol.c make of the text of a request.
use mathlib.Core.Path.{subst}
use uga_prog.Base.{
  ℕ, ◌^◌, ◌<◌, ◌≡◌, ◌≢◌, ◌∙◌, ap, refl, arith, bit_xor, Bool-cases, inl, inr, true, List, [], ◌∷◌,
  ◌++◌, append_assoc, some, ◌==◌, if◌then◌else◌, All, All-append, ne→==_false,
}
use uga_prog.Text.{hex_digit, digit_value, scan_x, after_char}
use uga_prog.Text.Numbers.{hex_text, AreDigits, IsEnd, scan_x-hex_text}
use uga_prog.Gdb.Escape.{escape}
use uga_prog.Gdb.Transfers.{scan_second, scan_pair}
use uga_prog.Scanner.Packets.{IsInner}
use uga_prog.Remote.{
  Number, digits_of, value_of, Request, read, write, is_special, pair_text, request_text, IsInside,
}

scan_second-hex_text :
    (a : ℕ) (size : Number) (c : ℕ) (s : List ℕ)
    → AreDigits (digits_of size)
    → IsEnd c
    → value_of size < 2 ^ 32
    → scan_second a (b',' ∷ (hex_text (digits_of size) ++ c ∷ s)) ≡ some (a, value_of size)
unfolding scan_second
scan_second-hex_text a size c s digits e small =
    rw (scan_x-hex_text size.first size.others c s digits e small) refl

-- The two numbers of a request, before a byte that ends the second one.
pub scan_pair-pair_text :
    (address size : Number) (c : ℕ) (s : List ℕ)
    → AreDigits (digits_of address)
    → AreDigits (digits_of size)
    → IsEnd c
    → value_of address < 2 ^ 32
    → value_of size < 2 ^ 32
    → scan_pair (pair_text address size ++ c ∷ s) ≡ some (value_of address, value_of size)
unfolding scan_pair digit_value
scan_pair-pair_text address size c s digits digits' e small small' =
    let rest = hex_text (digits_of size) ++ c ∷ s in
    let regroup =
      append_assoc (hex_text (digits_of address)) (b',' ∷ hex_text (digits_of size)) (c ∷ s) in
    let one : scan_x (hex_text (digits_of address) ++ b',' ∷ rest)
        ≡ some (value_of address, b',' ∷ rest) =
      scan_x-hex_text address.first address.others b',' rest digits (refl, refl) small in
    ap scan_pair regroup
    ∙ rw (one, scan_pair) (scan_second-hex_text (value_of address) size c s digits' e small')

-- A byte that stands before the `:`.
abbrev IsBefore : ℕ → Type 0
IsBefore c = (c ≢ b':') × (c ≢ 0)

after_char-past : (p s : List ℕ) → All IsBefore p → after_char b':' (p ++ b':' ∷ s) ≡ some s
unfolding after_char
after_char-past [] s h = refl
after_char-past (c ∷ p) s ((a, b), h) =
    rw (ne→==_false c b':' a, ne→==_false c 0 b) (after_char-past p s h)

hex_text-IsBefore : (ds : List ℕ) → AreDigits ds → All IsBefore (hex_text ds)
unfolding hex_digit
hex_text-IsBefore [] h = tt
hex_text-IsBefore (d ∷ ds) (lt, h) = ((ground arith, ground arith), hex_text-IsBefore ds h)

hex_text-IsInner : (ds : List ℕ) → AreDigits ds → All IsInner (hex_text ds)
unfolding hex_digit
hex_text-IsInner [] h = tt
hex_text-IsInner (d ∷ ds) (lt, h) = ((ground arith, ground arith), hex_text-IsInner ds h)

-- The bytes that are escaped, one by one.
turned : (c : ℕ) → is_special c ≡ true → (bit_xor c 0x20 ≢ b'$') × (bit_xor c 0x20 ≢ b'#')
turned c marked = elim (Bool-cases (c == 0x7d)) [
  | inl e ↦ subst Away (at 0x7d e) (omega arith, omega arith)
  | inr no_brace ↦ elim (Bool-cases (c == b'$')) [
    | inl e ↦ subst Away (at b'$' e) (omega arith, omega arith)
    | inr no_dollar ↦ subst Away (at b'#' (ground arith)) (omega arith, omega arith)
  ]
]
  where
    Away : ℕ → Type 0
    Away d = (bit_xor d 0x20 ≢ b'$') × (bit_xor d 0x20 ≢ b'#')

    at : (d : ℕ) → (c == d) ≡ true → d ≡ c
    at d e = ground arith

escape-IsInner : (s : List ℕ) → All IsInner (escape is_special s)
escape-IsInner [] = tt
escape-IsInner (c ∷ s) = All-append IsInner _ _ (one c) (escape-IsInner s)
  where
    one : (c : ℕ) → All IsInner (if is_special c then 0x7d ∷ bit_xor c 0x20 ∷ [] else c ∷ [])
    one c = elim (Bool-cases (is_special c)) [
      | inl marked ↦ rw marked ((omega arith, omega arith), (turned c marked, tt))
      | inr plain ↦ rw plain ((ground arith, ground arith), tt)
    ]

pair_text-IsInner :
    (address size : Number)
    → AreDigits (digits_of address)
    → AreDigits (digits_of size)
    → All IsInner (pair_text address size)
pair_text-IsInner address size digits digits' =
    All-append IsInner (hex_text (digits_of address)) _
      (hex_text-IsInner (digits_of address) digits)
      ((omega arith, omega arith), hex_text-IsInner (digits_of size) digits')

-- The bytes behind the `:` of a request that writes.
pub after_char-write :
    (address size : Number) (s : List ℕ)
    → AreDigits (digits_of address)
    → AreDigits (digits_of size)
    → after_char b':' (pair_text address size ++ b':' ∷ s) ≡ some s
after_char-write address size s digits digits' = after_char-past (pair_text address size) s (
    All-append IsBefore (hex_text (digits_of address)) _
      (hex_text-IsBefore (digits_of address) digits)
      ((omega arith, omega arith), hex_text-IsBefore (digits_of size) digits'))

pub request_text-IsInner : (n : ℕ) (r : Request) → IsInside n r → All IsInner (request_text r)
request_text-IsInner n (read address size) (digits, digits', _, _) =
    ((omega arith, omega arith), pair_text-IsInner address size digits digits')
request_text-IsInner n (write address size bytes) (digits, digits', _, _, _, _) = (
  (omega arith, omega arith),
  All-append IsInner (pair_text address size) _ (pair_text-IsInner address size digits digits')
      ((omega arith, omega arith), escape-IsInner bytes),
)
