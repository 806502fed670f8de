-- ===== src/Gdb/WordsBack.antt =====
-- A word written by `write_uint32` and read by `read_uint32`.
use uga_prog.Base.{
  ℕ, ◌*◌, ◌/◌, ◌%◌, ◌^◌, ◌<◌, ◌≡◌, ap, refl, arith, Bool, true, false, List, ◌∷◌, ◌++◌,
  append_assoc, length, Option, none, some, u8, if◌then◌else◌, Bool-cases, inl, inr,
}
use uga_prog.Text.{print_byte, hex_digit}
use uga_prog.Text.Hex.{scan_hex-print_byte}
use uga_prog.Gdb.{Build}
use uga_prog.Gdb.Handlers.{skip_word}
use uga_prog.Gdb.Words.{
  same_order, scan_byte, integer_of, union_of, read_uint32, union_byte, write_uint32,
}

pub scan_byte_lem :
    (v : ℕ) (s : List ℕ) (old : Option ℕ)
    → v < 256
    → scan_byte (hex_digit (v / 16) ∷ hex_digit (v % 16) ∷ s) old ≡ some v
unfolding scan_byte print_byte
scan_byte_lem v s old h = rw (scan_hex-print_byte v s h, scan_byte) refl

read_four :
    (build : Build) (a b c d : ℕ) (s : List ℕ)
    → a < 256
    → b < 256
    → c < 256
    → d < 256
    → read_uint32 build (print_byte a ++ (print_byte b ++ (print_byte c ++ (print_byte d ++ s))))
      ≡ union_of build (some a) (some b) (some c) (some d)
unfolding read_uint32 print_byte
read_four build a b c d s ha hb hc hd =
    rw
      (
        scan_byte_lem a _ none ha,
        scan_byte_lem b _ _ hb,
        scan_byte_lem c _ _ hc,
        scan_byte_lem d s _ hd,
      )
      refl

union_byte-lt : (big : Bool) (v i : ℕ) → union_byte big v i < 256
unfolding union_byte
union_byte-lt true v i = omega arith
union_byte-lt false v i = omega arith

-- The bytes of the union, put together again.
integer_of-union_byte :
    (big : Bool) (v : ℕ)
    → v < 2 ^ 32
    → integer_of big
        (u8 (union_byte big v 0))
        (u8 (union_byte big v 1))
        (u8 (union_byte big v 2))
        (u8 (union_byte big v 3))
      ≡ v
unfolding integer_of union_byte
integer_of-union_byte true v h = omega arith
integer_of-union_byte false v h = omega arith

-- The four bytes in front of a rest, bracketed to the right.
in_front : (a b c d s : List ℕ) → (a ++ (b ++ (c ++ d))) ++ s ≡ a ++ (b ++ (c ++ (d ++ s)))
in_front a b c d s = simp append_assoc

-- For all byte orders of the host and the target, a word printed by `write_uint32` is read back by
-- `read_uint32`, whatever follows it.
pub write_uint32-read_uint32 :
    (build : Build) (v : ℕ) (s : List ℕ)
    → v < 2 ^ 32
    → read_uint32 build (write_uint32 build v ++ s) ≡ some v
unfolding write_uint32 union_of
write_uint32-read_uint32 build v s h =
    elim (Bool-cases (same_order build.host_big build.target_big)) [
      | inl same ↦
          rw
            (
              same,
              in_front (print_byte _) (print_byte _) (print_byte _) (print_byte _) s,
              read_four build _ _ _ _ s (lt 0) (lt 1) (lt 2) (lt 3),
            )
            (rw same (ap some (integer_of-union_byte build.host_big v h)))
      | inr other ↦
          rw
            (
              other,
              in_front (print_byte _) (print_byte _) (print_byte _) (print_byte _) s,
              read_four build _ _ _ _ s (lt 3) (lt 2) (lt 1) (lt 0),
            )
            (rw other (ap some (integer_of-union_byte build.host_big v h)))
    ]
  where
    lt : (i : ℕ) → union_byte build.host_big v i < 256
    lt i = union_byte-lt build.host_big v i

-- `write_uint32` prints the bytes in the order of the target, the host's has no influence.
pub write_uint32_lem :
    (build : Build) (v : ℕ)
    → let byte = λ (i : ℕ). print_byte (v / 2 ^ (8 * i) % 2 ^ 8) in
      write_uint32 build v ≡ (
        if build.target_big
        then byte 3 ++ (byte 2 ++ (byte 1 ++ byte 0))
        else byte 0 ++ (byte 1 ++ (byte 2 ++ byte 3)))
unfolding write_uint32 union_byte
write_uint32_lem build v = by_order build.host_big build.target_big
  where
    by_order :
        (host target : Bool)
        → write_uint32 (record { host_big = host; target_big = target }) v ≡ (
            if target
            then print_byte (v / 2 ^ 24 % 2 ^ 8)
              ++ (print_byte (v / 2 ^ 16 % 2 ^ 8)
                  ++ (print_byte (v / 2 ^ 8 % 2 ^ 8) ++ print_byte (v / 2 ^ 0 % 2 ^ 8)))
            else print_byte (v / 2 ^ 0 % 2 ^ 8)
              ++ (print_byte (v / 2 ^ 8 % 2 ^ 8)
                  ++ (print_byte (v / 2 ^ 16 % 2 ^ 8) ++ print_byte (v / 2 ^ 24 % 2 ^ 8))))
    by_order true true = refl
    by_order true false = refl
    by_order false true = refl
    by_order false false = refl

pub length-write_uint32 : (build : Build) (v : ℕ) → length (write_uint32 build v) ≡ 8
unfolding write_uint32 print_byte
length-write_uint32 build v = elim (Bool-cases (same_order build.host_big build.target_big)) [
  | inl same ↦ rw same refl
  | inr other ↦ rw other refl
]

pub skip_word-write_uint32 :
    (build : Build) (v : ℕ) (s : List ℕ) → skip_word (write_uint32 build v ++ s) ≡ s
unfolding write_uint32 print_byte skip_word
skip_word-write_uint32 build v s = elim (Bool-cases (same_order build.host_big build.target_big)) [
  | inl same ↦ rw same refl
  | inr other ↦ rw other refl
]
