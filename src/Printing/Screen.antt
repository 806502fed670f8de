-- ===== src/Printing/Screen.antt =====
-- The text of `arm_print_state` in user mode, written out.
use uga_prog.Base.{
  ℕ, zero, suc, ◌+◌, ◌-◌, ◌/◌, ◌%◌, ◌^◌, ◌<◌, ◌≡◌, ◌∙◌, ap, refl, arith, List, [], ◌∷◌, ◌++◌, ltb,
  if◌then◌else◌, AllBelow-at,
}
use uga_prog.Base.Outcome.{ok}
use uga_prog.Text.{codes}
use uga_prog.Registers.{read_cpsr}
use uga_prog.Core.{Core, seen_by, arm_read_cpsr}
use uga_prog.Core.User.{InUser}
use uga_prog.Names.{register_name_at}
use uga_prog.Printing.{print_upper, pad, line_break, mode_end, arm_print_state}
use uga_prog.Printing.Blocks.{registers_text, blocks, seven_modes, arm_print_state_lem}

-- A character of a text, and the digit of weight `16 ^ k` of a word.
pub character_at : List ℕ → ℕ → ℕ
character_at [] n = 0
character_at (c ∷ s) zero = c
character_at (c ∷ s) (suc n) = character_at s n

abbrev pub digit_at : ℕ → ℕ → ℕ
digit_at v k = character_at (codes "0123456789ABCDEF") (v / 16 ^ k % 16)

abbrev pub eight_digits : ℕ → List ℕ
eight_digits v =
    digit_at v 7
    ∷ digit_at v 6
    ∷ digit_at v 5
    ∷ digit_at v 4
    ∷ digit_at v 3
    ∷ digit_at v 2
    ∷ digit_at v 1
    ∷ digit_at v 0
    ∷ []

-- What register `i` reads as.
abbrev pub shown : Core → ℕ → List ℕ
shown p i = eight_digits (seen_by i (p.reg.reg i))

abbrev pub joined : List (List ℕ) → List ℕ
joined [] = []
joined (s ∷ texts) = s ++ joined texts

-- The sixteen registers, five in a line.
abbrev pub sixteen_registers : Core → List ℕ
sixteen_registers p = joined (
    codes "   R00="
    ∷ shown p 0
    ∷ codes "   R01="
    ∷ shown p 1
    ∷ codes "   R02="
    ∷ shown p 2
    ∷ codes "   R03="
    ∷ shown p 3
    ∷ codes "   R04="
    ∷ shown p 4
    ∷ (10 ∷ codes "       R05=")
    ∷ shown p 5
    ∷ codes "   R06="
    ∷ shown p 6
    ∷ codes "   R07="
    ∷ shown p 7
    ∷ codes "   R08="
    ∷ shown p 8
    ∷ codes "   R09="
    ∷ shown p 9
    ∷ (10 ∷ codes "       R10=")
    ∷ shown p 10
    ∷ codes "   R11="
    ∷ shown p 11
    ∷ codes "   R12="
    ∷ shown p 12
    ∷ codes "    SP="
    ∷ shown p 13
    ∷ codes "    LR="
    ∷ shown p 14
    ∷ (10 ∷ codes "        PC=")
    ∷ shown p 15
    ∷ [])

-- The CPSR stands in the first block; two modes have no end of line, and the last has no name.
abbrev pub screen : Core → List ℕ
screen p = joined (
    codes "USR:"
    ∷ sixteen_registers p
    ∷ codes "  CPSR="
    ∷ eight_digits (p.reg.reg 16)
    ∷ (10 ∷ codes "FIQ:")
    ∷ sixteen_registers p
    ∷ (10 ∷ codes "IRQ:")
    ∷ sixteen_registers p
    ∷ codes "          SVC:"
    ∷ sixteen_registers p
    ∷ (10 ∷ codes "ABT:")
    ∷ sixteen_registers p
    ∷ codes "          UND:"
    ∷ sixteen_registers p
    ∷ (10 ∷ [])
    ∷ sixteen_registers p
    ∷ [])

is_digit :
    (d : ℕ)
    → d < 16
    → (if ltb d 10 then b'0' + d else b'A' + (d - 10)) ≡ character_at (codes "0123456789ABCDEF") d
unfolding character_at
is_digit d h =
    AllBelow-at 16
      (λ d.
        (if ltb d 10 then b'0' + d else b'A' + (d - 10))
        ≡ character_at (codes "0123456789ABCDEF") d)
      (omega arith) d h

upper_at :
    (x v k : ℕ)
    → x ≡ v / 16 ^ k
    → (if ltb (x % 16) 10 then b'0' + x % 16 else b'A' + (x % 16 - 10)) ≡ digit_at v k
upper_at x v k e =
    is_digit (x % 16) (omega arith)
    ∙ ap (λ (t : ℕ). character_at (codes "0123456789ABCDEF") (t % 16)) e

print_upper_eight : (v : ℕ) → print_upper 8 v ≡ eight_digits v
unfolding print_upper
print_upper_eight v =
    rw
      (
        upper_at (v / 16 / 16 / 16 / 16 / 16 / 16 / 16) v 7 (omega arith),
        upper_at (v / 16 / 16 / 16 / 16 / 16 / 16) v 6 (omega arith),
        upper_at (v / 16 / 16 / 16 / 16 / 16) v 5 (omega arith),
        upper_at (v / 16 / 16 / 16 / 16) v 4 (omega arith),
        upper_at (v / 16 / 16 / 16) v 3 (omega arith),
        upper_at (v / 16 / 16) v 2 (omega arith),
        upper_at (v / 16) v 1 (omega arith),
        upper_at (v) v 0 (omega arith),
      )
      refl

registers_shown : (p : Core) → registers_text p 16 0 ≡ sixteen_registers p
unfolding registers_text line_break pad register_name_at
registers_shown p = simp (
  print_upper_eight (seen_by 0 (p.reg.reg 0)),
  print_upper_eight (seen_by 1 (p.reg.reg 1)),
  print_upper_eight (seen_by 2 (p.reg.reg 2)),
  print_upper_eight (seen_by 3 (p.reg.reg 3)),
  print_upper_eight (seen_by 4 (p.reg.reg 4)),
  print_upper_eight (seen_by 5 (p.reg.reg 5)),
  print_upper_eight (seen_by 6 (p.reg.reg 6)),
  print_upper_eight (seen_by 7 (p.reg.reg 7)),
  print_upper_eight (seen_by 8 (p.reg.reg 8)),
  print_upper_eight (seen_by 9 (p.reg.reg 9)),
  print_upper_eight (seen_by 10 (p.reg.reg 10)),
  print_upper_eight (seen_by 11 (p.reg.reg 11)),
  print_upper_eight (seen_by 12 (p.reg.reg 12)),
  print_upper_eight (seen_by 13 (p.reg.reg 13)),
  print_upper_eight (seen_by 14 (p.reg.reg 14)),
  print_upper_eight (seen_by 15 (p.reg.reg 15)),
)

blocks-screen : (p : Core) → blocks p seven_modes ≡ screen p
unfolding mode_end arm_read_cpsr read_cpsr
blocks-screen p = rw (registers_shown p, print_upper_eight (p.reg.reg 16)) refl

-- In user mode `arm_print_state` returns, changes nothing, and prints the text of `screen`: for each of the
-- seven modes the same sixteen registers, as they read in user mode, each by its name and in eight
-- hexadecimal digits, five in a line, with the CPSR behind those of the first mode.
pub arm_print_state-screen : (p : Core) → InUser p → arm_print_state p ≡ ok (screen p, p)
arm_print_state-screen p user = arm_print_state_lem p user ∙ ap (λ t. ok (t, p)) (blocks-screen p)
