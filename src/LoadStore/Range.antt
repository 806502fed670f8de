-- ===== src/LoadStore/Range.antt =====
-- The range of addresses of an LDM or an STM.
use uga_prog.Base.{
  ℕ, ◌*◌, ◌^◌, ◌<◌, ◌≡◌, refl, arith, bit_and, ◌/◌, Bool-cases, inl, inr, add32, sub32, ◌==◌, ◌&&◌,
  AllBelow, AllBelow-at,
}
use uga_prog.Base.Outcome.{ok, gets, pure}
use uga_prog.Base.Keeps.{bind_ok}
use uga_prog.Base.Bits.{bit_and_digit, bit_and_ones}
use uga_prog.Util.{get_bit, get_bits}
use uga_prog.Util.Fields.{get_bits-lt}
use uga_prog.Core.{Core, seen_by}
use uga_prog.Core.User.{InUser, put_reg, arm_read_register_lem, arm_write_register-user}
use uga_prog.Condition.{cond_verifier, nonzero}
use uga_prog.LoadStore.Multiple.{number_of_set_bits_in, Range, write_base, mult_address_calculator}

write_base_lem :
    (cond w rn value : ℕ) (p : Core)
    → InUser p
    → rn < 16
    → (p' : Core) × (write_base cond w rn value p ≡ ok (tt, p')) × InUser p'
unfolding write_base gets pure
write_base_lem cond w rn value p user hn =
    elim (Bool-cases (nonzero (cond_verifier p cond) && (w == 1))) [
      | inl written ↦ (
        put_reg p rn value,
        bind_ok _ _ refl (rw written (arm_write_register-user rn value p user (omega arith))),
        user,
      )
      | inr kept ↦ (p, bind_ok _ _ refl (rw kept refl), user)
    ]

-- The range of `size` bytes that both ends of a mode describe.
abbrev pub IsRange : ℕ → Range → Type 0
IsRange size range =
    (range.start_address < 2 ^ 32) × (range.end_address ≡ sub32 (add32 range.start_address size) 4)

abbrev pub Ranges : ℕ → ℕ → ℕ → ℕ → Core → ℕ → Type 0
Ranges rn cond list w p modes =
    (range : Range) × (p' : Core) × (mult_address_calculator modes rn cond list w p
      ≡ ok (range, p'))
    × IsRange (number_of_set_bits_in list * 4) range
    × InUser p'

cleared-lt : (x : ℕ) → bit_and x 0xFFFF_FFFD < 2 ^ 32
cleared-lt x = omega (
  arith,
  bit_and_digit x 0xFFFF_FFFD,
  bit_and_digit (x / 2) 0x7FFF_FFFE,
  bit_and_ones 30 (x / 2 / 2),
)

seen_by-lt : (i : ℕ) (p : Core) → p.reg.reg i < 2 ^ 32 → seen_by i (p.reg.reg i) < 2 ^ 32
unfolding seen_by
seen_by-lt i p h = ground (arith, cleared-lt (add32 (p.reg.reg i) 4))

ranges :
    (rn cond list w : ℕ) (p : Core)
    → InUser p
    → rn < 16
    → p.reg.reg rn < 2 ^ 32
    → AllBelow 4 (Ranges rn cond list w p)
unfolding mult_address_calculator pure
ranges rn cond list w p user hn fits =
    let size = number_of_set_bits_in list * 4 in
    let base = seen_by rn (p.reg.reg rn) in
    let small : base < 2 ^ 32 = seen_by-lt rn p fits in
    let (p1, up, user1) = write_base_lem cond w rn (add32 base size) p user hn in
    let (p2, down, user2) = write_base_lem cond w rn (sub32 base size) p user hn in
    let read = arm_read_register_lem rn p (omega arith) in
    (
      (
        (
          (
            tt,
            (_, p2, bind_ok _ _ read (bind_ok _ _ down refl), (omega arith, omega arith), user2),
          ),
          (_, p1, bind_ok _ _ read (bind_ok _ _ up refl), (omega arith, omega arith), user1),
        ),
        (_, p2, bind_ok _ _ read (bind_ok _ _ down refl), (omega arith, omega arith), user2),
      ),
      (_, p1, bind_ok _ _ read (bind_ok _ _ up refl), (omega arith, omega arith), user1),
    )

pub the_range :
    (ins : ℕ) (p : Core)
    → InUser p
    → ((i : ℕ) → p.reg.reg i < 2 ^ 32)
    → Ranges
        (get_bits ins 19 16)
        (get_bits ins 31 28)
        (get_bits ins 15 0)
        (get_bit ins 21)
        p
        (get_bits ins 23 22)
the_range ins p user fits =
    AllBelow-at 4
      (Ranges (get_bits ins 19 16) (get_bits ins 31 28) (get_bits ins 15 0) (get_bit ins 21) p)
      (ranges _ _ _ _ p user (get_bits-lt ins 19 16) (fits _)) (get_bits ins 23 22)
      (get_bits-lt ins 23 22)
