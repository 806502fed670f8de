-- ===== src/Instruction/Fetch.antt =====
-- The fetch at a word-aligned pc.
use uga_prog.Base.{ℕ, ◌/◌, ◌%◌, ◌^◌, ◌<◌, ◌≡◌, refl, ap, ◌∙◌, arith, bit_and, add32, sub32}
use uga_prog.Base.Bits.{bit_and_digit, bit_and_ones}
use uga_prog.Base.Outcome.{ok, modify, gets, pure}
use uga_prog.Base.Keeps.{bind_ok}
use uga_prog.Memory.{memory_read_word}
use uga_prog.Core.{Core, seen_by, arm_fetch, count_cycle}
use uga_prog.Core.User.{InUser, put_reg, arm_read_register_lem, arm_write_register-user}

-- Clearing bit 1 of a multiple of 4.
clear_bit_one : (x : ℕ) → x < 2 ^ 32 → x % 4 ≡ 0 → bit_and x 0xFFFF_FFFD ≡ x
clear_bit_one x h aligned = omega (
  arith,
  bit_and_digit x 0xFFFF_FFFD,
  bit_and_digit (x / 2) 0x7FFF_FFFE,
  bit_and_ones 30 (x / 2 / 2),
)

pub seen_pc : (v : ℕ) → v % 4 ≡ 0 → seen_by 15 v ≡ add32 v 4
unfolding seen_by
seen_pc v aligned = clear_bit_one (add32 v 4) (omega arith) (omega arith)

-- At a word-aligned pc a fetch counts a cycle, reads the word at the pc and moves on by 4.
pub arm_fetch-aligned :
    (p : Core)
    → InUser p
    → p.reg.reg 15 < 2 ^ 32
    → p.reg.reg 15 % 4 ≡ 0
    → let pc = p.reg.reg 15 in
      arm_fetch p ≡ ok (memory_read_word p.mem pc, put_reg (count_cycle p) 15 (add32 pc 4))
unfolding arm_fetch count_cycle modify gets pure
arm_fetch-aligned p user fits aligned =
    let pc = p.reg.reg 15 in
    let back : sub32 (add32 pc 4) 4 ≡ pc = omega arith in
    bind_ok _ _ refl (
      bind_ok _ _
        (arm_read_register_lem 15 (count_cycle p) (omega arith)
          ∙ ap (λ t. ok (t, count_cycle p)) (seen_pc pc aligned))
        (rw back (
          bind_ok _ _ refl (
            bind_ok _ _ (arm_write_register-user 15 (add32 pc 4) (count_cycle p) user (omega arith))
              refl))))
