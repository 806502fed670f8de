-- ===== src/Branch/Target.antt =====
-- Where B and BL go, against the manual.
use uga_prog.Base.{
  ℕ, ◌+◌, ◌-◌, ◌*◌, ◌%◌, ◌^◌, ◌≤◌, ◌<◌, ◌≡◌, ◌↔◌, ◌⊎◌, inl, inr, refl, ap, ◌∙◌, arith, bit_or,
  add32, sub32, ltb, not, true, false, if◌then◌else◌, Bool-cases,
}
use uga_prog.Base.Bits.{bit_or_disjoint, bit_or-zero, bit_or_comm, bit-eq}
use uga_prog.Base.Outcome.{ok, pure, gets}
use uga_prog.Base.Keeps.{bind_ok}
use uga_prog.Util.{get_bit, get_bits}
use uga_prog.Util.Fields.{get_bits-lt, get_bit-eq-bit}
use uga_prog.Core.{Core, seen_by, arm_write_register}
use uga_prog.Core.User.{InUser, put_reg, arm_read_register_lem, arm_write_register-user}
use uga_prog.Condition.{cond_verifier, nonzero}
use uga_prog.Branch.{branch_offset, take_branch, arm_branch}

-- The sign of a field of 24 bits.
sign_bit : (f : ℕ) → f < 2 ^ 24 → nonzero (get_bit f 23) ≡ not (ltb f (2 ^ 23))
sign_bit f h = ground (arith, get_bit-eq-bit f 23, bit-eq f 23)

branch_offset_negative : (f : ℕ) → f < 2 ^ 24 → 2 ^ 23 ≤ f → branch_offset f ≡ 4 * (2 ^ 24 - f)
unfolding branch_offset
branch_offset_negative f h negative =
    let sign : nonzero (get_bit f 23) ≡ true = ground (arith, sign_bit f h) in
    let joined : bit_or 0x3F00_0000 f ≡ 0x3F00_0000 + f = bit_or_disjoint 24 0x3F f h in
    rw (sign, joined) (omega arith)

branch_offset_positive : (f : ℕ) → f < 2 ^ 23 → branch_offset f ≡ (2 ^ 32 - 4 * f) % 2 ^ 32
unfolding branch_offset
branch_offset_positive f h =
    let sign : nonzero (get_bit f 23) ≡ false = ground (arith, sign_bit f (omega arith)) in
    let joined : bit_or 0 f ≡ f = bit_or_comm 0 f ∙ bit_or-zero f in rw (sign, joined) (omega arith)

-- Where the manual sends a branch that reads the pc `pc` and has the field `f`, a signed number of
-- words.
pub manual_target : ℕ → ℕ → ℕ
manual_target pc f = if ltb f (2 ^ 23) then add32 pc (4 * f) else sub32 pc (4 * (2 ^ 24 - f))

-- Where the code does: a forward branch goes back as far as it should go forward.
pub code_target : ℕ → ℕ → ℕ
code_target pc f = if ltb f (2 ^ 23) then sub32 pc (4 * f) else sub32 pc (4 * (2 ^ 24 - f))

code_target_lem :
    (pc f : ℕ)
    → f < 2 ^ 24
    → (if nonzero (get_bit f 23) then sub32 pc (branch_offset f) else add32 pc (branch_offset f))
      ≡ code_target pc f
unfolding code_target
code_target_lem pc f h = elim (Bool-cases (ltb f (2 ^ 23))) [
  | inl positive ↦
      rw (sign_bit f h, positive, branch_offset_positive f (ground arith)) (ground arith)
  | inr negative ↦ rw (sign_bit f h, negative, branch_offset_negative f h (ground arith)) refl
]

-- The core after the write of the link register, which BL makes and B does not.
pub linked : ℕ → ℕ → Core → Core
linked ins pc p = if nonzero (get_bit ins 24) then put_reg p 14 (sub32 pc 4) else p

linked-InUser : (ins pc : ℕ) (p : Core) → InUser p → InUser (linked ins pc p)
unfolding linked
linked-InUser ins pc p user = elim (Bool-cases (nonzero (get_bit ins 24))) [
  | inl link ↦ rw link user
  | inr plain ↦ rw plain user
]

link_lem :
    (ins pc : ℕ) (p : Core)
    → InUser p
    → (if nonzero (get_bit ins 24) then arm_write_register 14 (sub32 pc 4) else pure tt) p
      ≡ ok (tt, linked ins pc p)
unfolding linked pure
link_lem ins pc p user = elim (Bool-cases (nonzero (get_bit ins 24))) [
  | inl link ↦ rw link (arm_write_register-user 14 (sub32 pc 4) p user (omega arith))
  | inr plain ↦ rw plain refl
]

-- In user mode a branch whose condition passes returns 0, writes the link register if bit 24 of the
-- instruction is set, and sends the pc to `code_target` of the pc that it reads and its field.
pub arm_branch_taken :
    (ins : ℕ) (p : Core)
    → InUser p
    → nonzero (cond_verifier p (get_bits ins 31 28)) ≡ true
    → let pc = seen_by 15 (p.reg.reg 15) in
      arm_branch ins p ≡ ok (0, put_reg (linked ins pc p) 15 (code_target pc (get_bits ins 23 0)))
unfolding arm_branch take_branch pure gets
arm_branch_taken ins p user passes =
    let pc = seen_by 15 (p.reg.reg 15) in
    let f = get_bits ins 23 0 in
    bind_ok _ _ refl (
      rw passes (
        bind_ok _ _ (arm_read_register_lem 15 p (omega arith)) (
          bind_ok _ _ (link_lem ins pc p user) (
            bind_ok _ _
              (ap (λ t. arm_write_register 15 t (linked ins pc p))
                  (code_target_lem pc f (get_bits-lt ins 23 0))
                ∙ arm_write_register-user 15 _ (linked ins pc p) (linked-InUser ins pc p user)
                    (omega arith))
              refl))))

target_iff :
    (pc f : ℕ) → f < 2 ^ 24 → (code_target pc f ≡ manual_target pc f) ↔ ((f ≡ 0) ⊎ (2 ^ 23 ≤ f))
unfolding code_target manual_target
target_iff pc f h = elim (Bool-cases (ltb f (2 ^ 23))) [
  | inl positive ↦
      let small : f < 2 ^ 23 = ground arith in
      rw positive (λ e. inl (omega arith), λ d. omega arith)
  | inr negative ↦ rw negative (λ e. inr (ground arith), λ d. refl)
]

-- For a field of 24 bits, adding `branch_offset` to the pc, or subtracting it where the field is
-- negative, gives the manual's target exactly when the field is 0 or negative: no forward branch
-- goes where it should.
pub branch_offset_iff :
    (pc f : ℕ)
    → f < 2 ^ 24
    → ((if nonzero (get_bit f 23) then sub32 pc (branch_offset f) else add32 pc (branch_offset f))
        ≡ manual_target pc f)
      ↔ ((f ≡ 0) ⊎ (2 ^ 23 ≤ f))
branch_offset_iff pc f h = rw (code_target_lem pc f h) (target_iff pc f h)
