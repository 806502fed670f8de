-- ===== src/DataProcessing/Alu.antt =====
-- What the operations compute, against the table of the ARM manual.
use uga_prog.Base.{
  ℕ, ◌-◌, ◌≤◌, ◌<◌, ◌≡◌, ◌⊎◌, refl, ap, ◌∙◌, arith, bit_and, bit_or, bit_xor, add32, sub32, not32,
  ◌==◌, if◌then◌else◌, AllBelow, AllBelow-at,
}
use uga_prog.Base.Outcome.{ok, gets, pure, ◌>>=◌}
use uga_prog.Base.Keeps.{bind_ok}
use uga_prog.Util.Fields.{get_bit-lt_two}
use uga_prog.Core.{Core, Act, seen_by, arm_read_register, arm_write_register}
use uga_prog.Core.User.{InUser, put_reg, arm_read_register_lem, arm_write_register-user}
use uga_prog.Condition.{get_c_flag}
use uga_prog.DataProcessing.Flags.{after_write}
use uga_prog.DataProcessing.Operations.{
  and_process, eor_process, sub_process, add_process, adc_process, sbc_process, rsc_process,
  orr_process, mov_process, bic_process, mvn_process, clear_carry,
}
use uga_prog.DataProcessing.Dispatch.{switch_opcode}

-- The result that the manual gives an opcode that writes Rd, of Rn, the operand and the carry.
pub manual_alu : ℕ → ℕ → ℕ → ℕ → ℕ
manual_alu opcode a b c =
    if opcode == 0
    then bit_and a b
    else if opcode == 1
    then bit_xor a b
    else if opcode == 2
    then sub32 a b
    else if opcode == 3
    then sub32 b a
    else if opcode == 4
    then add32 a b
    else if opcode == 5
    then add32 (add32 a b) c
    else if opcode == 6
    then sub32 (sub32 a b) (1 - c)
    else if opcode == 7
    then sub32 (sub32 b a) (1 - c)
    else if opcode == 12
    then bit_or a b
    else if opcode == 13
    then b
    else if opcode == 14
    then bit_and a (not32 b)
    else not32 b

-- The code's: RSB is computed as RSC, and SBC comes out 2 too high.
pub code_alu : ℕ → ℕ → ℕ → ℕ → ℕ
code_alu opcode a b c =
    if opcode == 3
    then manual_alu 7 a b c
    else if opcode == 6
    then add32 (manual_alu 6 a b c) 2
    else manual_alu opcode a b c

-- The operations without S that read Rn, and those that read the carry too.
plain :
    (rn rd : ℕ) (f : ℕ → ℕ) (g : ℕ → Act (Unit {0})) (p : Core)
    → InUser p
    → rn < 16
    → rd < 16
    → (arm_read_register rn >>= λ a. arm_write_register rd (f a) >>= λ _. after_write rd 0 (g a)) p
      ≡ ok (tt, put_reg p rd (f (seen_by rn (p.reg.reg rn))))
unfolding after_write pure
plain rn rd f g p user hn hd =
    bind_ok _ _ (arm_read_register_lem rn p (omega arith))
      (bind_ok _ _ (arm_write_register-user rd _ p user (omega arith)) refl)

with_carry :
    (rn rd : ℕ) (f : ℕ → ℕ → ℕ) (g : ℕ → ℕ → Act (Unit {0})) (p : Core)
    → InUser p
    → rn < 16
    → rd < 16
    → (arm_read_register rn >>= λ a.
          gets get_c_flag >>= λ c. arm_write_register rd (f a c) >>= λ _. after_write rd 0 (g a c))
        p
      ≡ ok (tt, put_reg p rd (f (seen_by rn (p.reg.reg rn)) (get_c_flag p)))
unfolding after_write pure gets
with_carry rn rd f g p user hn hd =
    bind_ok _ _ (arm_read_register_lem rn p (omega arith))
      (bind_ok _ _ refl (bind_ok _ _ (arm_write_register-user rd _ p user (omega arith)) refl))

no_read :
    (rd x : ℕ) (g : Act (Unit {0})) (p : Core)
    → InUser p
    → rd < 16
    → (arm_write_register rd x >>= λ _. after_write rd 0 g) p ≡ ok (tt, put_reg p rd x)
unfolding after_write pure
no_read rd x g p user hd = bind_ok _ _ (arm_write_register-user rd _ p user (omega arith)) refl

c_flag_lt_two : (p : Core) → get_c_flag p < 2
unfolding get_c_flag
c_flag_lt_two p = get_bit-lt_two _ _

sbc_lem : (a b c : ℕ) → c < 2 → sub32 (sub32 a b) (not32 c) ≡ add32 (sub32 (sub32 a b) (1 - c)) 2
sbc_lem a b c h = omega arith

clear_carry_lem : (c : ℕ) → c < 2 → clear_carry c ≡ 1 - c
clear_carry_lem c h = ground arith

abbrev Computes : Core → ℕ → ℕ → ℕ → ℕ → ℕ → Type 0
Computes p rn rd v carry opcode =
    (opcode < 8) ⊎ (12 ≤ opcode)
    → switch_opcode opcode rn rd 0 v carry p
      ≡ ok (tt, put_reg p rd (code_alu opcode (seen_by rn (p.reg.reg rn)) v (get_c_flag p)))

alu_arithmetic :
    (p : Core) (rn rd v carry : ℕ)
    → InUser p
    → rn < 16
    → rd < 16
    → AllBelow 8 (Computes p rn rd v carry)
unfolding switch_opcode code_alu manual_alu and_process eor_process sub_process add_process
    adc_process sbc_process rsc_process
alu_arithmetic p rn rd v carry user hn hd =
    let c2 = c_flag_lt_two p in
    let a = seen_by rn (p.reg.reg rn) in
    let rsc =
      with_carry rn rd (λ x c. sub32 (sub32 v x) (clear_carry c)) _ p user hn hd
      ∙ ap (λ t. ok (tt, put_reg p rd (sub32 (sub32 v a) t))) (clear_carry_lem (get_c_flag p) c2) in
    (
      (
        (
          (
            (
              (
                (
                  (tt, λ _. plain rn rd (λ x. bit_and x v) _ p user hn hd),
                  λ _. plain rn rd (λ x. bit_xor x v) _ p user hn hd,
                ),
                λ _. plain rn rd (λ x. sub32 x v) _ p user hn hd,
              ),
              λ _. rsc,
            ),
            λ _. plain rn rd (λ x. add32 x v) _ p user hn hd,
          ),
          λ _. with_carry rn rd (λ x c. add32 (add32 x v) c) _ p user hn hd,
        ),
        λ _.
            with_carry rn rd (λ x c. sub32 (sub32 x v) (not32 c)) _ p user hn hd
            ∙ ap (λ t. ok (tt, put_reg p rd t)) (sbc_lem a v (get_c_flag p) c2),
      ),
      λ _. rsc,
    )

alu_table :
    (p : Core) (rn rd v carry : ℕ)
    → InUser p
    → rn < 16
    → rd < 16
    → AllBelow 16 (Computes p rn rd v carry)
unfolding switch_opcode code_alu manual_alu orr_process mov_process bic_process mvn_process
alu_table p rn rd v carry user hn hd = (
  (
    (
      (
        (
          (
            (
              (alu_arithmetic p rn rd v carry user hn hd, λ h. absurd (omega arith)),
              λ h. absurd (omega arith),
            ),
            λ h. absurd (omega arith),
          ),
          λ h. absurd (omega arith),
        ),
        λ _. plain rn rd (λ x. bit_or x v) _ p user hn hd,
      ),
      λ _. no_read rd v _ p user hd,
    ),
    λ _. plain rn rd (λ x. bit_and x (not32 v)) _ p user hn hd,
  ),
  λ _. no_read rd (not32 v) _ p user hd,
)

-- In user mode, without S, an opcode other than the four comparisons returns, writes Rd and changes
-- nothing else. The value is the manual's of Rn, the operand and the C flag, but that opcode 3 gets
-- the value of opcode 7, and opcode 6 a value that is 2 more than the manual's.
pub switch_opcode_manual :
    (p : Core) (opcode rn rd v carry : ℕ)
    → InUser p
    → opcode < 16
    → rn < 16
    → rd < 16
    → (opcode < 8) ⊎ (12 ≤ opcode)
    → switch_opcode opcode rn rd 0 v carry p
      ≡ ok (tt, put_reg p rd (code_alu opcode (seen_by rn (p.reg.reg rn)) v (get_c_flag p)))
switch_opcode_manual p opcode rn rd v carry user ho hn hd writes =
    AllBelow-at 16 (Computes p rn rd v carry) (alu_table p rn rd v carry user hn hd) opcode ho
      writes
