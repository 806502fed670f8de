-- ===== src/Instruction/Immediate.antt =====
-- A step at an instruction of the data processing group with an immediate operand: the fetch, the
-- condition, the decoding and the operation together.
use uga_prog.Base.{
  ℕ, ◌+◌, ◌-◌, ◌*◌, ◌/◌, ◌%◌, ◌^◌, ◌≤◌, ◌<◌, ◌≡◌, ◌≢◌, ◌⊎◌, ◌∙◌, inl, inr, refl, ap, sym, arith,
  Bool-cases, true, false, ◌<<<◌, ◌>>>◌, bit_or, u8, u32, some, ◌==◌, if◌then◌else◌, ne→==_false,
}
use uga_prog.Base.Outcome.{Outcome, Stop, ok, stop, pure, gets, lift}
use uga_prog.Base.Keeps.{bind_ok, bind_stop}
use uga_prog.Registers.{read_cpsr}
use uga_prog.Util.{get_bit, get_bits, ror}
use uga_prog.Util.Fields.{get_bits_lem, get_bits-lt, get_bit_lem}
use uga_prog.Memory.{memory_read_word}
use uga_prog.Core.{Core, count_cycle, seen_by, arm_read_cpsr}
use uga_prog.Core.User.{InUser, put_reg}
use uga_prog.Condition.{cond_verifier, nonzero, get_n_flag, get_z_flag, get_c_flag, get_v_flag}
use uga_prog.DataProcessing.Alu.{code_alu, switch_opcode_manual}
use uga_prog.DataProcessing.Dispatch.{arm_data_processing_immediate_msr}
use uga_prog.Instruction.{
  decode, execute_immediate, execute, execute_fetched, arm_execute_instruction, arm_step,
}
use uga_prog.Instruction.Beyond.{fetched, fetched-InUser, execute_fetch}

-- The eight bits of the operand, rotated by twice the four bits above them.
abbrev pub rotated : ℕ → ℕ
rotated ins =
    let value = get_bits ins 7 0 in
    let rotation = get_bits ins 11 8 * 2 in
    bit_or (value >>> rotation) (u32 (value <<< (32 - rotation)))

-- The fetch changes no flag.
pub cond_verifier-fetched :
    (p : Core) (cond : ℕ) → cond_verifier (fetched p) cond ≡ cond_verifier p cond
unfolding cond_verifier get_n_flag get_z_flag get_c_flag get_v_flag arm_read_cpsr read_cpsr
    count_cycle
cond_verifier-fetched p cond = refl

c_flag-fetched : (p : Core) → get_c_flag (fetched p) ≡ get_c_flag p
unfolding get_c_flag arm_read_cpsr read_cpsr count_cycle
c_flag-fetched p = refl

ror-rotated :
    (ins : ℕ)
    → get_bits ins 11 8 ≢ 0
    → ror (get_bits ins 7 0) (u8 (get_bits ins 11 8 * 2)) ≡ ok (rotated ins)
unfolding ror
ror-rotated ins some_rotation =
    let small : get_bits ins 11 8 < 16 = get_bits-lt ins 11 8 in ground arith

ror-none :
    (ins : ℕ)
    → get_bits ins 11 8 ≡ 0
    → ror (get_bits ins 7 0) (u8 (get_bits ins 11 8 * 2)) ≡ stop Stop.wide_shift
unfolding ror
ror-none ins e = rw e refl

-- The five bits that the decoder looks at are those of the opcode and S.
key_lem : (ins : ℕ) → get_bits ins 24 20 ≡ get_bits ins 24 21 * 2 + get_bit ins 20
key_lem ins =
    let wide : get_bits ins 24 20 ≡ ins / 2 ^ 20 % 32 = get_bits_lem ins 24 20 (omega arith) in
    let narrow : get_bits ins 24 21 ≡ ins / 2 ^ 21 % 16 = get_bits_lem ins 24 21 (omega arith) in
    let low : get_bit ins 20 ≡ ins / 2 ^ 20 % 2 = get_bit_lem ins 20 in omega arith

-- What the instruction does to a core that has moved its pc on.
abbrev pub operated : ℕ → Core → Outcome (ℕ × Core)
operated ins p =
    if get_bits ins 11 8 == 0
    then stop Stop.wide_shift
    else ok (
      0,
      put_reg p (get_bits ins 15 12) (
          code_alu (get_bits ins 24 21)
            (seen_by (get_bits ins 19 16) (p.reg.reg (get_bits ins 19 16))) (rotated ins)
            (get_c_flag p)),
    )

operand_rotated :
    (ins : ℕ) (p : Core)
    → InUser p
    → (get_bits ins 24 21 < 8) ⊎ (12 ≤ get_bits ins 24 21)
    → get_bit ins 20 ≡ 0
    → nonzero (cond_verifier p (get_bits ins 31 28)) ≡ true
    → get_bits ins 11 8 ≢ 0
    → arm_data_processing_immediate_msr ins p ≡ operated ins p
unfolding arm_data_processing_immediate_msr lift gets pure
operand_rotated ins p user writes no_s passed some_rotation =
    let rotation : (get_bits ins 11 8 == 0) ≡ false = ne→==_false _ _ some_rotation in
    rw rotation (
      bind_ok _ _ (ap (λ t. lift t p) (ror-rotated ins some_rotation)) (
        bind_ok _ _ refl (
          bind_ok _ _ refl (
            rw passed (
              rw no_s (
                bind_ok _ _
                  (switch_opcode_manual p (get_bits ins 24 21) (get_bits ins 19 16)
                    (get_bits ins 15 12) (rotated ins) (get_bit (rotated ins) 31) user
                    (get_bits-lt ins 24 21) (get_bits-lt ins 19 16) (get_bits-lt ins 15 12) writes)
                  refl))))))

operand_none :
    (ins : ℕ) (p : Core)
    → get_bits ins 11 8 ≡ 0
    → arm_data_processing_immediate_msr ins p ≡ operated ins p
unfolding arm_data_processing_immediate_msr lift
operand_none ins p e = bind_stop _ _ (ap (λ t. lift t p) (ror-none ins e)) ∙ sym (rw e refl)

execute_operand :
    (ins : ℕ) (p : Core)
    → get_bits ins 27 25 ≡ 1
    → get_bit ins 20 ≡ 0
    → (get_bits ins 24 21 < 8) ⊎ (12 ≤ get_bits ins 24 21)
    → nonzero (cond_verifier p (get_bits ins 31 28)) ≡ true
    → execute ins p ≡ arm_data_processing_immediate_msr ins p
unfolding execute decode execute_immediate gets
execute_operand ins p group no_s writes passed =
    let key = key_lem ins in bind_ok _ _ refl (rw passed (rw group (ground arith)))

operated-fetched :
    (ins : ℕ) (p : Core)
    → InUser p
    → (get_bits ins 24 21 < 8) ⊎ (12 ≤ get_bits ins 24 21)
    → get_bit ins 20 ≡ 0
    → nonzero (cond_verifier p (get_bits ins 31 28)) ≡ true
    → arm_data_processing_immediate_msr ins (fetched p) ≡ operated ins (fetched p)
operated-fetched ins p user writes no_s passed = elim (Bool-cases (get_bits ins 11 8 == 0)) [
  | inl zero_rotation ↦ operand_none ins (fetched p) (ground arith)
  | inr some_rotation ↦
      operand_rotated ins (fetched p) (fetched-InUser p user) writes no_s
        (ap nonzero (cond_verifier-fetched p (get_bits ins 31 28)) ∙ passed) (ground arith)
]

-- A step whose instruction returns 0 ends as the instruction does.
pub step_done : (p q : Core) → arm_execute_instruction p ≡ ok (0, q) → arm_step p ≡ ok (0, q)
unfolding arm_step pure
step_done p q e = bind_ok _ _ e (bind_ok _ _ refl refl)

pub step_stopped :
    (p : Core) (why : Stop) → arm_execute_instruction p ≡ stop why → arm_step p ≡ stop why
unfolding arm_step
step_stopped p why e = bind_stop _ _ e

operated-steps :
    (ins : ℕ) (p : Core)
    → arm_execute_instruction p ≡ operated ins (fetched p)
    → arm_step p ≡ operated ins (fetched p)
operated-steps ins p e = elim (Bool-cases (get_bits ins 11 8 == 0)) [
  | inl zero_rotation ↦ rw zero_rotation (step_stopped p _ (e ∙ rw zero_rotation refl))
  | inr rotation ↦ rw rotation (step_done p _ (e ∙ rw rotation refl))
]

-- In user mode, where the pc is a multiple of 4 and reads a word that is an operation with an immediate
-- operand, writes Rd, does not set the flags, and has a condition that holds: with a rotation of 0 the
-- step stops at a shift by the width of its operand. With any other it moves the pc on by 4 and then
-- writes to Rd what the code gives the opcode for Rn, as read behind the fetch, for the rotated eight bits
-- and for the C flag; the result is 0.
pub arm_step_immediate :
    (p : Core) (ins : ℕ)
    → InUser p
    → p.reg.reg 15 < 2 ^ 32
    → p.reg.reg 15 % 4 ≡ 0
    → memory_read_word p.mem (p.reg.reg 15) ≡ some ins
    → get_bits ins 27 25 ≡ 1
    → get_bit ins 20 ≡ 0
    → (get_bits ins 24 21 < 8) ⊎ (12 ≤ get_bits ins 24 21)
    → nonzero (cond_verifier p (get_bits ins 31 28)) ≡ true
    → arm_step p ≡ operated ins (fetched p)
unfolding execute_fetched
arm_step_immediate p ins user fits aligned word group no_s writes passed = operated-steps ins p (
    execute_fetch p (some ins) user fits aligned word (
      execute_operand ins (fetched p) group no_s writes
        (ap nonzero (cond_verifier-fetched p (get_bits ins 31 28)) ∙ passed)
      ∙ operated-fetched ins p user writes no_s passed))
