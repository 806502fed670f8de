-- ===== src/Instruction/Beyond.antt =====
-- A step at a word-aligned pc past the first word of the memory.
use uga_prog.Base.{
  Bool-cases, inl, inr, ◌==◌, if◌then◌else◌, ℕ, ◌%◌, ◌^◌, ◌≤◌, ◌<◌, ◌≡◌, refl, ap, ◌∙◌, Option,
  none, some, arith, add32,
}
use uga_prog.Base.Bits.{bit_and-zero}
use uga_prog.Registers.{read_cpsr}
use uga_prog.Base.Outcome.{Outcome, ok, pure, gets}
use uga_prog.Base.Keeps.{bind_ok}
use uga_prog.Util.{get_bit, get_bits}
use uga_prog.Util.Fields.{get_bit-lt_two}
use uga_prog.Memory.{memory_read_word}
use uga_prog.Memory.Words.{memory_read_word_beyond, memory_read_word_outside}
use uga_prog.Core.{Core, count_cycle, seen_by, arm_write_register, arm_read_cpsr}
use uga_prog.Core.User.{
  InUser, put_reg, arm_read_register_lem, arm_write_register-user, arm_write_cpsr-user,
  arm_write_usr_register-user,
}
use uga_prog.Exception.{arm_exception}
use uga_prog.Condition.{get_z_flag, cond_verifier}
use uga_prog.Shifter.{shifter_value_calculator, immediate_shift, get_rm_bit}
use uga_prog.DataProcessing.Flags.{after_write}
use uga_prog.DataProcessing.Operations.{and_process}
use uga_prog.DataProcessing.Dispatch.{arm_data_processing_shift, switch_opcode}
use uga_prog.Instruction.{
  group_key, execute_register, decode, execute, execute_fetched, arm_execute_instruction, arm_step,
}
use uga_prog.Instruction.Fetch.{arm_fetch-aligned}

-- What a reset leaves: the CPSR 0x1d3 and the pc 0.
abbrev pub after_reset : Core → Core
after_reset p = put_reg (put_reg p 16 0x1d3) 15 0

pub arm_exception-reset : (p : Core) → InUser p → arm_exception 1 p ≡ ok (tt, after_reset p)
unfolding arm_exception
arm_exception-reset p user =
    bind_ok _ _ (arm_write_cpsr-user 0x1d3 p user)
      (arm_write_usr_register-user 15 0 (put_reg p 16 0x1d3) user (omega arith))

-- The core after a fetch.
abbrev pub fetched : Core → Core
fetched p = put_reg (count_cycle p) 15 (add32 (p.reg.reg 15) 4)

pub fetched-InUser : (p : Core) → InUser p → InUser (fetched p)
unfolding count_cycle
fetched-InUser p user = user

step_resets :
    (p : Core)
    → InUser p
    → arm_execute_instruction p ≡ ok (1, fetched p)
    → arm_step p ≡ ok (1, after_reset (fetched p))
unfolding arm_step pure
step_resets p user e =
    bind_ok _ _ e (bind_ok _ _ (arm_exception-reset (fetched p) (fetched-InUser p user)) refl)

-- The operand of LSL #0 is the number of the register, so 0 for r0.
operand_zero :
    (p : Core)
    → (carry : ℕ) × (shifter_value_calculator 0 0 0 0 0 p
        ≡ ok (record { shift_value = some 0; shifter_carry_out = some carry }, p))
unfolding shifter_value_calculator immediate_shift get_rm_bit pure seen_by
operand_zero p = (
  get_bit (p.reg.reg 0) 31,
  bind_ok _ _ (arm_read_register_lem 0 p (omega arith))
      (bind_ok _ _ (bind_ok _ _ (arm_read_register_lem 0 p (omega arith)) refl) refl),
)

and_zero : (p : Core) (carry : ℕ) → InUser p → and_process 0 0 0 0 carry p ≡ ok (tt, put_reg p 0 0)
unfolding and_process after_write pure
and_zero p carry user = bind_ok _ _ (arm_read_register_lem 0 p (omega arith)) (
    bind_ok _ _
      (ap (λ t. arm_write_register 0 t p) (bit_and-zero (seen_by 0 (p.reg.reg 0)))
        ∙ arm_write_register-user 0 0 p user (omega arith))
      refl)

-- AND r0, r0, r0
shift_zero :
    (p : Core) → InUser p → get_z_flag p ≡ 1 → arm_data_processing_shift 0 p ≡ ok (0, put_reg p 0 0)
unfolding arm_data_processing_shift get_bits get_bit gets pure switch_opcode cond_verifier
shift_zero p user z =
    let (carry, operand) = operand_zero p in
    bind_ok _ _ operand (
      bind_ok _ _ refl
        (rw z (bind_ok _ _ (bind_ok _ _ refl (bind_ok _ _ refl (and_zero p carry user))) refl)))

execute_zero : (p : Core) → InUser p → get_z_flag p ≡ 1 → execute 0 p ≡ ok (0, put_reg p 0 0)
unfolding execute cond_verifier get_bits get_bit decode execute_register group_key gets
execute_zero p user z = bind_ok _ _ refl (rw z (shift_zero p user z))

execute_zero_fails : (p : Core) → get_z_flag p ≡ 0 → execute 0 p ≡ ok (1, p)
unfolding execute cond_verifier get_bits gets pure
execute_zero_fails p z = bind_ok _ _ refl (rw z refl)

fetched_z : (p : Core) → get_z_flag (fetched p) ≡ get_z_flag p
unfolding get_z_flag arm_read_cpsr read_cpsr count_cycle
fetched_z p = refl

pub execute_fetch :
    (p : Core) (w : Option ℕ) {o : Outcome (ℕ × Core)}
    → InUser p
    → p.reg.reg 15 < 2 ^ 32
    → p.reg.reg 15 % 4 ≡ 0
    → memory_read_word p.mem (p.reg.reg 15) ≡ w
    → execute_fetched w (fetched p) ≡ o
    → arm_execute_instruction p ≡ o
unfolding arm_execute_instruction
execute_fetch p w user fits aligned e rest =
    bind_ok _ _ (arm_fetch-aligned p user fits aligned) (rw e rest)

z_flag_lt_two : (p : Core) → get_z_flag p < 2
unfolding get_z_flag
z_flag_lt_two p = get_bit-lt_two _ _

step_beyond_clear :
    (p : Core)
    → InUser p
    → p.reg.reg 15 < 2 ^ 32
    → p.reg.reg 15 % 4 ≡ 0
    → memory_read_word p.mem (p.reg.reg 15) ≡ some 0
    → get_z_flag p ≡ 0
    → arm_step p ≡ ok (1, after_reset (fetched p))
unfolding execute_fetched
step_beyond_clear p user fits aligned zero_word z = step_resets p user (
    execute_fetch p (some 0) user fits aligned zero_word
      (execute_zero_fails (fetched p) (fetched_z p ∙ z)))

step_beyond_set :
    (p : Core)
    → InUser p
    → p.reg.reg 15 < 2 ^ 32
    → p.reg.reg 15 % 4 ≡ 0
    → memory_read_word p.mem (p.reg.reg 15) ≡ some 0
    → get_z_flag p ≡ 1
    → arm_step p ≡ ok (0, put_reg (fetched p) 0 0)
unfolding execute_fetched arm_step pure
step_beyond_set p user fits aligned zero_word z =
    bind_ok _ _
      (execute_fetch p (some 0) user fits aligned zero_word
        (execute_zero (fetched p) (fetched-InUser p user) (fetched_z p ∙ z)))
      (bind_ok _ _ refl refl)

-- In user mode, at a word-aligned pc in the memory but past its first word, a step never sees what
-- the memory holds. With Z clear it resets the core; with Z set it writes 0 to r0 and moves the pc
-- on by 4.
pub arm_step_beyond :
    (p : Core)
    → InUser p
    → p.reg.reg 15 < 2 ^ 32
    → p.reg.reg 15 % 4 ≡ 0
    → 4 ≤ p.reg.reg 15
    → p.reg.reg 15 < p.mem.taille
    → arm_step p ≡ (
        if get_z_flag p == 0
        then ok (1, after_reset (fetched p))
        else ok (0, put_reg (fetched p) 0 0))
arm_step_beyond p user fits aligned far inside =
    let zero_word = memory_read_word_beyond p.mem (p.reg.reg 15) far inside in
    elim (Bool-cases (get_z_flag p == 0)) [
      | inl clear ↦ rw clear (step_beyond_clear p user fits aligned zero_word (ground arith))
      | inr set ↦
          rw set (step_beyond_set p user fits aligned zero_word (ground (arith, z_flag_lt_two p)))
    ]

-- In user mode, at a word-aligned pc outside the memory, a step resets the core.
pub arm_step_outside :
    (p : Core)
    → InUser p
    → p.reg.reg 15 < 2 ^ 32
    → p.reg.reg 15 % 4 ≡ 0
    → p.mem.taille ≤ p.reg.reg 15
    → arm_step p ≡ ok (1, after_reset (fetched p))
unfolding execute_fetched pure
arm_step_outside p user fits aligned outside = step_resets p user (
    execute_fetch p none user fits aligned (memory_read_word_outside p.mem (p.reg.reg 15) outside)
      refl)
