-- ===== src/Branch.antt =====
-- arm_simulator-1.4/arm_branch_other.c: B, BL, and the instructions that are not implemented.
use uga_prog.Base.{ℕ, ◌<<<◌, bit_and, bit_or, u32, add32, sub32, not32, ◌==◌, if◌then◌else◌}
use uga_prog.Base.Outcome.{Stop, pure, halt, gets, ◌>>=◌, ◌>>◌}
use uga_prog.Constants.{undefined_instruction, software_interrupt}
use uga_prog.Util.{get_bit, get_bits}
use uga_prog.Core.{Act, arm_read_register, arm_write_register}
use uga_prog.Condition.{cond_verifier, nonzero}
pub mod Target

-- The offset of the branch times 4, negated.
unfoldable pub branch_offset : ℕ → ℕ
branch_offset target_address =
    let extended_adr =
      if nonzero (get_bit target_address 23)
      then bit_or 0x3F00_0000 target_address
      else bit_or 0 target_address in
    add32 (not32 (u32 (extended_adr <<< 2))) 1

unfoldable pub take_branch : ℕ → Act ℕ
take_branch ins = do
  pc ← arm_read_register 15
  if nonzero (get_bit ins 24) then arm_write_register 14 (sub32 pc 4) else pure tt
  let target_address = get_bits ins 23 0
  arm_write_register 15 (
      if nonzero (get_bit target_address 23)
      then sub32 pc (branch_offset target_address)
      else add32 pc (branch_offset target_address))
  pure 0

unfoldable pub arm_branch : ℕ → Act ℕ
arm_branch ins = do
  taken ← gets (λ p. cond_verifier p (get_bits ins 31 28))
  if nonzero taken then take_branch ins else pure 0

-- `swi 0x123456` ends the process.
unfoldable pub arm_coprocessor_others_swi : ℕ → Act ℕ
arm_coprocessor_others_swi ins =
    if nonzero (get_bit ins 24)
    then (if bit_and ins 0xFF_FFFF == 0x12_3456
        then halt (Stop.exited 0)
        else pure software_interrupt)
    else pure undefined_instruction

unfoldable pub arm_miscellaneous : ℕ → Act ℕ
arm_miscellaneous ins = pure undefined_instruction
