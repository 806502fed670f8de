-- ===== src/DataProcessing/Dispatch.antt =====
-- `arm_data_processing_shift` and `arm_data_processing_immediate_msr`, whose two switches on the
-- opcode are the same.
use uga_prog.Base.{ℕ, ◌*◌, Option, none, some, u8, ◌==◌, if◌then◌else◌}
use uga_prog.Base.Outcome.{Stop, pure, halt, lift, gets, ◌>>=◌, ◌>>◌}
use uga_prog.Util.{get_bit, get_bits, ror}
use uga_prog.Core.{Act}
use uga_prog.Condition.{get_c_flag, cond_verifier, nonzero}
use uga_prog.Shifter.{shifter_value_calculator}
use uga_prog.DataProcessing.Operations.{
  teq_process, tst_process, and_process, eor_process, sub_process, add_process, adc_process,
  sbc_process, rsc_process, orr_process, mov_process, bic_process, mvn_process, cmp_process,
  cmn_process,
}

-- Opcode 3 runs `rsc_process`, as 7 does.
unfoldable pub switch_opcode : ℕ → ℕ → ℕ → ℕ → ℕ → ℕ → Act (Unit {0})
switch_opcode opcode rn rd s shift_value carry =
    if opcode == 0
    then and_process rn rd s shift_value carry
    else if opcode == 1
    then eor_process rn rd s shift_value carry
    else if opcode == 2
    then sub_process rn rd shift_value s
    else if opcode == 3
    then rsc_process rn rd shift_value s
    else if opcode == 4
    then add_process rn rd shift_value s
    else if opcode == 5
    then adc_process rn rd shift_value s
    else if opcode == 6
    then sbc_process rn rd shift_value s
    else if opcode == 7
    then rsc_process rn rd shift_value s
    else if opcode == 8
    then tst_process rn rd shift_value carry
    else if opcode == 9
    then teq_process rn rd shift_value carry
    else if opcode == 10
    then cmp_process rn shift_value
    else if opcode == 11
    then cmn_process rn shift_value
    else if opcode == 12
    then orr_process rn rd s shift_value carry
    else if opcode == 13
    then mov_process rd s shift_value carry
    else if opcode == 14
    then bic_process rn rd s shift_value carry
    else if opcode == 15
    then mvn_process rd s shift_value carry
    else pure tt

-- A local variable that is read.
abbrev pub demand : Option ℕ → Act ℕ
demand none = halt Stop.uninitialised
demand (some v) = pure v

-- The operand is computed before the condition is looked at.
unfoldable pub arm_data_processing_shift : ℕ → Act ℕ
arm_data_processing_shift ins = do
  operand ←
      shifter_value_calculator (get_bit ins 4) (get_bits ins 6 5) (get_bits ins 11 6)
        (get_bits ins 3 0) (get_bits ins 11 7)
  passed ← gets (λ p. cond_verifier p (get_bits ins 31 28))
  if nonzero passed
      then (do
        shift_value ← demand operand.shift_value
        carry ← demand operand.shifter_carry_out
        switch_opcode (get_bits ins 24 21) (get_bits ins 19 16) (get_bits ins 15 12)
            (get_bit ins 20) shift_value carry)
      else pure tt
  pure 0

unfoldable pub arm_data_processing_immediate_msr : ℕ → Act ℕ
arm_data_processing_immediate_msr ins = do
  let rotate_imm = get_bits ins 11 8
  shift_value ← lift (ror (get_bits ins 7 0) (u8 (rotate_imm * 2)))
  c ← gets get_c_flag
  let carry = if rotate_imm == 0 then c else get_bit shift_value 31
  passed ← gets (λ p. cond_verifier p (get_bits ins 31 28))
  if nonzero passed
      then switch_opcode (get_bits ins 24 21) (get_bits ins 19 16) (get_bits ins 15 12)
          (get_bit ins 20) shift_value carry
      else pure tt
  pure 0
