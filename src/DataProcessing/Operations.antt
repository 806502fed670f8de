-- ===== src/DataProcessing/Operations.antt =====
-- One function for each operation, named as in the source.
use uga_prog.Base.{ℕ, ◌+◌, bit_and, bit_or, bit_xor, add32, sub32, not32, ◌==◌, not}
use uga_prog.Base.Outcome.{gets, ◌>>=◌, ◌>>◌}
use uga_prog.Util.{get_bit}
use uga_prog.Core.{Act, arm_read_register, arm_write_register}
use uga_prog.Condition.{get_c_flag, get_v_flag, nonzero, to_int}
use uga_prog.DataProcessing.Flags.{
  add, sub, carry_from, overflow_from, borrow_from, update_flags, zero_flag, after_write,
}

-- The flags of a logical operation: V stays, and C is what the shifter put out.
unfoldable pub logical_flags : ℕ → ℕ → ℕ → Act (Unit {0})
logical_flags rd reg_new shifter_carry_out = do
  v ← gets get_v_flag
  update_flags (zero_flag rd) (get_bit reg_new 31) shifter_carry_out v

unfoldable pub teq_process : ℕ → ℕ → ℕ → ℕ → Act (Unit {0})
teq_process rn rd shift_value shifter_carry_out = do
  a ← arm_read_register rn
  let alu_out = bit_xor a shift_value
  arm_write_register rd alu_out
  logical_flags rd alu_out shifter_carry_out

unfoldable pub tst_process : ℕ → ℕ → ℕ → ℕ → Act (Unit {0})
tst_process rn rd shift_value shifter_carry_out = do
  a ← arm_read_register rn
  let alu_out = bit_and a shift_value
  arm_write_register rd alu_out
  logical_flags rd alu_out shifter_carry_out

unfoldable pub and_process : ℕ → ℕ → ℕ → ℕ → ℕ → Act (Unit {0})
and_process rn rd s shift_value shifter_carry_out = do
  a ← arm_read_register rn
  let reg_new = bit_and a shift_value
  arm_write_register rd reg_new
  after_write rd s (logical_flags rd reg_new shifter_carry_out)

unfoldable pub eor_process : ℕ → ℕ → ℕ → ℕ → ℕ → Act (Unit {0})
eor_process rn rd s shift_value shifter_carry_out = do
  a ← arm_read_register rn
  let reg_new = bit_xor a shift_value
  arm_write_register rd reg_new
  after_write rd s (logical_flags rd reg_new shifter_carry_out)

-- The flags of the arithmetic operations read Rn again, after the write.
unfoldable pub sub_flags : ℕ → ℕ → ℕ → ℕ → Act (Unit {0})
sub_flags rn rd shift_value reg_new = do
  a ← arm_read_register rn
  update_flags (zero_flag rd) (get_bit reg_new 31)
      (to_int (not (nonzero (borrow_from (sub32 a shift_value)))))
      (overflow_from a shift_value reg_new sub)

unfoldable pub sub_process : ℕ → ℕ → ℕ → ℕ → Act (Unit {0})
sub_process rn rd shift_value s = do
  a ← arm_read_register rn
  let reg_new = sub32 a shift_value
  arm_write_register rd reg_new
  after_write rd s (sub_flags rn rd shift_value reg_new)

unfoldable pub rsb_flags : ℕ → ℕ → ℕ → ℕ → Act (Unit {0})
rsb_flags rn rd shift_value reg_new = do
  a ← arm_read_register rn
  update_flags (zero_flag rd) (get_bit reg_new 31)
      (to_int (not (nonzero (borrow_from (sub32 shift_value a)))))
      (overflow_from shift_value a reg_new sub)

unfoldable pub rsb_process : ℕ → ℕ → ℕ → ℕ → Act (Unit {0})
rsb_process rn rd shift_value s = do
  a ← arm_read_register rn
  let reg_new = sub32 shift_value a
  arm_write_register rd reg_new
  after_write rd s (rsb_flags rn rd shift_value reg_new)

unfoldable pub add_flags : ℕ → ℕ → ℕ → ℕ → Act (Unit {0})
add_flags rn rd shift_value reg_new = do
  a ← arm_read_register rn
  update_flags (zero_flag rd) (get_bit reg_new 31) (carry_from (a + shift_value))
      (overflow_from a shift_value reg_new add)

unfoldable pub add_process : ℕ → ℕ → ℕ → ℕ → Act (Unit {0})
add_process rn rd shift_value s = do
  a ← arm_read_register rn
  let reg_new = add32 a shift_value
  arm_write_register rd reg_new
  after_write rd s (add_flags rn rd shift_value reg_new)

-- `shift_value + get_C_flag(p)` is a uint32_t before it is widened.
unfoldable pub adc_flags : ℕ → ℕ → ℕ → ℕ → Act (Unit {0})
adc_flags rn rd shift_value reg_new = do
  a ← arm_read_register rn
  c ← gets get_c_flag
  update_flags (zero_flag rd) (get_bit reg_new 31) (carry_from (a + add32 shift_value c))
      (overflow_from a (add32 shift_value c) reg_new add)

unfoldable pub adc_process : ℕ → ℕ → ℕ → ℕ → Act (Unit {0})
adc_process rn rd shift_value s = do
  a ← arm_read_register rn
  c ← gets get_c_flag
  let reg_new = add32 (add32 a shift_value) c
  arm_write_register rd reg_new
  after_write rd s (adc_flags rn rd shift_value reg_new)

-- `~` is the complement of the int, not of the flag.
unfoldable pub sbc_flags : ℕ → ℕ → ℕ → ℕ → Act (Unit {0})
sbc_flags rn rd shift_value reg_new = do
  a ← arm_read_register rn
  c ← gets get_c_flag
  update_flags (zero_flag rd) (get_bit reg_new 31)
      (to_int (not (nonzero (borrow_from (sub32 (sub32 a shift_value) (not32 c))))))
      (overflow_from a (sub32 shift_value (not32 c)) reg_new sub)

unfoldable pub sbc_process : ℕ → ℕ → ℕ → ℕ → Act (Unit {0})
sbc_process rn rd shift_value s = do
  a ← arm_read_register rn
  c ← gets get_c_flag
  let reg_new = sub32 (sub32 a shift_value) (not32 c)
  arm_write_register rd reg_new
  after_write rd s (sbc_flags rn rd shift_value reg_new)

abbrev pub clear_carry : ℕ → ℕ
clear_carry c = to_int (not (nonzero c))

unfoldable pub rsc_flags : ℕ → ℕ → ℕ → ℕ → Act (Unit {0})
rsc_flags rn rd shift_value reg_new = do
  a ← arm_read_register rn
  c ← gets get_c_flag
  update_flags (zero_flag rd) (get_bit reg_new 31)
      (to_int (not (nonzero (borrow_from (sub32 (sub32 shift_value a) (clear_carry c))))))
      (overflow_from shift_value (sub32 a (clear_carry c)) reg_new sub)

unfoldable pub rsc_process : ℕ → ℕ → ℕ → ℕ → Act (Unit {0})
rsc_process rn rd shift_value s = do
  a ← arm_read_register rn
  c ← gets get_c_flag
  let reg_new = sub32 (sub32 shift_value a) (clear_carry c)
  arm_write_register rd reg_new
  after_write rd s (rsc_flags rn rd shift_value reg_new)

unfoldable pub orr_process : ℕ → ℕ → ℕ → ℕ → ℕ → Act (Unit {0})
orr_process rn rd s shift_value shifter_carry_out = do
  a ← arm_read_register rn
  let reg_new = bit_or a shift_value
  arm_write_register rd reg_new
  after_write rd s (logical_flags rd reg_new shifter_carry_out)

unfoldable pub mov_process : ℕ → ℕ → ℕ → ℕ → Act (Unit {0})
mov_process rd s shift_value shifter_carry_out = do
  arm_write_register rd shift_value
  after_write rd s (logical_flags rd shift_value shifter_carry_out)

unfoldable pub bic_process : ℕ → ℕ → ℕ → ℕ → ℕ → Act (Unit {0})
bic_process rn rd s shift_value shifter_carry_out = do
  a ← arm_read_register rn
  let reg_new = bit_and a (not32 shift_value)
  arm_write_register rd reg_new
  after_write rd s (logical_flags rd reg_new shifter_carry_out)

unfoldable pub mvn_process : ℕ → ℕ → ℕ → ℕ → Act (Unit {0})
mvn_process rd s shift_value shifter_carry_out = do
  let reg_new = not32 shift_value
  arm_write_register rd reg_new
  after_write rd s (logical_flags rd reg_new shifter_carry_out)

-- The flags of the comparisons: Z is that of the result, and Rn is read again after the write.
unfoldable pub cmp_process : ℕ → ℕ → Act (Unit {0})
cmp_process rn shift_value = do
  a ← arm_read_register rn
  let alu_out = sub32 a shift_value
  arm_write_register rn alu_out
  b ← arm_read_register rn
  update_flags (to_int (alu_out == 0)) (get_bit alu_out 31)
      (to_int (not (nonzero (borrow_from (sub32 b shift_value)))))
      (overflow_from b shift_value alu_out sub)

unfoldable pub cmn_process : ℕ → ℕ → Act (Unit {0})
cmn_process rn shift_value = do
  a ← arm_read_register rn
  let alu_out = add32 a shift_value
  arm_write_register rn alu_out
  b ← arm_read_register rn
  update_flags (to_int (alu_out == 0)) (get_bit alu_out 31) (carry_from (b + shift_value))
      (overflow_from b shift_value alu_out add)
