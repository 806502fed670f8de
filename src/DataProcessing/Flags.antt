-- ===== src/DataProcessing/Flags.antt =====
-- The flags that an operation computes, and `update_flags`.
use uga_prog.Base.{
  ℕ, ◌<<<◌, ◌>>>◌, bit_and, bit_or, ◌&&◌, not, u8, u32, not32, ltb, ◌==◌, if◌then◌else◌,
}
use uga_prog.Base.Outcome.{pure, gets, ◌>>=◌, ◌>>◌}
use uga_prog.Constants.{n_bit, z_bit, c_bit, v_bit}
use uga_prog.Util.{get_bit}
use uga_prog.Core.{
  Act, arm_current_mode_has_spsr, arm_read_register, arm_read_cpsr, arm_read_spsr, arm_write_cpsr,
}
use uga_prog.Condition.{nonzero, to_int}

-- The tags of `overflowFrom`.
abbrev pub add : ℕ
add = 1

abbrev pub sub : ℕ
sub = 0

unfoldable pub carry_from : ℕ → ℕ
carry_from res = get_bit (res >>> 32) 0

unfoldable pub overflow_from : ℕ → ℕ → ℕ → ℕ → ℕ
overflow_from operande1 operande2 res operation =
    if operation == add
    then to_int (
        (get_bit operande1 31 == get_bit operande2 31)
        && not (get_bit operande1 31 == get_bit res 31))
    else if operation == sub
    then to_int (
        not (get_bit operande1 31 == get_bit operande2 31)
        && not (get_bit operande1 31 == get_bit res 31))
    else 0

-- `res < 0` on a uint32_t.
unfoldable pub borrow_from : ℕ → ℕ
borrow_from res = to_int (ltb res 0)

-- `z ? cpsr | 1 << i : cpsr & ~(1 << i)`
abbrev pub with_flag : ℕ → ℕ → ℕ → ℕ
with_flag i flag cpsr =
    if nonzero flag then bit_or cpsr (u32 (1 <<< i)) else bit_and cpsr (not32 (1 <<< i))

unfoldable pub update_flag : ℕ → ℕ → Act (Unit {0})
update_flag i flag = do cpsr ← gets arm_read_cpsr; arm_write_cpsr (with_flag i flag cpsr)

unfoldable pub update_flags : ℕ → ℕ → ℕ → ℕ → Act (Unit {0})
update_flags z n c v = do
  update_flag z_bit (u8 z)
  update_flag n_bit (u8 n)
  update_flag c_bit (u8 c)
  update_flag v_bit (u8 v)

-- `rd == 0 ? 1 : 0`, on the number of the register.
abbrev pub zero_flag : ℕ → ℕ
zero_flag rd = if rd == 0 then 1 else 0

unfoldable pub restore_cpsr : Act (Unit {0})
restore_cpsr = do
  has_spsr ← gets arm_current_mode_has_spsr
  if has_spsr then (do spsr ← arm_read_spsr; arm_write_cpsr spsr) else pure tt

-- What each operation does after its write: nothing without `s`, and with it the flags, unless
-- the number of the destination is the value of the pc.
unfoldable pub after_write : ℕ → ℕ → Act (Unit {0}) → Act (Unit {0})
after_write rd s set_flags =
    if s == 1
    then (do pc ← arm_read_register 15; if rd == pc then restore_cpsr else set_flags)
    else pure tt
