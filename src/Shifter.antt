-- ===== src/Shifter.antt =====
-- `shifter_value_calculator` of arm_simulator-1.4/cond_shift_calculator.c, with the two accessors
-- of arm_data_processing.c that it calls.
pub mod Carry
pub mod ByRegister
use uga_prog.Base.{ℕ, ◌-◌, ◌<<<◌, ◌>>>◌, Option, none, some, u8, u32, ltb, ◌==◌, if◌then◌else◌}
use uga_prog.Base.Outcome.{pure, lift, gets, ◌>>=◌}
use uga_prog.Constants.{lsl, lsr, asr_op, ror_op}
use uga_prog.Util.{get_bit, get_bits, asr, ror}
use uga_prog.Core.{Act, arm_read_register}
use uga_prog.Condition.{get_c_flag, nonzero}

-- The two results of a call; `none` is one that the call leaves uninitialised.
pub record Shifted : Type 0 where
  pub shift_value : Option ℕ
  pub shifter_carry_out : Option ℕ

abbrev pub shifted : ℕ → ℕ → Act Shifted
shifted value carry = pure (record { shift_value = some value; shifter_carry_out = some carry })

-- The number of the register is a uint32_t here and a uint8_t in the core.
unfoldable pub get_rs_bits : ℕ → ℕ → ℕ → Act ℕ
get_rs_bits rs top bottom = do value ← arm_read_register (u8 rs); pure (get_bits value top bottom)

unfoldable pub get_rm_bit : ℕ → ℕ → Act ℕ
get_rm_bit rm ind = do value ← arm_read_register (u8 rm); pure (get_bit value ind)

-- The amount is the low byte of register Rs.
unfoldable pub lsl_register : ℕ → ℕ → ℕ → Act Shifted
lsl_register rm_reg rm_31 rs_7_0 =
    if rs_7_0 == 0
    then (do carry ← gets get_c_flag; shifted rm_reg carry)
    else if ltb rs_7_0 32
    then (do carry ← get_rm_bit rm_reg (rs_7_0 - 1); shifted (u32 (rm_reg <<< rs_7_0)) carry)
    else if rs_7_0 == 32
    then shifted 0 rm_31
    else shifted 0 0

unfoldable pub lsr_register : ℕ → ℕ → ℕ → Act Shifted
lsr_register rm_reg rm_31 rs_7_0 =
    if rs_7_0 == 0
    then (do carry ← gets get_c_flag; shifted rm_reg carry)
    else if ltb rs_7_0 32
    then (do carry ← get_rm_bit rm_reg (rs_7_0 - 1); shifted (rm_reg >>> rs_7_0) carry)
    else if rs_7_0 == 32
    then shifted 0 rm_31
    else shifted 0 0

-- Here the whole of register Rs is compared.
unfoldable pub asr_register : ℕ → ℕ → ℕ → ℕ → Act Shifted
asr_register rm_reg rm_31 rs_reg rs_7_0 =
    if rs_reg == 0
    then (do carry ← gets get_c_flag; shifted rm_reg carry)
    else if ltb rs_reg 32
    then (do
      value ← lift (asr rm_reg (u8 rs_reg))
      carry ← get_rm_bit rm_reg (rs_7_0 - 1)
      shifted value carry)
    else if rm_31 == 1
    then shifted 0 rm_31
    else shifted 0xFFFF_FFFF 0

unfoldable pub ror_register : ℕ → ℕ → ℕ → ℕ → Act Shifted
ror_register rm_reg rm_31 rs_7_0 rs_4_0 =
    if rs_7_0 == 0
    then (do carry ← gets get_c_flag; shifted rm_reg carry)
    else if rs_4_0 == 0
    then shifted rm_reg rm_31
    else (do
      value ← lift (ror rm_reg rs_4_0)
      carry ← get_rm_bit rm_reg (rs_4_0 - 1)
      shifted value carry)

-- `default`: only the value is set.
abbrev pub value_only : ℕ → Act Shifted
value_only value = pure (record { shift_value = some value; shifter_carry_out = none })

unfoldable pub register_shift : ℕ → ℕ → ℕ → ℕ → Act Shifted
register_shift rm_reg rm_31 shift_op rs = do
  rs_reg ← arm_read_register rs
  rs_7_0 ← get_rs_bits rs 7 0
  rs_4_0 ← get_rs_bits rs 4 0
  if shift_op == lsl
      then lsl_register rm_reg rm_31 rs_7_0
      else if shift_op == lsr
      then lsr_register rm_reg rm_31 rs_7_0
      else if shift_op == asr_op
      then asr_register rm_reg rm_31 rs_reg rs_7_0
      else if shift_op == ror_op
      then ror_register rm_reg rm_31 rs_7_0 rs_4_0
      else value_only rm_reg

-- `Rm`, the number of the register, is what LSL #0, LSR and ASR take for its value.
unfoldable pub immediate_shift : ℕ → ℕ → ℕ → ℕ → ℕ → Act Shifted
immediate_shift rm rm_reg rm_31 shift_op shift_imm =
    if shift_op == lsl
    then (if shift_imm == 0 then shifted rm rm_31 else (do
      carry ← get_rm_bit rm_reg (31 - shift_imm)
      shifted (u32 (rm_reg <<< shift_imm)) carry))
    else if shift_op == lsr
    then (if shift_imm == 0
        then shifted 0 rm_31
        else (do carry ← get_rm_bit rm_reg (shift_imm - 1); shifted (rm >>> shift_imm) carry))
    else if shift_op == asr_op
    then (if shift_imm == 0
        then (do sign ← get_rm_bit rm 31; shifted (if sign == 0 then 0 else 0xFFFF_FFFF) rm_31)
        else (do
          value ← lift (asr rm shift_imm)
          carry ← get_rm_bit rm_reg (shift_imm - 1)
          shifted value carry))
    else if shift_op == ror_op
    then (if shift_imm == 0
        then (do
          carry ← get_rm_bit rm_reg 0
          pure (record { shift_value = none; shifter_carry_out = some carry }))
        else (do
          value ← lift (ror rm_reg shift_imm)
          carry ← get_rm_bit rm_reg (shift_imm - 1)
          shifted value carry))
    else value_only rm_reg

unfoldable pub shifter_value_calculator : ℕ → ℕ → ℕ → ℕ → ℕ → Act Shifted
shifter_value_calculator i shift_op rs rm shift_imm = do
  rm_reg ← arm_read_register rm
  rm_31 ← get_rm_bit rm 31
  if nonzero i
      then register_shift rm_reg rm_31 shift_op rs
      else immediate_shift rm rm_reg rm_31 shift_op shift_imm
