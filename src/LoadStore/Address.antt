-- ===== src/LoadStore/Address.antt =====
-- `address_calculator` and `misc_address_calculator`.
use uga_prog.Base.{ℕ, ◌<<<◌, bit_or, add32, sub32, ◌==◌, if◌then◌else◌}
use uga_prog.Base.Outcome.{pure, gets, ◌>>=◌, ◌>>◌}
use uga_prog.Util.{get_bit, get_bits}
use uga_prog.Core.{Act, arm_read_register, arm_write_register}
use uga_prog.Condition.{cond_verifier, nonzero}
use uga_prog.Shifter.{shifter_value_calculator}
use uga_prog.DataProcessing.Dispatch.{demand}

-- `U == 1 ? base + offset : base - offset`
abbrev pub offset_by : ℕ → ℕ → ℕ → ℕ
offset_by u base offset = if u == 1 then add32 base offset else sub32 base offset

-- A write of the base register, made if the condition's value passes the test.
unfoldable pub write_back : ℕ → ℕ → Act (Unit {0}) → Act (Unit {0})
write_back cond wanted write = do
  passed ← gets (λ p. cond_verifier p cond)
  if (if wanted == 0 then nonzero passed else passed == wanted) then write else pure tt

-- The conditions of the source are `if(cond)` and `cond == 1`.
abbrev pub any : ℕ
any = 0

abbrev pub one : ℕ
one = 1

-- The operand of the scaled modes, from the low twelve bits of the instruction.
unfoldable pub scaled_operand : ℕ → Act ℕ
scaled_operand offset_12 = do
  operand ←
      shifter_value_calculator (get_bit offset_12 4) (get_bits offset_12 6 5)
        (get_bits offset_12 11 6) (get_bits offset_12 3 0) (get_bits offset_12 11 7)
  demand operand.shift_value

-- Post-indexed: the base is the address, and is written back; not so in the scaled form.
unfoldable pub post_indexed : ℕ → ℕ → ℕ → ℕ → ℕ → Act ℕ
post_indexed offset_12 rn u bit_25 cond =
    if bit_25 == 0
    then (do
      address ← arm_read_register rn
      write_back cond any
          (do base ← arm_read_register rn; arm_write_register rn (offset_by u base offset_12))
      pure address)
    else if get_bits offset_12 11 4 == 0
    then (do
      address ← arm_read_register rn
      write_back cond any (do
        base ← arm_read_register rn
        offset ← arm_read_register (get_bits offset_12 3 0)
        arm_write_register rn (offset_by u base offset))
      pure address)
    else (do
      shift_value ← scaled_operand offset_12
      base ← arm_read_register rn
      pure (offset_by u base shift_value))

-- Base and offset, with nothing written.
unfoldable pub plain_offset : ℕ → ℕ → ℕ → ℕ → Act ℕ
plain_offset offset_12 rn u bit_25 =
    if bit_25 == 0
    then (do base ← arm_read_register rn; pure (offset_by u base offset_12))
    else if get_bits offset_12 11 4 == 0
    then (do
      base ← arm_read_register rn
      offset ← arm_read_register (get_bits offset_12 3 0)
      pure (offset_by u base offset))
    else (do
      shift_value ← scaled_operand offset_12
      base ← arm_read_register rn
      pure (offset_by u base shift_value))

-- Pre-indexed: the address is written back.
unfoldable pub pre_indexed : ℕ → ℕ → ℕ → ℕ → ℕ → Act ℕ
pre_indexed offset_12 rn u bit_25 cond = do
  address ← plain_offset offset_12 rn u bit_25
  write_back cond (if bit_25 == 0 then any else one) (arm_write_register rn address)
  pure address

unfoldable pub address_calculator : ℕ → ℕ → ℕ → ℕ → ℕ → ℕ → ℕ → Act ℕ
address_calculator offset_12 rn u p_bit w bit_25 cond =
    if p_bit == 0
    then (if w == 0 then post_indexed offset_12 rn u bit_25 cond else pure 0)
    else if w == 0
    then plain_offset offset_12 rn u bit_25
    else pre_indexed offset_12 rn u bit_25 cond

-- With U clear the immediate forms use the base as it is.
abbrev pub offset_if_up : ℕ → ℕ → ℕ → ℕ
offset_if_up u base offset = if u == 1 then add32 base offset else base

-- `arm_write_register` as an expression: it writes Rn, and its value is 0.
unfoldable pub write_offset : ℕ → ℕ → ℕ → Act ℕ
write_offset rn u rm = do
  base ← arm_read_register rn
  offset ← arm_read_register rm
  arm_write_register rn (offset_by u base offset)
  pure 0

unfoldable pub misc_immediate : ℕ → ℕ → ℕ → ℕ → ℕ → ℕ → Act ℕ
misc_immediate offset_8 rn u w p_bit cond =
    if w == 0
    then (if p_bit == 0
        then (do
          address ← arm_read_register rn
          write_back cond any
              (do base ← arm_read_register rn; arm_write_register rn (offset_by u base offset_8))
          pure address)
        else (do base ← arm_read_register rn; pure (offset_if_up u base offset_8)))
    else (do
      base ← arm_read_register rn
      let address = offset_if_up u base offset_8
      write_back cond one (arm_write_register rn address)
      pure address)

unfoldable pub misc_register : ℕ → ℕ → ℕ → ℕ → ℕ → ℕ → Act ℕ
misc_register rm rn u w p_bit cond =
    if w == 1
    then (do
      address ← write_offset rn u rm
      write_back cond one (arm_write_register rn address)
      pure address)
    else if p_bit == 0
    then (do
      address ← arm_read_register rn
      write_back cond any (do
        base ← arm_read_register rn
        offset ← arm_read_register rm
        arm_write_register rn (offset_by u base offset))
      pure address)
    else write_offset rn u rm

unfoldable pub misc_address_calculator : ℕ → ℕ → ℕ → ℕ → ℕ → ℕ → ℕ → Act ℕ
misc_address_calculator offset_12 rn u b w p_bit cond =
    if b == 1
    then misc_immediate (bit_or (get_bits offset_12 11 8 <<< 4) (get_bits offset_12 3 0)) rn u w
        p_bit cond
    else misc_register (get_bits offset_12 3 0) rn u w p_bit cond
