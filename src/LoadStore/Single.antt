-- ===== src/LoadStore/Single.antt =====
-- `arm_load_store`: one word, byte or half.
use uga_prog.Base.{ℕ, Bool, ◌&&◌, Option, u8, u16, ◌==◌, if◌then◌else◌}
use uga_prog.Base.Outcome.{pure, ◌>>=◌, ◌>>◌}
use uga_prog.Constants.{undefined_instruction}
use uga_prog.Util.{get_bit, get_bits}
use uga_prog.Core.{
  Act, arm_read_register, arm_read_usr_register, arm_write_register, arm_write_usr_register,
  arm_read_byte, arm_read_half, arm_read_word, arm_write_byte, arm_write_half, arm_write_word,
}
use uga_prog.Condition.{nonzero}
use uga_prog.DataProcessing.Dispatch.{demand}
use uga_prog.LoadStore.Address.{address_calculator, misc_address_calculator}

-- `!P && W` asks for the user's register.
unfoldable pub write_rd : Bool → ℕ → ℕ → Act ℕ
write_rd user rd value = do
  if user then arm_write_usr_register rd value else arm_write_register rd value
  pure 0

unfoldable pub read_rd : Bool → ℕ → Act ℕ
read_rd user rd = if user then arm_read_usr_register rd else arm_read_register rd

-- The result of the read is overwritten by that of the write, and what a failed read leaves in
-- the local variable is written to the register.
unfoldable pub load : Act (Option ℕ) → Bool → ℕ → Act ℕ
load read user rd = do result ← read; value ← demand result; write_rd user rd value

unfoldable pub word_or_byte : Bool → ℕ → ℕ → ℕ → ℕ → Act ℕ
word_or_byte user b l rd address =
    if b == 0
    then (if nonzero l
        then load (arm_read_word address) user rd
        else (do word ← read_rd user rd; arm_write_word address word))
    else (if nonzero l
        then load (arm_read_byte address) user rd
        else (do byte ← read_rd user rd; arm_write_byte address (u8 byte)))

unfoldable pub half_access : Bool → ℕ → ℕ → ℕ → Act ℕ
half_access user l rd address =
    if nonzero l
    then load (arm_read_half address) user rd
    else (do half ← read_rd user rd; arm_write_half address (u16 half))

-- `offset_12` is declared uint8_t, so only eight bits of the offset are kept.
unfoldable pub arm_load_store : ℕ → Act ℕ
arm_load_store ins =
    let cond = get_bits ins 31 28 in
    let i = get_bit ins 25 in
    let p_bit = get_bit ins 24 in
    let u = get_bit ins 23 in
    let w = get_bit ins 21 in
    let l = get_bit ins 20 in
    let b = get_bit ins 22 in
    let rn = get_bits ins 19 16 in
    let rd = get_bits ins 15 12 in
    let offset_12 = u8 (get_bits ins 11 0) in
    let user = (p_bit == 0) && nonzero w in
    if get_bits ins 27 26 == 1
    then (do
      address ← address_calculator offset_12 rn u p_bit w i cond
      word_or_byte user b l rd address)
    else if get_bits ins 27 25 == 0
    then (do
      address ← misc_address_calculator offset_12 rn u b w p_bit cond
      half_access user l rd address)
    else pure 0

unfoldable pub arm_coprocessor_load_store : ℕ → Act ℕ
arm_coprocessor_load_store ins = pure undefined_instruction
