-- ===== src/Soundness/Operand.antt =====
-- The invariant over the shifter.
use uga_prog.Base.{ℕ, Bool}
use uga_prog.Base.Keeps.{Keeps}
use uga_prog.Core.Sound.{IsSound, core_rules}
use uga_prog.Shifter.{
  get_rs_bits, get_rm_bit, lsl_register, lsr_register, asr_register, ror_register, register_shift,
  immediate_shift, shifter_value_calculator,
}

module _ {size : ℕ} {big : Bool} where
  pub Keeps-get_rs_bits : (a b c : ℕ) → Keeps (IsSound size big) (get_rs_bits a b c)
  unfolding get_rs_bits
  Keeps-get_rs_bits a b c = search core_rules depth 12

  pub Keeps-get_rm_bit : (a b : ℕ) → Keeps (IsSound size big) (get_rm_bit a b)
  unfolding get_rm_bit
  Keeps-get_rm_bit a b = search core_rules depth 12

  ruleset bit_rules = (core_rules, Keeps-get_rs_bits, Keeps-get_rm_bit)

  pub Keeps-lsl_register : (a b c : ℕ) → Keeps (IsSound size big) (lsl_register a b c)
  unfolding lsl_register
  Keeps-lsl_register a b c = search bit_rules depth 12

  pub Keeps-lsr_register : (a b c : ℕ) → Keeps (IsSound size big) (lsr_register a b c)
  unfolding lsr_register
  Keeps-lsr_register a b c = search bit_rules depth 12

  pub Keeps-asr_register : (a b c d : ℕ) → Keeps (IsSound size big) (asr_register a b c d)
  unfolding asr_register
  Keeps-asr_register a b c d = search bit_rules depth 12

  pub Keeps-ror_register : (a b c d : ℕ) → Keeps (IsSound size big) (ror_register a b c d)
  unfolding ror_register
  Keeps-ror_register a b c d = search bit_rules depth 12

  pub Keeps-immediate_shift : (a b c d e : ℕ) → Keeps (IsSound size big) (immediate_shift a b c d e)
  unfolding immediate_shift
  Keeps-immediate_shift a b c d e = search bit_rules depth 12

  ruleset shift_rules = (
    bit_rules, Keeps-lsl_register, Keeps-lsr_register, Keeps-asr_register, Keeps-ror_register,
    Keeps-immediate_shift,
  )

  pub Keeps-register_shift : (a b c d : ℕ) → Keeps (IsSound size big) (register_shift a b c d)
  unfolding register_shift
  Keeps-register_shift a b c d = search shift_rules depth 12

  pub Keeps-shifter_value_calculator :
      (a b c d e : ℕ) → Keeps (IsSound size big) (shifter_value_calculator a b c d e)
  unfolding shifter_value_calculator
  Keeps-shifter_value_calculator a b c d e = search (shift_rules, Keeps-register_shift) depth 12
