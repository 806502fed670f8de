-- ===== src/Soundness/Transfer.antt =====
-- The invariant over loads and stores of one datum.
use uga_prog.Base.{ℕ, Bool, Option}
use uga_prog.Base.Keeps.{Keeps}
use uga_prog.Core.{Act}
use uga_prog.Core.Sound.{IsSound, core_rules}
use uga_prog.Soundness.Operand.{Keeps-shifter_value_calculator}
use uga_prog.Soundness.Dispatch.{Keeps-demand}
use uga_prog.LoadStore.Address.{
  write_back, scaled_operand, post_indexed, plain_offset, pre_indexed, address_calculator,
  write_offset, misc_immediate, misc_register, misc_address_calculator,
}
use uga_prog.LoadStore.Single.{write_rd, read_rd, load, word_or_byte, half_access, arm_load_store}

module _ {size : ℕ} {big : Bool} where
  Keeps-write_back :
      (cond wanted : ℕ) (write : Act (Unit {0}))
      → Keeps (IsSound size big) write
      → Keeps (IsSound size big) (write_back cond wanted write)
  unfolding write_back
  Keeps-write_back cond wanted write k = search core_rules depth 12

  pub Keeps-scaled_operand : (a : ℕ) → Keeps (IsSound size big) (scaled_operand a)
  unfolding scaled_operand
  Keeps-scaled_operand a =
      search (core_rules, Keeps-shifter_value_calculator, Keeps-demand) depth 12

  ruleset address_rules = (core_rules, Keeps-write_back, Keeps-scaled_operand)

  pub Keeps-post_indexed : (a b c d e : ℕ) → Keeps (IsSound size big) (post_indexed a b c d e)
  unfolding post_indexed
  Keeps-post_indexed a b c d e = search address_rules depth 12

  pub Keeps-plain_offset : (a b c d : ℕ) → Keeps (IsSound size big) (plain_offset a b c d)
  unfolding plain_offset
  Keeps-plain_offset a b c d = search address_rules depth 12

  pub Keeps-pre_indexed : (a b c d e : ℕ) → Keeps (IsSound size big) (pre_indexed a b c d e)
  unfolding pre_indexed
  Keeps-pre_indexed a b c d e = search (address_rules, Keeps-plain_offset) depth 12

  pub Keeps-address_calculator :
      (a b c d e f g : ℕ) → Keeps (IsSound size big) (address_calculator a b c d e f g)
  unfolding address_calculator
  Keeps-address_calculator a b c d e f g =
      search (address_rules, Keeps-plain_offset, Keeps-pre_indexed, Keeps-post_indexed) depth 12

  pub Keeps-write_offset : (a b c : ℕ) → Keeps (IsSound size big) (write_offset a b c)
  unfolding write_offset
  Keeps-write_offset a b c = search core_rules depth 12

  pub Keeps-misc_immediate :
      (a b c d e f : ℕ) → Keeps (IsSound size big) (misc_immediate a b c d e f)
  unfolding misc_immediate
  Keeps-misc_immediate a b c d e f = search address_rules depth 12

  pub Keeps-misc_register : (a b c d e f : ℕ) → Keeps (IsSound size big) (misc_register a b c d e f)
  unfolding misc_register
  Keeps-misc_register a b c d e f = search (address_rules, Keeps-write_offset) depth 12

  pub Keeps-misc_address_calculator :
      (a b c d e f g : ℕ) → Keeps (IsSound size big) (misc_address_calculator a b c d e f g)
  unfolding misc_address_calculator
  Keeps-misc_address_calculator a b c d e f g =
      search (address_rules, Keeps-misc_immediate, Keeps-misc_register) depth 12

  Keeps-write_rd : (user : Bool) (a b : ℕ) → Keeps (IsSound size big) (write_rd user a b)
  unfolding write_rd
  Keeps-write_rd user a b = search core_rules depth 12

  Keeps-read_rd : (user : Bool) (a : ℕ) → Keeps (IsSound size big) (read_rd user a)
  unfolding read_rd
  Keeps-read_rd user a = search core_rules depth 12

  Keeps-load :
      (read : Act (Option ℕ)) (user : Bool) (rd : ℕ)
      → Keeps (IsSound size big) read
      → Keeps (IsSound size big) (load read user rd)
  unfolding load
  Keeps-load read user rd k = search (core_rules, Keeps-demand, Keeps-write_rd) depth 12

  ruleset single_rules = (core_rules, Keeps-load, Keeps-read_rd)

  Keeps-word_or_byte :
      (user : Bool) (a b c d : ℕ) → Keeps (IsSound size big) (word_or_byte user a b c d)
  unfolding word_or_byte
  Keeps-word_or_byte user a b c d = search single_rules depth 12

  Keeps-half_access : (user : Bool) (a b c : ℕ) → Keeps (IsSound size big) (half_access user a b c)
  unfolding half_access
  Keeps-half_access user a b c = search single_rules depth 12

  pub Keeps-arm_load_store : (ins : ℕ) → Keeps (IsSound size big) (arm_load_store ins)
  unfolding arm_load_store
  Keeps-arm_load_store ins =
      search
        (
          core_rules, Keeps-address_calculator, Keeps-misc_address_calculator, Keeps-word_or_byte,
          Keeps-half_access,
        )
        depth 12
