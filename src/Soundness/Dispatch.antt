-- ===== src/Soundness/Dispatch.antt =====
-- The invariant over the data-processing instructions.
use uga_prog.Base.{ℕ, Bool, Option, none, some}
use uga_prog.Base.Keeps.{Keeps, keeps_rules}
use uga_prog.Core.Sound.{IsSound, core_rules}
use uga_prog.Soundness.Operand.{Keeps-shifter_value_calculator}
use uga_prog.Soundness.Operations.{operation_rules}
use uga_prog.DataProcessing.Dispatch.{
  switch_opcode, demand, arm_data_processing_shift, arm_data_processing_immediate_msr,
}

module _ {size : ℕ} {big : Bool} where
  pub Keeps-demand : (v : Option ℕ) → Keeps (IsSound size big) (demand v)
  Keeps-demand none = search keeps_rules
  Keeps-demand (some v) = search keeps_rules

  pub Keeps-switch_opcode : (a b c d e f : ℕ) → Keeps (IsSound size big) (switch_opcode a b c d e f)
  unfolding switch_opcode
  Keeps-switch_opcode a b c d e f = search operation_rules depth 20

  pub Keeps-arm_data_processing_shift :
      (a : ℕ) → Keeps (IsSound size big) (arm_data_processing_shift a)
  unfolding arm_data_processing_shift
  Keeps-arm_data_processing_shift a =
      search (core_rules, Keeps-shifter_value_calculator, Keeps-demand, Keeps-switch_opcode) depth
        12

  pub Keeps-arm_data_processing_immediate_msr :
      (a : ℕ) → Keeps (IsSound size big) (arm_data_processing_immediate_msr a)
  unfolding arm_data_processing_immediate_msr
  Keeps-arm_data_processing_immediate_msr a =
      search (core_rules, Keeps-shifter_value_calculator, Keeps-demand, Keeps-switch_opcode) depth
        12
