-- ===== src/Soundness/Step.antt =====
-- The invariant over a step of the processor.
use uga_prog.Base.{ℕ, Bool, Option, none, some}
use uga_prog.Base.Keeps.{Keeps, Keeps-pure}
use uga_prog.Core.Sound.{IsSound, core_rules}
use uga_prog.Exception.{arm_exception}
use uga_prog.Branch.{take_branch, arm_branch, arm_coprocessor_others_swi, arm_miscellaneous}
use uga_prog.LoadStore.Single.{arm_coprocessor_load_store}
use uga_prog.Soundness.Dispatch.{
  Keeps-arm_data_processing_shift, Keeps-arm_data_processing_immediate_msr,
}
use uga_prog.Soundness.Transfer.{Keeps-arm_load_store}
use uga_prog.Soundness.Block.{Keeps-arm_load_store_multiple}
use uga_prog.Instruction.{
  execute_register, execute_immediate, decode, execute, execute_fetched, arm_execute_instruction,
  arm_step,
}

module _ {size : ℕ} {big : Bool} where
  pub Keeps-take_branch : (a : ℕ) → Keeps (IsSound size big) (take_branch a)
  unfolding take_branch
  Keeps-take_branch a = search core_rules depth 12

  pub Keeps-arm_branch : (a : ℕ) → Keeps (IsSound size big) (arm_branch a)
  unfolding arm_branch
  Keeps-arm_branch a = search (core_rules, Keeps-take_branch) depth 12

  pub Keeps-arm_coprocessor_others_swi :
      (a : ℕ) → Keeps (IsSound size big) (arm_coprocessor_others_swi a)
  unfolding arm_coprocessor_others_swi
  Keeps-arm_coprocessor_others_swi a = search core_rules depth 12

  pub Keeps-arm_miscellaneous : (a : ℕ) → Keeps (IsSound size big) (arm_miscellaneous a)
  unfolding arm_miscellaneous
  Keeps-arm_miscellaneous a = search core_rules depth 12

  pub Keeps-arm_coprocessor_load_store :
      (a : ℕ) → Keeps (IsSound size big) (arm_coprocessor_load_store a)
  unfolding arm_coprocessor_load_store
  Keeps-arm_coprocessor_load_store a = search core_rules depth 12

  pub Keeps-arm_exception : (a : ℕ) → Keeps (IsSound size big) (arm_exception a)
  unfolding arm_exception
  Keeps-arm_exception a = search core_rules depth 12

  ruleset instruction_rules = (
    core_rules, Keeps-arm_branch, Keeps-arm_coprocessor_others_swi, Keeps-arm_miscellaneous,
    Keeps-arm_coprocessor_load_store, Keeps-arm_load_store, Keeps-arm_load_store_multiple,
    Keeps-arm_data_processing_shift, Keeps-arm_data_processing_immediate_msr,
  )

  pub Keeps-execute_register : (a : ℕ) → Keeps (IsSound size big) (execute_register a)
  unfolding execute_register
  Keeps-execute_register a = search instruction_rules depth 12

  pub Keeps-execute_immediate : (a : ℕ) → Keeps (IsSound size big) (execute_immediate a)
  unfolding execute_immediate
  Keeps-execute_immediate a = search instruction_rules depth 12

  pub Keeps-decode : (a : ℕ) → Keeps (IsSound size big) (decode a)
  unfolding decode
  Keeps-decode a =
      search (instruction_rules, Keeps-execute_register, Keeps-execute_immediate) depth 12

  pub Keeps-execute : (a : ℕ) → Keeps (IsSound size big) (execute a)
  unfolding execute
  Keeps-execute a = search (core_rules, Keeps-decode) depth 12

  Keeps-execute_fetched : (fetched : Option ℕ) → Keeps (IsSound size big) (execute_fetched fetched)
  unfolding execute_fetched
  Keeps-execute_fetched none = Keeps-pure 1
  Keeps-execute_fetched (some ins) = Keeps-execute ins

  pub Keeps-arm_execute_instruction : Keeps (IsSound size big) arm_execute_instruction
  unfolding arm_execute_instruction
  Keeps-arm_execute_instruction = search (core_rules, Keeps-execute_fetched) depth 12

  pub Keeps-arm_step : Keeps (IsSound size big) arm_step
  unfolding arm_step
  Keeps-arm_step = search (core_rules, Keeps-arm_execute_instruction, Keeps-arm_exception) depth 12
