-- ===== src/Instruction.antt =====
-- arm_simulator-1.4/arm_instruction.c: fetch, decode, execute, and the exception of a step.
pub mod Fetch
pub mod Beyond
pub mod Immediate
pub mod PushPop
pub mod Branching
use uga_prog.Base.{ℕ, ◌<<<◌, bit_or, ◌&&◌, ◌||◌, Option, none, some, ◌==◌, if◌then◌else◌}
use uga_prog.Base.Outcome.{pure, gets, ◌>>=◌, ◌>>◌}
use uga_prog.Constants.{undefined_instruction}
use uga_prog.Util.{get_bit, get_bits}
use uga_prog.Core.{Act, arm_fetch}
use uga_prog.Exception.{arm_exception}
use uga_prog.Condition.{cond_verifier, nonzero}
use uga_prog.DataProcessing.Dispatch.{arm_data_processing_shift, arm_data_processing_immediate_msr}
use uga_prog.LoadStore.Single.{arm_load_store, arm_coprocessor_load_store}
use uga_prog.LoadStore.Multiple.{arm_load_store_multiple}
use uga_prog.Branch.{arm_branch, arm_coprocessor_others_swi, arm_miscellaneous}

-- Bits 24, 23, 20, 7 and 4 side by side.
unfoldable pub group_key : ℕ → ℕ
group_key ins =
    bit_or (bit_or (bit_or (get_bits ins 24 23 <<< 3) (get_bit ins 20 <<< 2)) (get_bit ins 7 <<< 1))
      (get_bit ins 4)

-- Group 0b000.
unfoldable pub execute_register : ℕ → Act ℕ
execute_register ins =
    let key = group_key ins in
    if (key == 0b10000) || (key == 0b10010) || (key == 0b10001)
    then arm_miscellaneous ins
    else if (key == 0b00000) || (key == 0b00001)
    then arm_data_processing_shift ins
    else if nonzero (get_bit ins 4) && nonzero (get_bit ins 7)
    then arm_load_store ins
    else arm_data_processing_shift ins

-- Group 0b001.
unfoldable pub execute_immediate : ℕ → Act ℕ
execute_immediate ins =
    let key = get_bits ins 24 20 in
    if (key == 0b10000) || (key == 0b10100)
    then pure undefined_instruction
    else if (key == 0b10010) || (key == 0b10110)
    then pure undefined_instruction
    else arm_data_processing_immediate_msr ins

unfoldable pub decode : ℕ → Act ℕ
decode ins =
    let group = get_bits ins 27 25 in
    if group == 0b000
    then execute_register ins
    else if group == 0b001
    then execute_immediate ins
    else if group == 0b010
    then arm_load_store ins
    else if group == 0b011
    then (if get_bit ins 4 == 0 then arm_load_store ins else pure undefined_instruction)
    else if group == 0b100
    then arm_load_store_multiple ins
    else if group == 0b101
    then arm_branch ins
    else if group == 0b110
    then arm_coprocessor_load_store ins
    else if group == 0b111
    then arm_coprocessor_others_swi ins
    else pure undefined_instruction

-- An instruction whose condition fails gives 1, as a failed fetch does.
unfoldable pub execute : ℕ → Act ℕ
execute ins = do
  passed ← gets (λ p. cond_verifier p (get_bits ins 31 28))
  if nonzero passed then decode ins else pure 1

unfoldable pub execute_fetched : Option ℕ → Act ℕ
execute_fetched none = pure 1
execute_fetched (some ins) = execute ins

unfoldable pub arm_execute_instruction : Act ℕ
arm_execute_instruction = do fetched ← arm_fetch; execute_fetched fetched

unfoldable pub arm_step : Act ℕ
arm_step = do
  result ← arm_execute_instruction
  if nonzero result then arm_exception result else pure tt
  pure result
