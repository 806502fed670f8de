-- ===== src/Tests/Steps.antt =====
-- Runs of instructions and steps.
use uga_prog.Base.{
  ℕ, ◌^◌, ◌≤◌, ◌<◌, ◌≡◌, ◌↔◌, ◌⊎◌, inl, refl, arith, true, false, add32, sub32, ◌==◌, if◌then◌else◌,
}
use uga_prog.Base.Outcome.{Stop, ok, stop, ◌>>=◌}
use uga_prog.Util.{get_bit, get_bits}
use uga_prog.Memory.{memory_read_word}
use uga_prog.Registers.{read_cpsr, read_register, write_register, write_cpsr, write_usr_register}
use uga_prog.Core.{
  Core, seen_by, count_cycle, arm_fetch, arm_read_cpsr, arm_read_register, arm_write_register,
  arm_write_cpsr, arm_write_usr_register,
}
use uga_prog.Core.User.{put_reg}
use uga_prog.Core.Sound.{IsSound}
use uga_prog.Exception.{arm_exception}
use uga_prog.Condition.{get_z_flag, get_c_flag, cond_verifier, nonzero}
use uga_prog.DataProcessing.Dispatch.{switch_opcode}
use uga_prog.DataProcessing.Alu.{switch_opcode_manual, code_alu}
use uga_prog.LoadStore.Multiple.{arm_load_store_multiple}
use uga_prog.LoadStore.Store.{store_multiple_returns}
use uga_prog.LoadStore.Load.{load_multiple_stops}
use uga_prog.Branch.{branch_offset}
use uga_prog.Branch.Target.{branch_offset_iff, manual_target}
use uga_prog.Instruction.{arm_step, arm_execute_instruction, execute_fetched, execute}
use uga_prog.Instruction.Beyond.{arm_step_beyond, arm_step_outside, after_reset, fetched}
use uga_prog.Soundness.Reachable.{
  Reachable, created, stepped, new_core, arm_create_lem, Reachable-IsSound,
}
use uga_prog.Tests.Machine.{counting, counting-IsBytes, machine, tripled}

machine-fits : (i : ℕ) → (machine 8 0x4000_0010).reg.reg i < 2 ^ 32
machine-fits i = ground arith

-- SBC r2, r1, #5
switch_opcode_manual_example :
    switch_opcode 6 1 2 0 5 0 (machine 8 0x10)
    ≡ ok (tt, put_reg (machine 8 0x10) 2 (code_alu 6 (seen_by 1 3) 5 (get_c_flag (machine 8 0x10))))
switch_opcode_manual_example =
    switch_opcode_manual (machine 8 0x10) 6 1 2 5 0 refl (omega arith) (omega arith) (omega arith)
      (inl (omega arith))

branch_offset_iff_example :
    ((if nonzero (get_bit 2 23) then sub32 100 (branch_offset 2) else add32 100 (branch_offset 2))
      ≡ manual_target 100 2)
    ↔ ((◌≡◌ {A = ℕ} 2 0) ⊎ (2 ^ 23 ≤ 2))
branch_offset_iff_example = branch_offset_iff 100 2 (omega arith)

-- STMIA r1, {r0, r2}
store_always : nonzero (cond_verifier (machine 8 0x4000_0010) (get_bits 0xE881_0005 31 28)) ≡ true
unfolding cond_verifier get_bits
store_always = refl

store_bit : get_bit 0xE881_0005 20 ≡ 0
unfolding get_bit
store_bit = refl

store_multiple_returns_example :
    (p' : Core) × (arm_load_store_multiple 0xE881_0005 (machine 8 0x4000_0010) ≡ (
      if get_bit (get_bits 0xE881_0005 15 0) 15 == 0
      then ok (0, p')
      else stop Stop.assertion_failed))
store_multiple_returns_example =
    store_multiple_returns 0xE881_0005 (machine 8 0x4000_0010) refl machine-fits store_always
      store_bit

-- LDMIA r1, {r0, r2}
load_always : nonzero (cond_verifier (machine 8 0x4000_0010) (get_bits 0xE891_0005 31 28)) ≡ true
unfolding cond_verifier get_bits
load_always = refl

load_bit : get_bit 0xE891_0005 20 ≡ 1
unfolding get_bit
load_bit = refl

load_no_pc : get_bit (get_bits 0xE891_0005 15 0) 15 ≡ 0
unfolding get_bit get_bits
load_no_pc = refl

load_multiple_stops_example :
    (s : Stop) × (arm_load_store_multiple 0xE891_0005 (machine 8 0x4000_0010) ≡ stop s)
load_multiple_stops_example =
    load_multiple_stops 0xE891_0005 (machine 8 0x4000_0010) refl machine-fits load_always load_bit
      load_no_pc

arm_step_beyond_example : arm_step (machine 8 0x4000_0010) ≡ (
    if get_z_flag (machine 8 0x4000_0010) == 0
    then ok (1, after_reset (fetched (machine 8 0x4000_0010)))
    else ok (0, put_reg (fetched (machine 8 0x4000_0010)) 0 0))
arm_step_beyond_example =
    arm_step_beyond (machine 8 0x4000_0010) refl (omega arith) refl (omega arith) (omega arith)

arm_step_outside_example :
    arm_step (machine 64 0x10) ≡ ok (1, after_reset (fetched (machine 64 0x10)))
arm_step_outside_example = arm_step_outside (machine 64 0x10) refl (omega arith) refl (omega arith)

tripled-fits : (i : ℕ) → tripled 8 0x10 i < 2 ^ 32
tripled-fits i = ground arith

pub start-Reachable : Reachable 64 false (new_core (tripled 8 0x10) (counting false))
start-Reachable =
    created 7 (tripled 8 0x10) (counting false) _ tripled-fits counting-IsBytes
      (arm_create_lem 7 (tripled 8 0x10) (counting false))

-- The word at 0 is an instruction of condition EQ, and Z is clear.
start_step :
    arm_step (new_core (tripled 8 0x10) (counting false))
    ≡ ok (1, after_reset (fetched (new_core (tripled 8 0x10) (counting false))))
unfolding arm_step ◌>>=◌ arm_execute_instruction arm_fetch arm_read_register read_register
    arm_write_register write_register count_cycle new_core execute_fetched execute cond_verifier
    get_z_flag arm_exception arm_write_cpsr write_cpsr arm_write_usr_register write_usr_register
    arm_read_cpsr read_cpsr get_bit get_bits memory_read_word seen_by
start_step = refl

Reachable-IsSound_example :
    IsSound 64 false (after_reset (fetched (new_core (tripled 8 0x10) (counting false))))
Reachable-IsSound_example =
    Reachable-IsSound (after_reset (fetched (new_core (tripled 8 0x10) (counting false))))
      (stepped _ _ 1 start-Reachable start_step)
