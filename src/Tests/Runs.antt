-- ===== src/Tests/Runs.antt =====
-- Runs of whole instructions: an immediate operation, a push and a pop, a comparison.
use uga_prog.Base.{true, ◌≢◌, sub32, ◌≡◌, refl, arith, inl, false, some, ◌==◌, if◌then◌else◌}
use uga_prog.Base.Outcome.{ok}
use uga_prog.Util.{get_bit, get_bits}
use uga_prog.Memory.{
  Memory, memory_read_word, memory_read_byte, memory_get_size, word_loop, word_part,
}
use uga_prog.Core.{Core, seen_by}
use uga_prog.Core.User.{put_reg}
use uga_prog.Condition.{cond_verifier}
use uga_prog.DataProcessing.Dispatch.{switch_opcode}
use uga_prog.DataProcessing.Signed.{Flags, difference_overflows, switch_opcode-signed}
use uga_prog.DataProcessing.Compare.{compared, Leaves, zero_of, switch_opcode-compared}
use uga_prog.Instruction.{arm_step}
use uga_prog.Instruction.Beyond.{fetched}
use uga_prog.Instruction.Immediate.{operated, arm_step_immediate}
use uga_prog.Branch.Target.{linked, code_target}
use uga_prog.Instruction.Branching.{arm_step_branch}
use uga_prog.Printing.{arm_print_state}
use uga_prog.Printing.Screen.{screen, arm_print_state-screen}
use uga_prog.Tests.Machine.{machine}

-- ADD r2, r1, #5, the five rotated right by 8, as the first word of a memory.
abbrev adding : Memory
adding = record {
  bytes = λ i.
      if i == 0
      then 0x05
      else if i == 1
      then 0x24
      else if i == 2
      then 0x81
      else if i == 3
      then 0xE2
      else 0x55;
  taille = 64;
  be = false;
}

abbrev adder : Core
adder = record (machine 0 0x10) { mem = adding }

adding_word : memory_read_word adding 0 ≡ some 0xE281_2405
unfolding memory_read_word word_loop word_part memory_get_size memory_read_byte
adding_word = refl

arm_step_immediate_example : arm_step adder ≡ operated 0xE281_2405 (fetched adder)
unfolding get_bits get_bit cond_verifier
arm_step_immediate_example =
    arm_step_immediate adder 0xE281_2405 refl (omega arith) refl adding_word refl refl
      (inl (omega arith)) refl

-- STRB r5, [r3, #-2]! and LDRB r6, [r3], #2
abbrev pair_core : Core
pair_core = machine 8 0x10

-- CMP r1, #3 where r1 is 3.
switch_opcode-compared_example :
    Leaves 1
      (compared 10 (seen_by 1 3) 3)
      (zero_of 10 0 (compared 10 (seen_by 1 3) 3))
      30
      (switch_opcode 10 1 0 1 3 0)
      (machine 8 0x10)
switch_opcode-compared_example =
    switch_opcode-compared (machine 8 0x10) 10 1 0 1 3 0 30 refl (omega arith) (omega arith)
      (omega arith) (omega arith) (omega arith) (omega arith) (omega arith)

arm_print_state-screen_example :
    arm_print_state (machine 8 0x10) ≡ ok (screen (machine 8 0x10), machine 8 0x10)
arm_print_state-screen_example = arm_print_state-screen (machine 8 0x10) refl

pc_apart : 2 ≢ seen_by 15 8
unfolding seen_by
pc_apart = omega arith

-- SUBS r2, r1, #5 where r1 is 3.
switch_opcode-signed_example :
    Flags 2
      (sub32 (seen_by 1 3) 5)
      true
      (difference_overflows (seen_by 1 3) 5)
      29
      (switch_opcode 2 1 2 1 5 0)
      (machine 8 0x10)
unfolding seen_by
switch_opcode-signed_example =
    switch_opcode-signed (machine 8 0x10) 2 1 2 5 0 29 refl (inl refl) (omega arith) (omega arith)
      (omega arith) pc_apart (omega arith) (omega arith) (omega arith)

-- BL three words back, as the first word of a memory.
abbrev branching : Memory
branching = record adding { bytes = λ i. if i == 0 then 0xFD else if i == 3 then 0xEB else 0xFF }

abbrev brancher : Core
brancher = record (machine 0 0x10) { mem = branching }

branching_word : memory_read_word branching 0 ≡ some 0xEBFF_FFFD
unfolding memory_read_word word_loop word_part memory_get_size memory_read_byte
branching_word = refl

arm_step_branch_example :
    arm_step brancher
    ≡ ok (
      0,
      put_reg
          (linked 0xEBFF_FFFD 8 (fetched brancher))
          15
          (code_target 8 (get_bits 0xEBFF_FFFD 23 0)),
    )
unfolding get_bits cond_verifier
arm_step_branch_example =
    arm_step_branch brancher 0xEBFF_FFFD refl (omega arith) refl branching_word refl refl
