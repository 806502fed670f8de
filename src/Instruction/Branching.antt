-- ===== src/Instruction/Branching.antt =====
-- A step at a branch: the fetch, the condition, the decoding and the branch together.
use uga_prog.Base.{ℕ, ◌%◌, ◌^◌, ◌<◌, ◌≡◌, ◌∙◌, ap, refl, arith, true, some, add32, u32}
use uga_prog.Base.Outcome.{ok, gets}
use uga_prog.Base.Keeps.{bind_ok}
use uga_prog.Util.{get_bits}
use uga_prog.Memory.{memory_read_word}
use uga_prog.Core.{Core, seen_by, count_cycle}
use uga_prog.Core.User.{InUser, put_reg}
use uga_prog.Condition.{cond_verifier, nonzero}
use uga_prog.Branch.{arm_branch}
use uga_prog.Branch.Target.{arm_branch_taken, linked, code_target}
use uga_prog.Instruction.{decode, execute, execute_fetched, arm_step}
use uga_prog.Instruction.Fetch.{seen_pc}
use uga_prog.Instruction.Beyond.{fetched, fetched-InUser, execute_fetch}
use uga_prog.Instruction.Immediate.{cond_verifier-fetched, step_done}

-- An instruction sees the pc 8 past its own address.
seen_ahead :
    (p : Core)
    → p.reg.reg 15 < 2 ^ 32
    → p.reg.reg 15 % 4 ≡ 0
    → seen_by 15 ((fetched p).reg.reg 15) ≡ add32 (p.reg.reg 15) 8
unfolding count_cycle
seen_ahead p fits aligned = seen_pc (u32 (add32 (p.reg.reg 15) 4)) (omega arith) ∙ omega arith

execute_branch :
    (ins : ℕ) (p : Core)
    → get_bits ins 27 25 ≡ 5
    → nonzero (cond_verifier p (get_bits ins 31 28)) ≡ true
    → execute ins p ≡ arm_branch ins p
unfolding execute decode gets
execute_branch ins p group passed = bind_ok _ _ refl (rw passed (rw group refl))

-- In user mode, where the pc is a multiple of 4 and reads a word that is a branch with a condition that
-- holds: the step returns 0. It goes to `code_target` of the address 8 past the branch and of its field,
-- writes the link register if the branch links, and changes nothing else but the count of cycles.
pub arm_step_branch :
    (p : Core) (ins : ℕ)
    → InUser p
    → p.reg.reg 15 < 2 ^ 32
    → p.reg.reg 15 % 4 ≡ 0
    → memory_read_word p.mem (p.reg.reg 15) ≡ some ins
    → get_bits ins 27 25 ≡ 5
    → nonzero (cond_verifier p (get_bits ins 31 28)) ≡ true
    → (let pc = add32 (p.reg.reg 15) 8 in
        arm_step p
        ≡ ok (0, put_reg (linked ins pc (fetched p)) 15 (code_target pc (get_bits ins 23 0))))
unfolding execute_fetched
arm_step_branch p ins user fits aligned word group passed =
    let passes : nonzero (cond_verifier (fetched p) (get_bits ins 31 28)) ≡ true =
      ap nonzero (cond_verifier-fetched p (get_bits ins 31 28)) ∙ passed in
    step_done p _ (
      execute_fetch p (some ins) user fits aligned word (
        execute_branch ins (fetched p) group passes
        ∙ arm_branch_taken ins (fetched p) (fetched-InUser p user) passes
        ∙ ap
            (λ pc.
              ok (0, put_reg (linked ins pc (fetched p)) 15 (code_target pc (get_bits ins 23 0))))
            (seen_ahead p fits aligned)))
