-- ===== src/Gdb/Rounds.antt =====
-- One round of the loop of `cont`.
use uga_prog.Base.{
  ℕ, suc, ◌%◌, ◌^◌, ◌<◌, ◌≡◌, ◌∙◌, refl, ap, arith, true, false, Option, some, add32, sub32,
}
use uga_prog.Base.Outcome.{ok, pure, gets, modify}
use uga_prog.Base.Keeps.{bind_ok}
use uga_prog.Memory.{memory_read_word}
use uga_prog.Core.{Core, arm_read_register, arm_read_word}
use uga_prog.Core.User.{arm_read_register_lem}
use uga_prog.Instruction.{arm_step}
use uga_prog.Instruction.Fetch.{seen_pc}
use uga_prog.LoadStore.Multiple.{or_else}
use uga_prog.Gdb.{Gdb, on_arm}
use uga_prog.Gdb.Actions.{pc_of, on_arm-ok}
use uga_prog.Gdb.Handlers.{next_instruction, run_step, is_breakpoint, cont_loop}

pub next_instruction_lem :
    (instruction : Option ℕ) (g : Gdb) (w : ℕ)
    → pc_of g.arm < 2 ^ 32
    → pc_of g.arm % 4 ≡ 0
    → or_else (memory_read_word g.arm.mem (pc_of g.arm)) instruction ≡ some w
    → next_instruction instruction g ≡ ok (w, g)
unfolding next_instruction on_arm arm_read_word gets pure
next_instruction_lem instruction g w fits aligned found =
    let pc = pc_of g.arm in
    let back : sub32 (add32 pc 4) 4 ≡ pc = omega arith in
    let read : arm_read_register 15 g.arm ≡ ok (add32 pc 4, g.arm) =
      arm_read_register_lem 15 g.arm (omega arith) ∙ ap (λ v. ok (v, g.arm)) (seen_pc pc aligned) in
    bind_ok _ _ (on_arm-ok (arm_read_register 15) g _ _ read)
      (rw back (bind_ok _ _ refl (rw found refl)))

-- A session after a step.
abbrev pub stepped_to : Gdb → Core → ℕ → Gdb
stepped_to g p result = record g { arm = p; target_exception = result }

run_step_lem :
    (g : Gdb) (p : Core) (result : ℕ)
    → arm_step g.arm ≡ ok (result, p)
    → run_step g ≡ ok (tt, stepped_to g p result)
unfolding run_step modify
run_step_lem g p result e = bind_ok _ _ (on_arm-ok arm_step g result p e) refl

-- A round at a breakpoint, and one at another instruction.
pub round_ends :
    (rounds w : ℕ) (instruction : Option ℕ) (g : Gdb)
    → next_instruction instruction g ≡ ok (w, g)
    → is_breakpoint w ≡ true
    → cont_loop (suc rounds) instruction g ≡ ok (tt, g)
unfolding cont_loop pure
round_ends rounds w instruction g e b = bind_ok _ _ e (rw b refl)

pub round_steps :
    (rounds w : ℕ) (instruction : Option ℕ) (g : Gdb) (p : Core) (result : ℕ)
    → next_instruction instruction g ≡ ok (w, g)
    → is_breakpoint w ≡ false
    → arm_step g.arm ≡ ok (result, p)
    → cont_loop (suc rounds) instruction g ≡ cont_loop rounds (some w) (stepped_to g p result)
unfolding cont_loop
round_steps rounds w instruction g p result e b s =
    bind_ok _ _ e (rw b (bind_ok _ _ (run_step_lem g p result s) refl))
