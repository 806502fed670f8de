-- ===== src/Soundness/Reachable.antt =====
-- The cores that a run can reach: arm_core.c creates one, and arm_simulator.c steps it and raises
-- its exceptions.
use uga_prog.Base.{ℕ, ◌<◌, ◌^◌, ◌≡◌, refl, Bool, Option, some, ◌∙◌, ap, arith}
use mathlib.Core.Path.{subst, sym}
use uga_prog.Base.Outcome.{Outcome, ok}
use uga_prog.Base.Keeps.{Ends}
use uga_prog.Constants.{usr}
use uga_prog.Memory.{Memory}
use uga_prog.Memory.Bounds.{IsBytes}
use uga_prog.Registers.{registers_create}
use uga_prog.Core.{Core}
use uga_prog.Core.Sound.{IsSound}
use uga_prog.Exception.{arm_exception, arm_create}
use uga_prog.Instruction.{arm_step}
use uga_prog.Instruction.Beyond.{after_reset, arm_exception-reset}
use uga_prog.Soundness.Step.{Keeps-arm_step, Keeps-arm_exception}

-- The cores that `arm_create` gives, over a memory of bytes and registers that malloc found as
-- uint32_t, and that steps and exceptions lead to.
pub data Reachable (size : ℕ) (big : Bool) : Core → Type 0 where
  created :
      (found : ℕ) (block : ℕ → ℕ) (mem : Memory) (p : Core)
      → ((i : ℕ) → block i < 2 ^ 32)
      → IsBytes size big mem
      → arm_create (some found) (some block) mem ≡ ok (some p)
      → Reachable size big p
  stepped :
      (p p' : Core) (result : ℕ)
      → Reachable size big p
      → arm_step p ≡ ok (result, p')
      → Reachable size big p'
  raised :
      (p p' : Core) (exception : ℕ)
      → Reachable size big p
      → arm_exception exception p ≡ ok (tt, p')
      → Reachable size big p'

-- What `arm_create` gives where its calls of malloc succeed.
unfoldable pub new_core : (ℕ → ℕ) → Memory → Core
new_core block mem =
    after_reset (record { cycle_count = 0; reg = record { reg = block; mode = usr }; mem = mem })

-- Where both calls of malloc succeed, `arm_create` returns a core in user mode, with the CPSR 0x1d3,
-- the pc 0, no cycle counted, and the other registers as malloc found them.
pub arm_create_lem :
    (found : ℕ) (block : ℕ → ℕ) (mem : Memory)
    → arm_create (some found) (some block) mem ≡ ok (some (new_core block mem))
unfolding arm_create registers_create new_core
arm_create_lem found block mem =
    rw
      (arm_exception-reset
        (record { cycle_count = found; reg = record { reg = block; mode = usr }; mem = mem }) refl)
      refl

new_core-IsSound :
    {size : ℕ} {big : Bool} (block : ℕ → ℕ) (mem : Memory)
    → ((i : ℕ) → block i < 2 ^ 32)
    → IsBytes size big mem
    → IsSound size big (new_core block mem)
unfolding new_core
new_core-IsSound block mem fits bytes = record {
  bank = record { user = refl; fits = λ j. ground (arith, fits j) };
  memory = bytes;
}

Ends-at :
    {size : ℕ} {big : Bool} {A : Type 0} {o : Outcome (A × Core)} {a : A} {p' : Core}
    → Ends (IsSound size big) o
    → o ≡ ok (a, p')
    → IsSound size big p'
Ends-at {size} {big} h e = subst (Ends (IsSound size big)) e h

ok_some-injective : {p q : Core} → ok (some p) ≡ ok (some q) → p ≡ q
ok_some-injective {p} {q} e = ap core_of e
  where
    core_of : Outcome (Option Core) → Core
    core_of (ok (some c)) = c
    core_of _ = p

-- Every core that is created and then run, over any steps and exceptions, is sound: it is in user
-- mode, its registers fit 32 bits and its bytes 8, and its memory has the size and endianness that
-- it was created with.
pub Reachable-IsSound :
    {size : ℕ} {big : Bool} (p : Core) → Reachable size big p → IsSound size big p
Reachable-IsSound p (created found block mem _ fits bytes e) =
    subst (IsSound _ _) (ok_some-injective (sym (arm_create_lem found block mem) ∙ e))
      (new_core-IsSound block mem fits bytes)
Reachable-IsSound p (stepped q _ result r e) =
    Ends-at (Keeps-arm_step.at q (Reachable-IsSound q r)) e
Reachable-IsSound p (raised q _ exception r e) =
    Ends-at ((Keeps-arm_exception exception).at q (Reachable-IsSound q r)) e
