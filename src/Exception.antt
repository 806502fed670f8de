-- ===== src/Exception.antt =====
-- arm_simulator-1.4/arm_exception.c, and `arm_create` of arm_core.c, which raises a reset.
use uga_prog.Base.{ℕ, Option, none, some, u8, ◌==◌, if◌then◌else◌}
use uga_prog.Base.Outcome.{Outcome, ok, stop, pure, ◌>>◌}
use uga_prog.Constants.{reset}
use uga_prog.Memory.{Memory}
use uga_prog.Registers.{registers_create}
use uga_prog.Core.{Core, Act, arm_write_cpsr, arm_write_usr_register}

-- Only a reset does anything. `CP15_reg1_EEbit` is 0 below ARMv6.
unfoldable pub arm_exception : ℕ → Act (Unit {0})
arm_exception exception =
    if u8 exception == reset
    then (do arm_write_cpsr 0x1d3; arm_write_usr_register 15 0)
    else pure tt

-- The cycle count is found as malloc left it and is set last.
abbrev pub cleared : Outcome (Unit {0} × Core) → Outcome (Option Core)
cleared (stop e) = stop e
cleared (ok (_, p)) = ok (some (record p { cycle_count = 0 }))

-- The core's own malloc and that of its registers; `none` inside `ok` is the result NULL.
unfoldable pub arm_create : Option ℕ → Option (ℕ → ℕ) → Memory → Outcome (Option Core)
unfolding arm_exception
arm_create none registers_block mem = ok none
arm_create (some found) registers_block mem = elim (registers_create registers_block) [
  | stop e ↦ stop e
  | ok r ↦ cleared (arm_exception reset (record { cycle_count = found; reg = r; mem = mem }))
]
