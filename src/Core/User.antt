-- ===== src/Core/User.antt =====
-- The core in user mode: each access as one equation.
use uga_prog.Base.{ℕ, ◌<◌, ◌≡◌, arith, lt→ltb}
use uga_prog.Base.Outcome.{ok, change, ◌>>=◌}
use uga_prog.Constants.{usr}
use uga_prog.Registers.{read_register, write_cpsr}
use uga_prog.Registers.Banks.{put, write_register-usr, write_usr_register-usr}
use uga_prog.Core.{
  Core, seen_by, arm_read_register, arm_write_register, arm_write_usr_register, arm_write_cpsr,
}

abbrev pub InUser : Core → Type 0
InUser p = p.reg.mode ≡ usr

-- The core with register `i` written.
abbrev pub put_reg : Core → ℕ → ℕ → Core
put_reg p i value = record p { reg = put p.reg i value }

pub arm_read_register_lem :
    (i : ℕ) (p : Core) → i < 37 → arm_read_register i p ≡ ok (seen_by i (p.reg.reg i), p)
unfolding arm_read_register ◌>>=◌ read_register
arm_read_register_lem i p h = rw (lt→ltb i 37 h)

pub arm_write_register-user :
    (i value : ℕ) (p : Core)
    → InUser p
    → i < 17
    → arm_write_register i value p ≡ ok (tt, put_reg p i value)
unfolding arm_write_register change
arm_write_register-user i value p user h = ground (arith, write_register-usr p.reg i value user h)

pub arm_write_usr_register-user :
    (i value : ℕ) (p : Core)
    → InUser p
    → i < 17
    → arm_write_usr_register i value p ≡ ok (tt, put_reg p i value)
unfolding arm_write_usr_register change
arm_write_usr_register-user i value p user h =
    ground (arith, write_usr_register-usr p.reg i value user h)

pub arm_write_cpsr-user :
    (value : ℕ) (p : Core) → InUser p → arm_write_cpsr value p ≡ ok (tt, put_reg p 16 value)
unfolding arm_write_cpsr change write_cpsr
arm_write_cpsr-user value p user =
    ground (arith, write_register-usr p.reg 16 value user (omega arith))
