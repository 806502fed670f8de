-- ===== src/Core/Sound.antt =====
-- The invariant of the core, and the accesses that keep it.
use uga_prog.Base.{ℕ, Bool, Option, none, some}
use uga_prog.Base.Outcome.{Outcome, ok, stop, change, modify}
use uga_prog.Base.Keeps.{
  Ends, Keeps, Keeps-pure, Keeps-gets, Keeps-query, Keeps-if, Keeps-bind, keeps_rules,
}
use uga_prog.Memory.{Memory}
use uga_prog.Memory.Bounds.{
  IsBytes, Writes, write_byte-IsBytes, write_half-IsBytes, write_word-IsBytes,
}
use uga_prog.Registers.{Registers, write_register, write_usr_register, write_cpsr}
use uga_prog.Registers.Banks.{Kept, write_register-Kept, write_usr_register-Kept, IsBank}
use uga_prog.Core.{
  Core, set_reg, stored, arm_read_register, arm_read_usr_register, arm_read_spsr,
  arm_write_register, arm_write_usr_register, arm_write_cpsr, arm_read_byte, arm_read_half,
  arm_read_word, arm_write_byte, arm_write_half, arm_write_word, arm_fetch, count_cycle,
}

-- The mode is user mode, registers and bytes fit their widths, and the memory has the size and
-- the endianness that it was created with.
pub record IsSound (size : ℕ) (big : Bool) (p : Core) : Type 0 where
  pub bank : IsBank p.reg
  pub memory : IsBytes size big p.mem

module _ {size : ℕ} {big : Bool} where
  set_reg-IsSound :
      (o : Outcome Registers) (p : Core)
      → Kept o
      → IsSound size big p
      → Ends (IsSound size big) (change (set_reg (λ _. o)) p)
  unfolding change
  set_reg-IsSound (ok r) p k h = record { bank = k; memory = h.memory }
  set_reg-IsSound (stop e) p k h = tt

  pub Keeps-arm_write_register :
      (i value : ℕ) → Keeps (IsSound size big) (arm_write_register i value)
  unfolding arm_write_register change
  Keeps-arm_write_register i value = record {
    at = λ p h.
        set_reg-IsSound (write_register p.reg i value) p (write_register-Kept p.reg i value h.bank)
          h;
  }

  pub Keeps-arm_write_usr_register :
      (i value : ℕ) → Keeps (IsSound size big) (arm_write_usr_register i value)
  unfolding arm_write_usr_register change
  Keeps-arm_write_usr_register i value = record {
    at = λ p h.
        set_reg-IsSound (write_usr_register p.reg i value) p
          (write_usr_register-Kept p.reg i value h.bank) h;
  }

  pub Keeps-arm_write_cpsr : (value : ℕ) → Keeps (IsSound size big) (arm_write_cpsr value)
  unfolding arm_write_cpsr change write_cpsr
  Keeps-arm_write_cpsr value = record {
    at = λ p h.
        set_reg-IsSound (write_register p.reg 16 value) p
          (write_register-Kept p.reg 16 value h.bank) h;
  }

  stored-IsSound :
      (f : Memory → Option Memory)
      → ((m : Memory) → IsBytes size big m → Writes (IsBytes size big) (f m))
      → Keeps (IsSound size big) (stored f)
  unfolding stored
  stored-IsSound f kf = record { at = λ p h. kept (f p.mem) p (kf p.mem h.memory) h }
    where
      kept :
          (o : Option Memory) (p : Core)
          → Writes (IsBytes size big) o
          → IsSound size big p
          → Ends (IsSound size big) (stored (λ _. o) p)
      kept none p w h = h
      kept (some m) p w h = record { bank = h.bank; memory = w }

  pub Keeps-arm_write_byte : (a v : ℕ) → Keeps (IsSound size big) (arm_write_byte a v)
  unfolding arm_write_byte
  Keeps-arm_write_byte a v = stored-IsSound _ (λ m h. write_byte-IsBytes m a v h)

  pub Keeps-arm_write_half : (a v : ℕ) → Keeps (IsSound size big) (arm_write_half a v)
  unfolding arm_write_half
  Keeps-arm_write_half a v = stored-IsSound _ (λ m h. write_half-IsBytes m a v h)

  pub Keeps-arm_write_word : (a v : ℕ) → Keeps (IsSound size big) (arm_write_word a v)
  unfolding arm_write_word
  Keeps-arm_write_word a v = stored-IsSound _ (λ m h. write_word-IsBytes m a v h)

  pub Keeps-arm_read_register : (i : ℕ) → Keeps (IsSound size big) (arm_read_register i)
  unfolding arm_read_register
  Keeps-arm_read_register i = search keeps_rules

  pub Keeps-arm_read_usr_register : (i : ℕ) → Keeps (IsSound size big) (arm_read_usr_register i)
  unfolding arm_read_usr_register
  Keeps-arm_read_usr_register i = search keeps_rules

  pub Keeps-arm_read_spsr : Keeps (IsSound size big) arm_read_spsr
  unfolding arm_read_spsr
  Keeps-arm_read_spsr = search keeps_rules

  pub Keeps-arm_read_byte : (a : ℕ) → Keeps (IsSound size big) (arm_read_byte a)
  unfolding arm_read_byte
  Keeps-arm_read_byte a = search keeps_rules

  pub Keeps-arm_read_half : (a : ℕ) → Keeps (IsSound size big) (arm_read_half a)
  unfolding arm_read_half
  Keeps-arm_read_half a = search keeps_rules

  pub Keeps-arm_read_word : (a : ℕ) → Keeps (IsSound size big) (arm_read_word a)
  unfolding arm_read_word
  Keeps-arm_read_word a = search keeps_rules

  Keeps-tick : Keeps (IsSound size big) (modify count_cycle)
  unfolding modify count_cycle
  Keeps-tick = record { at = λ p h. record { bank = h.bank; memory = h.memory } }

  pub Keeps-arm_fetch : Keeps (IsSound size big) arm_fetch
  unfolding arm_fetch
  Keeps-arm_fetch =
      search (keeps_rules, Keeps-tick, Keeps-arm_read_register, Keeps-arm_write_register)

pub ruleset core_rules = (
  keeps_rules, Keeps-arm_write_register, Keeps-arm_write_usr_register, Keeps-arm_write_cpsr,
  Keeps-arm_write_byte, Keeps-arm_write_half, Keeps-arm_write_word, Keeps-arm_read_register,
  Keeps-arm_read_usr_register, Keeps-arm_read_spsr, Keeps-arm_read_byte, Keeps-arm_read_half,
  Keeps-arm_read_word, Keeps-arm_fetch,
)
