-- ===== src/Core.antt =====
-- arm_simulator-1.4/arm_core.c: the processor, which gives access to its registers and memory.
-- A call of a trace function changes no state of the processor and is left out. The macros of
-- trace_location.h give the write accesses the value 0 of `trace_end_location`.
pub mod User
pub mod Sound
use uga_prog.Base.{
  ℕ, ◌+◌, ◌%◌, ◌^◌, bit_and, Bool, Option, none, some, add32, sub32, ◌==◌, if◌then◌else◌,
}
use uga_prog.Base.Outcome.{Outcome, ok, stop, Run, pure, gets, modify, query, change, ◌>>=◌, ◌>>◌}
use uga_prog.Memory.{
  Memory, memory_read_byte, memory_read_half, memory_read_word, memory_write_byte,
  memory_write_half, memory_write_word,
}
use uga_prog.Registers.{
  Registers, current_mode_has_spsr, in_a_privileged_mode, read_register, read_usr_register,
  read_cpsr, read_spsr, write_register, write_usr_register, write_cpsr, write_spsr,
}

pub record Core : Type 0 where
  pub cycle_count : ℕ
  pub reg : Registers
  pub mem : Memory

abbrev pub Act : Type 0 → Type 0
Act A = Run Core A

unfoldable pub arm_current_mode_has_spsr : Core → Bool
arm_current_mode_has_spsr p = current_mode_has_spsr p.reg

unfoldable pub arm_in_a_privileged_mode : Core → Bool
arm_in_a_privileged_mode p = in_a_privileged_mode p.reg

pub arm_get_cycle_count : Core → ℕ
arm_get_cycle_count p = p.cycle_count

-- The pc reads 4 past its value, and with bit 1 cleared.
unfoldable pub seen_by : ℕ → ℕ → ℕ
seen_by reg value = if reg == 15 then bit_and (add32 value 4) 0xFFFF_FFFD else value

unfoldable pub arm_read_register : ℕ → Act ℕ
unfolding seen_by
arm_read_register reg = do value ← query (λ p. read_register p.reg reg); pure (seen_by reg value)

unfoldable pub arm_read_usr_register : ℕ → Act ℕ
unfolding seen_by
arm_read_usr_register reg = do
  value ← query (λ p. read_usr_register p.reg reg)
  pure (seen_by reg value)

unfoldable pub arm_read_cpsr : Core → ℕ
arm_read_cpsr p = read_cpsr p.reg

unfoldable pub arm_read_spsr : Act ℕ
arm_read_spsr = query (λ p. read_spsr p.reg)

-- The registers replaced by what a call on them leaves.
abbrev pub set_reg : (Registers → Outcome Registers) → Core → Outcome Core
set_reg f p = elim (f p.reg) [ ok r ↦ ok (record p { reg = r }) | stop e ↦ stop e ]

unfoldable pub arm_write_register : ℕ → ℕ → Act (Unit {0})
arm_write_register reg value = change (set_reg (λ r. write_register r reg value))

unfoldable pub arm_write_usr_register : ℕ → ℕ → Act (Unit {0})
arm_write_usr_register reg value = change (set_reg (λ r. write_usr_register r reg value))

unfoldable pub arm_write_cpsr : ℕ → Act (Unit {0})
arm_write_cpsr value = change (set_reg (λ r. write_cpsr r value))

unfoldable pub arm_write_spsr : ℕ → Act (Unit {0})
arm_write_spsr value = change (set_reg (λ r. write_spsr r value))

unfoldable pub arm_read_byte : ℕ → Act (Option ℕ)
arm_read_byte address = gets (λ p. memory_read_byte p.mem address)

unfoldable pub arm_read_half : ℕ → Act (Option ℕ)
arm_read_half address = gets (λ p. memory_read_half p.mem address)

unfoldable pub arm_read_word : ℕ → Act (Option ℕ)
arm_read_word address = gets (λ p. memory_read_word p.mem address)

unfoldable pub count_cycle : Core → Core
count_cycle p = record p { cycle_count = (p.cycle_count + 1) % 2 ^ 32 }

-- The instruction at the pc, or `none` where the memory has none; the pc moves on either way.
unfoldable pub arm_fetch : Act (Option ℕ)
arm_fetch = do
  modify count_cycle
  pc ← arm_read_register 15
  let address = sub32 pc 4
  result ← gets (λ p. memory_read_word p.mem address)
  arm_write_register 15 (add32 address 4)
  pure result

-- An `int` result: 0, or -1 as its bit pattern.
abbrev pub minus_one : ℕ
minus_one = 0xFFFF_FFFF

-- The memory after a write, or as it was with the result -1.
unfoldable pub stored : (Memory → Option Memory) → Act ℕ
stored f p = elim (f p.mem) [ none ↦ ok (minus_one, p) | some m ↦ ok (0, record p { mem = m }) ]

unfoldable pub arm_write_byte : ℕ → ℕ → Act ℕ
arm_write_byte address value = stored (λ m. memory_write_byte m address value)

unfoldable pub arm_write_half : ℕ → ℕ → Act ℕ
arm_write_half address value = stored (λ m. memory_write_half m address value)

unfoldable pub arm_write_word : ℕ → ℕ → Act ℕ
arm_write_word address value = stored (λ m. memory_write_word m address value)
