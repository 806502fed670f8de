-- ===== src/Printing.antt =====
-- arm_simulator-1.4/arm_core.c: `arm_print_state`, as the text that it prints.
pub mod Blocks
pub mod Screen
use uga_prog.Base.{
  ℕ, zero, suc, ◌+◌, ◌-◌, ◌/◌, ◌%◌, ◌&&◌, ◌||◌, List, [], ◌∷◌, ◌++◌, none, some, length, leb, ltb,
  ◌==◌, if◌then◌else◌,
}
use uga_prog.Base.Outcome.{pure, lift, gets, ◌>>=◌}
use uga_prog.Constants.{usr, fiq, irq, svc, abt, und, sys}
use uga_prog.Text.{codes}
use uga_prog.Names.{arm_get_mode_name, arm_get_register_name}
use uga_prog.Core.{Act, arm_read_register, arm_read_usr_register, arm_read_cpsr}

abbrev upper_digit : ℕ → ℕ
upper_digit n = if ltb n 10 then b'0' + n else b'A' + (n - 10)

-- "%0nX"
unfoldable pub print_upper : ℕ → ℕ → List ℕ
print_upper zero value = []
print_upper (suc n) value = print_upper n (value / 16) ++ upper_digit (value % 16) ∷ []

-- "%ns"
unfoldable pub pad : ℕ → List ℕ → List ℕ
pad zero text = text
pad (suc n) text = if leb (suc n) (length text) then text else 32 ∷ pad n text

-- A line break before each fifth place but the first.
unfoldable pub line_break : ℕ → List ℕ
line_break count = if ltb 0 count && (count % 5 == 0) then 10 ∷ codes "    " else []

unfoldable pub print_register : ℕ → ℕ → Act (List ℕ)
unfolding print_upper pad
print_register reg value = do
  name ← lift (arm_get_register_name reg)
  pure (codes "   " ++ (pad 3 name ++ (b'=' ∷ print_upper 8 value)))

-- The registers from `reg` on. User mode has its own access, and counts by the register.
unfoldable pub print_registers_of : ℕ → ℕ → ℕ → ℕ → Act (List ℕ)
unfolding line_break print_register
print_registers_of mode zero reg count = pure []
print_registers_of mode (suc left) reg count = do
  value ← (if mode == usr then arm_read_usr_register reg else arm_read_register reg)
  text ← print_register reg value
  rest ← print_registers_of mode left (reg + 1) (if mode == usr then count else count + 1)
  pure (line_break (if mode == usr then reg else count) ++ (text ++ rest))

unfoldable pub mode_end : ℕ → List ℕ
mode_end mode =
    if ((mode == usr) || (mode == fiq)) || ((mode == svc) || (mode == und))
    then 10 ∷ []
    else if (mode == irq) || (mode == abt)
    then codes "          "
    else []

unfoldable pub print_mode : ℕ → List ℕ → Act (List ℕ)
unfolding print_registers_of mode_end print_upper
print_mode mode name = do
  registers ← print_registers_of mode 16 0 0
  cpsr ← gets arm_read_cpsr
  pure (
      (if mode == sys then [] else name ++ b':' ∷ [])
      ++ (registers
          ++ ((if mode == usr then codes "  CPSR=" ++ print_upper 8 cpsr else [])
              ++ mode_end mode)))

unfoldable pub print_modes : ℕ → ℕ → Act (List ℕ)
unfolding print_mode
print_modes zero mode = pure []
print_modes (suc left) mode = lift (arm_get_mode_name mode) >>= λ o. elim o [
  | none ↦ print_modes left (mode + 1)
  | some name ↦ (do
    text ← print_mode mode name
    rest ← print_modes left (mode + 1)
    pure (text ++ rest))
]

unfoldable pub arm_print_state : Act (List ℕ)
unfolding print_modes
arm_print_state = print_modes 32 0
