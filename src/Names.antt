-- ===== src/Names.antt =====
-- arm_simulator-1.4/arm_constants.c: the tables of names. `none` is the null pointer.
use uga_prog.Base.{ℕ, ◌+◌, List, [], ◌∷◌, Option, none, some, ltb, ◌==◌, if◌then◌else◌}
use uga_prog.Base.Outcome.{Outcome, Stop, ok, stop}
use uga_prog.Text.{codes}

unfoldable pub mode_name_at : ℕ → Option (List ℕ)
mode_name_at mode =
    if mode == 16
    then some (codes "USR")
    else if mode == 17
    then some (codes "FIQ")
    else if mode == 18
    then some (codes "IRQ")
    else if mode == 19
    then some (codes "SVC")
    else if mode == 23
    then some (codes "ABT")
    else if mode == 27
    then some (codes "UND")
    else if mode == 31
    then some (codes "SYS")
    else none

unfoldable pub register_name_at : ℕ → List ℕ
register_name_at reg =
    if ltb reg 10
    then b'R' ∷ b'0' ∷ (b'0' + reg) ∷ []
    else if reg == 10
    then codes "R10"
    else if reg == 11
    then codes "R11"
    else if reg == 12
    then codes "R12"
    else if reg == 13
    then codes "SP"
    else if reg == 14
    then codes "LR"
    else if reg == 15
    then codes "PC"
    else if reg == 16
    then codes "CPSR"
    else codes "SPSR"

unfoldable pub exception_name_at : ℕ → Option (List ℕ)
exception_name_at exception =
    if exception == 1
    then some (codes "reset")
    else if exception == 2
    then some (codes "undefined instruction")
    else if exception == 3
    then some (codes "software interrupt")
    else if exception == 4
    then some (codes "prefetch abort")
    else if exception == 5
    then some (codes "data abort")
    else if exception == 6
    then some (codes "interrupt")
    else if exception == 7
    then some (codes "fast interrupt")
    else none

unfoldable pub arm_get_exception_name : ℕ → Option (List ℕ)
unfolding exception_name_at
arm_get_exception_name exception = if ltb exception 8 then exception_name_at exception else none

-- A table of 32 entries.
unfoldable pub arm_get_mode_name : ℕ → Outcome (Option (List ℕ))
unfolding mode_name_at
arm_get_mode_name mode = if ltb mode 32 then ok (mode_name_at mode) else stop Stop.out_of_bounds

-- And one of 18.
unfoldable pub arm_get_register_name : ℕ → Outcome (List ℕ)
unfolding register_name_at
arm_get_register_name reg =
    if ltb reg 18 then ok (register_name_at reg) else stop Stop.out_of_bounds
