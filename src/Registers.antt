-- ===== src/Registers.antt =====
-- arm_simulator-1.4/registers.c: the 37 registers and the table that banks them by mode.
pub mod Banks
pub mod Sharing
use uga_prog.Base.{
  ℕ, zero, suc, ◌-◌, ◌^◌, Bool, ◌&&◌, not, Option, none, some, List, [], ◌∷◌, u32, ltb, ◌==◌,
  if◌then◌else◌, update,
}
use uga_prog.Base.Outcome.{Outcome, Stop, ok, stop}
use uga_prog.Constants.{usr, fiq, irq, svc, abt, und, sys}

-- `mode` is set once, by `registers_create`.
pub record Registers : Type 0 where
  pub reg : ℕ → ℕ
  pub mode : ℕ

-- A row of `matriceMode`; the int8_t -1 is the bit pattern 255, which no index reaches either way.
unfoldable pub mode_row : ℕ → List ℕ
mode_row m =
    if (m == usr)
    then 0 ∷ 1 ∷ 2 ∷ 3 ∷ 4 ∷ 5 ∷ 6 ∷ 7 ∷ 8 ∷ 9 ∷ 10 ∷ 11 ∷ 12 ∷ 13 ∷ 14 ∷ 15 ∷ 16 ∷ 255 ∷ []
    else if m == fiq
    then 0 ∷ 1 ∷ 2 ∷ 3 ∷ 4 ∷ 5 ∷ 6 ∷ 7 ∷ 29 ∷ 30 ∷ 31 ∷ 32 ∷ 33 ∷ 34 ∷ 35 ∷ 15 ∷ 16 ∷ 36 ∷ []
    else if m == irq
    then 0 ∷ 1 ∷ 2 ∷ 3 ∷ 4 ∷ 5 ∷ 6 ∷ 7 ∷ 8 ∷ 9 ∷ 10 ∷ 11 ∷ 12 ∷ 23 ∷ 26 ∷ 27 ∷ 16 ∷ 28 ∷ []
    else if m == svc
    then 0 ∷ 1 ∷ 2 ∷ 3 ∷ 4 ∷ 5 ∷ 6 ∷ 7 ∷ 8 ∷ 9 ∷ 10 ∷ 11 ∷ 12 ∷ 17 ∷ 18 ∷ 15 ∷ 16 ∷ 19 ∷ []
    else if m == abt
    then 0 ∷ 1 ∷ 2 ∷ 3 ∷ 4 ∷ 5 ∷ 6 ∷ 7 ∷ 8 ∷ 9 ∷ 10 ∷ 11 ∷ 12 ∷ 20 ∷ 21 ∷ 15 ∷ 16 ∷ 22 ∷ []
    else if m == und
    then 0 ∷ 1 ∷ 2 ∷ 3 ∷ 4 ∷ 5 ∷ 6 ∷ 7 ∷ 8 ∷ 9 ∷ 10 ∷ 11 ∷ 12 ∷ 23 ∷ 24 ∷ 15 ∷ 16 ∷ 25 ∷ []
    else if m == sys
    then 0 ∷ 1 ∷ 2 ∷ 3 ∷ 4 ∷ 5 ∷ 6 ∷ 7 ∷ 8 ∷ 9 ∷ 10 ∷ 11 ∷ 12 ∷ 13 ∷ 14 ∷ 15 ∷ 16 ∷ 255 ∷ []
    else []

-- An initialiser `{}` fills its row with zeros.
unfoldable pub entry_or_zero : List ℕ → ℕ → ℕ
entry_or_zero [] i = 0
entry_or_zero (x ∷ xs) zero = x
entry_or_zero (x ∷ xs) (suc i) = entry_or_zero xs i

-- `matriceMode[m][reg]`, a table of 32 rows of 18.
unfoldable pub matrice_mode : ℕ → ℕ → Outcome ℕ
unfolding mode_row entry_or_zero
matrice_mode m reg =
    if ltb m 32 && ltb reg 18 then ok (entry_or_zero (mode_row m) reg) else stop Stop.out_of_bounds

-- The block that malloc returned, which is written without a test.
unfoldable pub registers_create : Option (ℕ → ℕ) → Outcome Registers
registers_create none = stop Stop.null_pointer
registers_create (some found) = ok (record { reg = found; mode = usr })

unfoldable pub get_mode : Registers → ℕ
get_mode r = r.mode

unfoldable pub current_mode_has_spsr : Registers → Bool
unfolding get_mode
current_mode_has_spsr r = not (get_mode r == sys) && not (get_mode r == usr)

unfoldable pub in_a_privileged_mode : Registers → Bool
unfolding get_mode
in_a_privileged_mode r = not (get_mode r == usr)

-- `r->reg[i]`
unfoldable pub reg_at : Registers → ℕ → Outcome ℕ
reg_at r i = if ltb i 37 then ok (r.reg i) else stop Stop.out_of_bounds

unfoldable pub read_register : Registers → ℕ → Outcome ℕ
unfolding reg_at
read_register r reg = reg_at r reg

unfoldable pub read_usr_register : Registers → ℕ → Outcome ℕ
unfolding reg_at get_mode
read_usr_register r reg = if get_mode r == usr then reg_at r reg else ok (2 ^ 32 - 1)

unfoldable pub read_cpsr : Registers → ℕ
read_cpsr r = r.reg 16

unfoldable pub read_spsr : Registers → Outcome ℕ
unfolding current_mode_has_spsr matrice_mode reg_at get_mode
read_spsr r =
    if current_mode_has_spsr r
    then elim (matrice_mode (get_mode r) 17) [ ok i ↦ reg_at r i | stop e ↦ stop e ]
    else ok (2 ^ 32 - 1)

-- `r->reg[i] = value`
unfoldable pub reg_set : Registers → ℕ → ℕ → Outcome Registers
reg_set r i value =
    if ltb i 37 then ok (record r { reg = update r.reg i (u32 value) }) else stop Stop.out_of_bounds

-- The test `nbReg >= 0` is on a uint8_t and always passes.
unfoldable pub write_register : Registers → ℕ → ℕ → Outcome Registers
unfolding matrice_mode reg_set
write_register r reg value =
    if ltb reg 37
    then elim (matrice_mode r.mode reg) [ ok nb_reg ↦ reg_set r nb_reg value | stop e ↦ stop e ]
    else ok r

unfoldable pub write_usr_register : Registers → ℕ → ℕ → Outcome Registers
unfolding in_a_privileged_mode write_register
write_usr_register r reg value = if in_a_privileged_mode r then ok r else write_register r reg value

unfoldable pub write_cpsr : Registers → ℕ → Outcome Registers
unfolding write_register
write_cpsr r value = write_register r 16 value

unfoldable pub write_spsr : Registers → ℕ → Outcome Registers
unfolding write_register current_mode_has_spsr
write_spsr r value = if current_mode_has_spsr r then write_register r 17 value else ok r
