-- ===== src/Shifter/ByRegister.antt =====
-- A shift by the low byte of a register, LSL, LSR or ROR, against the ARM manual.
use uga_prog.Base.{
  ℕ, ◌-◌, ◌%◌, ◌≡◌, Bool, ◌&&◌, some, u8, u32, bit_or, ◌<<<◌, ◌>>>◌, ltb, leb, ◌==◌, if◌then◌else◌,
}
use uga_prog.Base.Outcome.{Stop, ok, stop}
use uga_prog.Constants.{lsl, lsr, ror_op}
use uga_prog.Core.{Core, Act}
use uga_prog.Condition.{nonzero}
use uga_prog.Shifter.{Shifted}

abbrev rotated_right : ℕ → ℕ → ℕ
rotated_right v n = bit_or (v >>> n) (u32 (v <<< (32 - n)))

-- What the manual gives for the value `v` and the amount, the low byte of Rs.
pub manual_shift : ℕ → ℕ → ℕ → ℕ
manual_shift op v amount =
    if op == lsl
    then (if ltb amount 32 then u32 (v <<< amount) else 0)
    else if op == lsr
    then (if ltb amount 32 then v >>> amount else 0)
    else if amount % 32 == 0
    then v
    else rotated_right v (amount % 32)

-- Where the carry is looked up: for an amount of 1 to 31, and for ROR unless it is a multiple of 32.
pub looks_up : ℕ → ℕ → Bool
looks_up op amount = if op == ror_op then nonzero (amount % 32) else nonzero amount && ltb amount 32

-- The operand, with a carry, or the end of the run where the value is taken for a register's number and
-- there is no such register.
abbrev pub Shifts : ℕ → ℕ → ℕ → Act Shifted → Core → Type 0
Shifts op v amount act p =
    (carry : ℕ) × (act p ≡ (
      if looks_up op amount && leb 37 (u8 v)
      then stop Stop.out_of_bounds
      else ok (
        record { shift_value = some (manual_shift op v amount); shifter_carry_out = some carry },
        p,
      )))
