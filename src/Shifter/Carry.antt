-- ===== src/Shifter/Carry.antt =====
-- The carry of a shift by a register, and the shape that both logical shifts share.
use uga_prog.Base.{
  ℕ, ◌-◌, ◌≤◌, ◌<◌, ◌≡◌, ◌∙◌, refl, sym, arith, Bool-cases, inl, inr, true, false, ◌&&◌, some, u8,
  ltb, leb, ◌==◌, if◌then◌else◌,
}
use uga_prog.Base.Outcome.{Stop, ok, stop, pure, gets, ◌>>=◌}
use uga_prog.Base.Keeps.{bind_ok, bind_stop}
use uga_prog.Util.{get_bit}
use uga_prog.Registers.{read_register, reg_at}
use uga_prog.Core.{Core, Act, seen_by, arm_read_register}
use uga_prog.Core.User.{arm_read_register_lem}
use uga_prog.Condition.{get_c_flag, nonzero}
use uga_prog.Shifter.{Shifted, shifted, get_rm_bit}

arm_read_register-outside :
    (i : ℕ) (p : Core) → 37 ≤ i → arm_read_register i p ≡ stop Stop.out_of_bounds
unfolding arm_read_register ◌>>=◌ read_register reg_at
arm_read_register-outside i p h = let out : ltb i 37 ≡ false = ground arith in rw out refl

pub get_rm_bit_lem :
    (v ind : ℕ) (p : Core)
    → u8 v < 37
    → get_rm_bit v ind p ≡ ok (get_bit (seen_by (u8 v) (p.reg.reg (u8 v))) ind, p)
unfolding get_rm_bit pure
get_rm_bit_lem v ind p h = bind_ok _ _ (arm_read_register_lem (u8 v) p h) refl

get_rm_bit-outside :
    (v ind : ℕ) (p : Core) → 37 ≤ u8 v → get_rm_bit v ind p ≡ stop Stop.out_of_bounds
unfolding get_rm_bit
get_rm_bit-outside v ind p h = bind_stop _ _ (arm_read_register-outside (u8 v) p h)

-- A result whose carry is looked up in the register whose number is the low byte of a value.
pub carry_looked_up :
    (v ind w : ℕ) (p : Core)
    → (carry : ℕ) × ((get_rm_bit v ind >>= λ c. shifted w c) p ≡ (
        if leb 37 (u8 v)
        then stop Stop.out_of_bounds
        else ok (record { shift_value = some w; shifter_carry_out = some carry }, p)))
unfolding pure
carry_looked_up v ind w p = elim (Bool-cases (leb 37 (u8 v))) [
  | inl out ↦ (0, bind_stop _ _ (get_rm_bit-outside v ind p (ground arith)) ∙ sym (rw out refl))
  | inr inside ↦ (
    get_bit (seen_by (u8 v) (p.reg.reg (u8 v))) ind,
    bind_ok _ _ (get_rm_bit_lem v ind p (ground arith)) refl ∙ sym (rw inside refl),
  )
]

pub flag_kept :
    (w : ℕ) (p : Core)
    → (gets get_c_flag >>= λ c. shifted w c) p
      ≡ ok (record { shift_value = some w; shifter_carry_out = some (get_c_flag p) }, p)
unfolding gets pure
flag_kept w p = bind_ok _ _ refl refl

-- The two logical shifts, of which `w` is the value for an amount of 1 to 31.
unfoldable pub logical_shift : ℕ → ℕ → ℕ → ℕ → Act Shifted
logical_shift v rm_31 amount w =
    if amount == 0
    then (do carry ← gets get_c_flag; shifted v carry)
    else if ltb amount 32
    then (do carry ← get_rm_bit v (amount - 1); shifted w carry)
    else if amount == 32
    then shifted 0 rm_31
    else shifted 0 0

abbrev pub LogicalEnds : ℕ → ℕ → ℕ → ℕ → Core → Type 0
LogicalEnds v rm_31 amount w p =
    (carry : ℕ) × (logical_shift v rm_31 amount w p ≡ (
      if (nonzero amount && ltb amount 32) && leb 37 (u8 v)
      then stop Stop.out_of_bounds
      else ok (
        record {
          shift_value = some (if amount == 0 then v else if ltb amount 32 then w else 0);
          shifter_carry_out = some carry;
        },
        p,
      )))

pub logical_shift_lem : (v rm_31 amount w : ℕ) (p : Core) → LogicalEnds v rm_31 amount w p
unfolding logical_shift pure
logical_shift_lem v rm_31 amount w p = elim (Bool-cases (amount == 0)) [
  | inl zero_amount ↦ (get_c_flag p, rw zero_amount (flag_kept v p))
  | inr some_amount ↦ elim (Bool-cases (ltb amount 32)) [
    | inl short ↦
        let (carry, e) = carry_looked_up v (amount - 1) w p in (carry, rw some_amount (rw short e))
    | inr long ↦ elim (Bool-cases (amount == 32)) [
      | inl whole ↦ (rm_31, rw some_amount (rw long (rw whole refl)))
      | inr more ↦ (0, rw some_amount (rw long (rw more refl)))
    ]
  ]
]

-- A shift by 0 is the shift of the manual too.
pub zero_too :
    (v amount w : ℕ)
    → (amount ≡ 0 → w ≡ v)
    → (if amount == 0 then v else if ltb amount 32 then w else 0) ≡ (if ltb amount 32 then w else 0)
zero_too v amount w h = elim (Bool-cases (amount == 0)) [
  | inl zero_amount ↦
      let e : amount ≡ 0 = ground arith in
      let short : ltb amount 32 ≡ true = ground arith in rw zero_amount (rw short (sym (h e)))
  | inr some_amount ↦ rw some_amount refl
]
