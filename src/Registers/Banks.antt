-- ===== src/Registers/Banks.antt =====
-- The table of banked registers: what a register number stands for in each mode.
use uga_prog.Base.{
  ℕ, zero, suc, ltb, Bool-cases, inl, inr, ◌<◌, ◌^◌, ◌≡◌, refl, Bool, true, false, ◌&&◌, arith, u32,
  ◌==◌, update,
}
use uga_prog.Base.Outcome.{Outcome, ok, stop}
use uga_prog.Constants.{usr}
use uga_prog.Registers.{
  Registers, in_a_privileged_mode, reg_set, matrice_mode, write_register, write_usr_register,
}

-- A register that a store writes, in place `i`.
abbrev pub put : Registers → ℕ → ℕ → Registers
put r i value = record r { reg = update r.reg i (u32 value) }

unfoldable pub all_below : ℕ → (ℕ → Bool) → Bool
all_below zero test = true
all_below (suc n) test = test n && all_below n test

pub all_below_sound :
    (n : ℕ) (test : ℕ → Bool) (i : ℕ) → all_below n test ≡ true → i < n → test i ≡ true
unfolding all_below
all_below_sound zero test i h below = absurd (omega arith)
all_below_sound (suc n) test i h below = ground (arith, all_below_sound n test i)

is_entry : ℕ → ℕ → ℕ → Bool
is_entry m i wanted = elim (matrice_mode m i) [ ok j ↦ j == wanted | stop e ↦ false ]

is_entry_sound : (m i wanted : ℕ) → is_entry m i wanted ≡ true → matrice_mode m i ≡ ok wanted
unfolding is_entry
is_entry_sound m i wanted h = ground arith

usr_table : all_below 17 (λ i. is_entry usr i i) ≡ true
unfolding all_below is_entry matrice_mode
usr_table = refl

-- In user mode every register but the SPSR stands for itself.
pub matrice_mode-usr : (i : ℕ) → i < 17 → matrice_mode usr i ≡ ok i
matrice_mode-usr i h =
    is_entry_sound usr i i (all_below_sound 17 (λ i. is_entry usr i i) i usr_table h)

pub write_register-usr :
    (r : Registers) (i value : ℕ)
    → r.mode ≡ usr
    → i < 17
    → write_register r i value ≡ ok (put r i value)
unfolding write_register
write_register-usr r i value user h =
    let row : matrice_mode r.mode i ≡ ok i = rw user (matrice_mode-usr i h) in ground (arith, row)

pub write_usr_register-usr :
    (r : Registers) (i value : ℕ)
    → r.mode ≡ usr
    → i < 17
    → write_usr_register r i value ≡ ok (put r i value)
unfolding write_usr_register
write_usr_register-usr r i value user h = ground (arith, write_register-usr r i value user h)

-- User mode, and every register a uint32_t.
pub record IsBank (r : Registers) : Type 0 where
  pub user : r.mode ≡ usr
  pub fits : (i : ℕ) → r.reg i < 2 ^ 32

abbrev pub Kept : Outcome Registers → Type 0
Kept (ok r) = IsBank r
Kept (stop e) = Unit

put-IsBank : (r : Registers) (i value : ℕ) → IsBank r → IsBank (put r i value)
put-IsBank r i value h = record { user = h.user; fits = λ j. ground (arith, h.fits j) }

reg_set-Kept : (r : Registers) (i value : ℕ) → IsBank r → Kept (reg_set r i value)
unfolding reg_set
reg_set-Kept r i value h = elim (Bool-cases (ltb i 37)) [
  | inl inside ↦ rw inside (put-IsBank r i value h)
  | inr outside ↦ rw outside tt
]

pub write_register-Kept : (r : Registers) (i value : ℕ) → IsBank r → Kept (write_register r i value)
unfolding write_register
write_register-Kept r i value h = elim (Bool-cases (ltb i 37)) [
  | inl inside ↦ rw inside (at_entry (matrice_mode r.mode i))
  | inr outside ↦ rw outside h
]
  where
    at_entry :
        (o : Outcome ℕ)
        → Kept
            (let w : Outcome Registers = elim o [ ok j ↦ reg_set r j value | stop e ↦ stop e ] in w)
    at_entry (ok j) = reg_set-Kept r j value h
    at_entry (stop e) = tt

pub write_usr_register-Kept :
    (r : Registers) (i value : ℕ) → IsBank r → Kept (write_usr_register r i value)
unfolding write_usr_register
write_usr_register-Kept r i value h = elim (Bool-cases (in_a_privileged_mode r)) [
  | inl privileged ↦ rw privileged h
  | inr user ↦ rw user (write_register-Kept r i value h)
]
