-- ===== src/Printing/Blocks.antt =====
-- The text of `arm_print_state` in user mode: a block for each mode that has a name.
use uga_prog.Base.{
  ℕ, zero, suc, ◌+◌, ◌≤◌, ◌<◌, ◌≡◌, ap, refl, arith, true, Bool-cases, inl, inr, List, [], ◌∷◌,
  ◌++◌, Option, none, some, ltb, ◌==◌, if◌then◌else◌, lt→ltb,
}
use uga_prog.Base.Outcome.{ok, pure, lift, gets, ◌>>=◌}
use uga_prog.Base.Keeps.{bind_ok}
use uga_prog.Constants.{usr, sys}
use uga_prog.Text.{codes}
use uga_prog.Names.{mode_name_at, register_name_at, arm_get_mode_name, arm_get_register_name}
use uga_prog.Registers.{get_mode, read_usr_register}
use uga_prog.Core.{Core, Act, seen_by, arm_read_usr_register, arm_read_register, arm_read_cpsr}
use uga_prog.Core.User.{InUser, arm_read_register_lem}
use uga_prog.Printing.{
  print_upper, pad, line_break, print_register, print_registers_of, mode_end, print_mode,
  print_modes, arm_print_state,
}

-- The registers from `reg` on, as they read.
unfoldable pub registers_text : Core → ℕ → ℕ → List ℕ
registers_text p zero reg = []
registers_text p (suc left) reg =
    line_break reg
    ++ ((codes "   "
          ++ (pad 3 (register_name_at reg) ++ (b'=' ∷ print_upper 8 (seen_by reg (p.reg.reg reg)))))
        ++ registers_text p left (reg + 1))

-- The block of a mode, of which the registers are no part.
abbrev pub block : Core → ℕ × List ℕ → List ℕ
block p (mode, name) =
    (if mode == sys then [] else name ++ b':' ∷ [])
    ++ (registers_text p 16 0
        ++ ((if mode == usr then codes "  CPSR=" ++ print_upper 8 (arm_read_cpsr p) else [])
            ++ mode_end mode))

abbrev pub blocks : Core → List (ℕ × List ℕ) → List ℕ
blocks p [] = []
blocks p (m ∷ modes) = block p m ++ blocks p modes

abbrev pub seven_modes : List (ℕ × List ℕ)
seven_modes =
    (16, codes "USR")
    ∷ (17, codes "FIQ")
    ∷ (18, codes "IRQ")
    ∷ (19, codes "SVC")
    ∷ (23, codes "ABT")
    ∷ (27, codes "UND")
    ∷ (31, codes "SYS")
    ∷ []

arm_read_usr_register-user :
    (i : ℕ) (p : Core)
    → InUser p
    → i < 37
    → arm_read_usr_register i p ≡ ok (seen_by i (p.reg.reg i), p)
unfolding arm_read_usr_register ◌>>=◌ read_usr_register get_mode
arm_read_usr_register-user i p user h =
    let inside : ltb i 37 ≡ true = lt→ltb i 37 h in rw user (rw inside refl)

-- Whichever access a mode takes.
register_shown :
    (mode i : ℕ) (p : Core)
    → InUser p
    → i < 37
    → (if mode == usr then arm_read_usr_register i else arm_read_register i) p
      ≡ ok (seen_by i (p.reg.reg i), p)
register_shown mode i p user h = elim (Bool-cases (mode == usr)) [
  | inl its_own ↦ rw its_own (arm_read_usr_register-user i p user h)
  | inr other ↦ rw other (arm_read_register_lem i p h)
]

arm_get_register_name_lem : (i : ℕ) → i < 16 → arm_get_register_name i ≡ ok (register_name_at i)
unfolding arm_get_register_name
arm_get_register_name_lem i h = ground arith

print_register_lem :
    (i value : ℕ) (p : Core)
    → i < 16
    → print_register i value p
      ≡ ok (codes "   " ++ (pad 3 (register_name_at i) ++ (b'=' ∷ print_upper 8 value)), p)
unfolding print_register lift pure
print_register_lem i value p h =
    bind_ok _ _ (ap (λ o. lift o p) (arm_get_register_name_lem i h)) refl

-- What a mode counts by is the register's number, in user mode as in the others, that count.
counted_by : ℕ → ℕ → ℕ → ℕ
counted_by mode reg count = if mode == usr then reg else count

counted_on :
    (mode reg count : ℕ)
    → counted_by mode reg count ≡ reg
    → counted_by mode (reg + 1) (if mode == usr then count else count + 1) ≡ reg + 1
unfolding counted_by
counted_on mode reg count e = ground arith

print_registers_of_lem :
    (mode left reg count : ℕ) (p : Core)
    → InUser p
    → left + reg ≤ 16
    → counted_by mode reg count ≡ reg
    → print_registers_of mode left reg count p ≡ ok (registers_text p left reg, p)
unfolding print_registers_of registers_text pure counted_by
print_registers_of_lem mode zero reg count p user h e = refl
print_registers_of_lem mode (suc left) reg count p user h e =
    bind_ok _ _ (register_shown mode reg p user (omega arith)) (
      bind_ok _ _ (print_register_lem reg (seen_by reg (p.reg.reg reg)) p (omega arith)) (
        bind_ok _ _
          (print_registers_of_lem mode left (reg + 1) (if mode == usr then count else count + 1) p
            user (omega arith) (counted_on mode reg count e))
          (rw e refl)))

print_mode_lem :
    (mode : ℕ) (name : List ℕ) (p : Core)
    → InUser p
    → print_mode mode name p ≡ ok (block p (mode, name), p)
unfolding print_mode pure gets counted_by
print_mode_lem mode name p user =
    bind_ok _ _ (print_registers_of_lem mode 16 0 0 p user (omega arith) (ground arith))
      (bind_ok _ _ refl refl)

-- The modes with a name, of those that the loop still makes.
named : ℕ → ℕ → List (ℕ × List ℕ)
named zero mode = []
named (suc left) mode = elim (mode_name_at mode) [
  | none ↦ named left (mode + 1)
  | some name ↦ (mode, name) ∷ named left (mode + 1)
]

arm_get_mode_name_lem : (mode : ℕ) → mode < 32 → arm_get_mode_name mode ≡ ok (mode_name_at mode)
unfolding arm_get_mode_name
arm_get_mode_name_lem mode h = rw (lt→ltb mode 32 h) refl

print_modes_lem :
    (left mode : ℕ) (p : Core)
    → InUser p
    → left + mode ≤ 32
    → print_modes left mode p ≡ ok (blocks p (named left mode), p)
unfolding print_modes named pure lift
print_modes_lem zero mode p user h = refl
print_modes_lem (suc left) mode p user h =
    bind_ok _ _ (ap (λ o. lift o p) (arm_get_mode_name_lem mode (omega arith)))
      (by_name (mode_name_at mode) (print_modes_lem left (mode + 1) p user (omega arith)))
  where
    by_name :
        (o : Option (List ℕ))
        → print_modes left (mode + 1) p ≡ ok (blocks p (named left (mode + 1)), p)
        → (let act : Act (List ℕ) = elim o [
          | none ↦ print_modes left (mode + 1)
          | some name ↦
              (print_mode mode name >>= λ text.
              print_modes left (mode + 1) >>= λ rest. pure (text ++ rest))
        ] in
            let shown : List (ℕ × List ℕ) = elim o [
              | none ↦ named left (mode + 1)
              | some name ↦ (mode, name) ∷ named left (mode + 1)
            ] in
            act p ≡ ok (blocks p shown, p))
    by_name none others = others
    by_name (some name) others =
        bind_ok _ _ (print_mode_lem mode name p user) (bind_ok _ _ others refl)

-- In user mode `arm_print_state` prints the seven blocks.
pub arm_print_state_lem : (p : Core) → InUser p → arm_print_state p ≡ ok (blocks p seven_modes, p)
unfolding arm_print_state named mode_name_at
arm_print_state_lem p user = print_modes_lem 32 0 p user (omega arith)
