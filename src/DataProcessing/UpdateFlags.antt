-- ===== src/DataProcessing/UpdateFlags.antt =====
-- What `update_flags` leaves in the CPSR.
use uga_prog.Base.{
  fun_ext, sym, ap, ℕ, ◌<◌, ◌≡◌, inl, inr, refl, ◌∙◌, arith, u8, u32, ◌==◌, if◌then◌else◌,
  Bool-cases,
}
use uga_prog.Base.Outcome.{ok, gets}
use uga_prog.Base.Keeps.{bind_ok}
use uga_prog.Registers.{read_cpsr}
use uga_prog.Util.{get_bit, set_bit, clr_bit}
use uga_prog.Util.Fields.{get_bit-set_bit, get_bit-clr_bit, get_bit-u32}
use uga_prog.Core.{Core, arm_read_cpsr}
use uga_prog.Core.User.{InUser, put_reg, arm_write_cpsr-user}
use uga_prog.Condition.{nonzero, to_int}
use uga_prog.DataProcessing.Flags.{with_flag, update_flag, update_flags}

abbrev pub cpsr_bit : Core → ℕ → ℕ
cpsr_bit p j = get_bit (arm_read_cpsr p) j

-- Bit `i` of the CPSR is the flag, as 0 or 1.
pub get_bit-with_flag :
    (i flag cpsr j : ℕ)
    → i < 32
    → j < 32
    → get_bit (u32 (with_flag i flag cpsr)) j
      ≡ (if i == j then to_int (nonzero flag) else get_bit cpsr j)
unfolding set_bit clr_bit
get_bit-with_flag i flag cpsr j hi hj = elim (Bool-cases (nonzero flag)) [
  | inl set ↦ rw set (get_bit-u32 (set_bit cpsr i) j hj ∙ get_bit-set_bit cpsr i j hi)
  | inr clear ↦ rw clear (get_bit-u32 (clr_bit cpsr i) j hj ∙ get_bit-clr_bit cpsr i j hi hj)
]

abbrev flagged : Core → ℕ → ℕ → Core
flagged p i flag = put_reg p 16 (with_flag i flag (arm_read_cpsr p))

update_flag_lem :
    (i flag : ℕ) (p : Core) → InUser p → update_flag i flag p ≡ ok (tt, flagged p i flag)
unfolding update_flag gets
update_flag_lem i flag p user = bind_ok _ _ refl (arm_write_cpsr-user _ p user)

cpsr_bit-flagged :
    (p : Core) (i flag j : ℕ)
    → i < 32
    → j < 32
    → cpsr_bit (flagged p i flag) j ≡ (if i == j then to_int (nonzero flag) else cpsr_bit p j)
unfolding arm_read_cpsr read_cpsr
cpsr_bit-flagged p i flag j hi hj = get_bit-with_flag i flag (p.reg.reg 16) j hi hj

-- Of two writes of the CPSR the last one stays.
rewritten : (p : Core) (a b : ℕ) → put_reg (put_reg p 16 a) 16 b ≡ put_reg p 16 b
rewritten p a b = ap (λ f. record p { reg = record p.reg { reg = f } }) (fun_ext λ i. ground arith)

-- In user mode `update_flags` returns, and changes the CPSR only. Each bit of that is the bit before
-- but for V, C, N and Z, bits 28, 29, 31 and 30, which say whether the low byte of the argument is
-- not 0.
pub update_flags_lem :
    (z n c v j : ℕ) (p : Core)
    → InUser p
    → j < 32
    → (w : ℕ) × (update_flags z n c v p ≡ ok (tt, put_reg p 16 w))
      × (cpsr_bit (put_reg p 16 w) j ≡ (
          if 28 == j
          then to_int (nonzero (u8 v))
          else if 29 == j
          then to_int (nonzero (u8 c))
          else if 31 == j
          then to_int (nonzero (u8 n))
          else if 30 == j
          then to_int (nonzero (u8 z))
          else cpsr_bit p j))
unfolding update_flags
update_flags_lem z n c v j p user h =
    let p1 = flagged p 30 (u8 z) in
    let p2 = flagged p1 31 (u8 n) in
    let p3 = flagged p2 29 (u8 c) in
    let p4 = flagged p3 28 (u8 v) in
    let last = with_flag 28 (u8 v) (arm_read_cpsr p3) in
    let once : p4 ≡ put_reg p 16 last =
      rewritten p2 _ last ∙ rewritten p1 _ last ∙ rewritten p _ last in
    (
      last,
      bind_ok _ _ (update_flag_lem 30 (u8 z) p user) (
            bind_ok _ _ (update_flag_lem 31 (u8 n) p1 user)
              (bind_ok _ _ (update_flag_lem 29 (u8 c) p2 user) (update_flag_lem 28 (u8 v) p3 user)))
          ∙ ap (λ q. ok (tt, q)) once,
      ap (λ q. cpsr_bit q j) (sym once)
          ∙ simp (
            cpsr_bit-flagged p3 28 (u8 v) j (omega arith) h,
            cpsr_bit-flagged p2 29 (u8 c) j (omega arith) h,
            cpsr_bit-flagged p1 31 (u8 n) j (omega arith) h,
            cpsr_bit-flagged p 30 (u8 z) j (omega arith) h,
          ),
    )
