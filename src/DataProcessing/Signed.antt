-- ===== src/DataProcessing/Signed.antt =====
-- The flags of ADD and SUB with S, as numbers and as signed numbers.
use uga_prog.Base.{
  Bool, true, ◌⊎◌, inl, inr, ℕ, ◌+◌, ◌/◌, ◌%◌, ◌^◌, ◌<◌, ◌≡◌, ◌≢◌, ◌∙◌, ap, refl, arith, ◌&&◌, not,
  u8, add32, sub32, ltb, leb, ◌==◌, if◌then◌else◌, false, ne→==_false,
}
use uga_prog.Base.Outcome.{ok, ◌>>=◌}
use uga_prog.Base.Keeps.{bind_ok}
use uga_prog.Registers.{read_cpsr}
use uga_prog.Util.{get_bit}
use uga_prog.Util.Fields.{get_bit-lt_two, get_bit_lem}
use uga_prog.Core.{Core, Act, seen_by, arm_read_cpsr, arm_read_register, arm_write_register}
use uga_prog.Core.User.{InUser, put_reg, arm_read_register_lem, arm_write_register-user}
use uga_prog.Condition.{nonzero, to_int}
use uga_prog.DataProcessing.Flags.{
  add, sub, carry_from, borrow_from, overflow_from, update_flags, zero_flag, after_write,
}
use uga_prog.DataProcessing.UpdateFlags.{cpsr_bit, update_flags_lem}
use uga_prog.DataProcessing.Dispatch.{switch_opcode}
use uga_prog.DataProcessing.Operations.{add_process, add_flags, sub_process, sub_flags}

-- A word as a signed number, 2^31 above it.
abbrev pub biased : ℕ → ℕ
biased x = (x + 2 ^ 31) % 2 ^ 32

-- Whether the signed sum, or difference, is no word.
abbrev pub sum_overflows : ℕ → ℕ → Bool
sum_overflows a v =
    not (leb (2 ^ 31) (biased a + biased v) && ltb (biased a + biased v) (2 ^ 31 + 2 ^ 32))

abbrev pub difference_overflows : ℕ → ℕ → Bool
difference_overflows a v =
    not (leb (biased v) (biased a + 2 ^ 31) && ltb (biased a) (biased v + 2 ^ 31))

overflow_from-add :
    (a v : ℕ)
    → a < 2 ^ 32
    → v < 2 ^ 32
    → overflow_from a v (add32 a v) add ≡ to_int (sum_overflows a v)
unfolding overflow_from
overflow_from-add a v ha hv =
    ground (arith, get_bit_lem a 31, get_bit_lem v 31, get_bit_lem (add32 a v) 31)

overflow_from-sub :
    (a v : ℕ)
    → a < 2 ^ 32
    → v < 2 ^ 32
    → overflow_from a v (sub32 a v) sub ≡ to_int (difference_overflows a v)
unfolding overflow_from
overflow_from-sub a v ha hv =
    ground (arith, get_bit_lem a 31, get_bit_lem v 31, get_bit_lem (sub32 a v) 31)

carry_from-add :
    (a v : ℕ) → a < 2 ^ 32 → v < 2 ^ 32 → carry_from (a + v) ≡ to_int (leb (2 ^ 32) (a + v))
unfolding carry_from
carry_from-add a v ha hv = ground (arith, get_bit_lem ((a + v) / 2 ^ 32) 0)

-- What the flags come to, by their bits: V, C, N and Z.
abbrev pub flag_at : (z n c v : ℕ) → Core → ℕ → ℕ
flag_at z n c v p j =
    if j == 28
    then v
    else if j == 29
    then c
    else if j == 31
    then n
    else if j == 30
    then z
    else cpsr_bit p j

abbrev pub Flags : ℕ → ℕ → (c v : Bool) → ℕ → Act (Unit {0}) → Core → Type 0
Flags rd result c v j act p =
    (w : ℕ) × (act p ≡ ok (tt, put_reg (put_reg p rd result) 16 w))
    × (cpsr_bit (put_reg (put_reg p rd result) 16 w) j
        ≡ flag_at (to_int (rd == 0)) (get_bit result 31) (to_int c) (to_int v) p j)

flag_kept : (b : Bool) → to_int (nonzero (u8 (to_int b))) ≡ to_int b
flag_kept true = refl
flag_kept false = refl

-- The end of both operations: the flags, from Rn read again, which the write left as it was.
flags_after :
    (rn rd result j : ℕ) (c v : ℕ → ℕ) (carry overflow : Bool) (p : Core)
    → InUser p
    → rn < 16
    → rd < 15
    → rn ≢ rd
    → rd ≢ seen_by 15 (p.reg.reg 15)
    → c (seen_by rn (p.reg.reg rn)) ≡ to_int carry
    → v (seen_by rn (p.reg.reg rn)) ≡ to_int overflow
    → j < 32
    → Flags rd result carry overflow j
        (arm_write_register rd result >>= λ _. after_write rd 1 (
          arm_read_register rn >>= λ a.
          update_flags (zero_flag rd) (get_bit result 31) (c a) (v a)))
        p
unfolding after_write arm_read_cpsr read_cpsr
flags_after rn rd result j c v carry overflow p user hn hd apart no_pc hc hv hj =
    let a = seen_by rn (p.reg.reg rn) in
    let q = put_reg p rd result in
    let (w, run, flag) =
      update_flags_lem (zero_flag rd) (get_bit result 31) (c a) (v a) j q user hj in
    let same_rn : q.reg.reg rn ≡ p.reg.reg rn = ground arith in
    let same_pc : q.reg.reg 15 ≡ p.reg.reg 15 = ground arith in
    let not_pc : (rd == seen_by 15 (q.reg.reg 15)) ≡ false =
      ne→==_false _ _ (λ e. no_pc (e ∙ ap (seen_by 15) same_pc)) in
    let n = get_bit-lt_two result 31 in
    let kept = flag_kept carry in
    let kept_too = flag_kept overflow in
    (
      w,
      bind_ok _ _ (arm_write_register-user rd result p user (omega arith)) (
          bind_ok _ _ (arm_read_register_lem 15 q (omega arith)) (
            rw not_pc (
              bind_ok _ _
                (arm_read_register_lem rn q (omega arith) ∙ ap (λ t. ok (seen_by rn t, q)) same_rn)
                run))),
      flag ∙ ground arith,
    )

add_left :
    (rn rd v j : ℕ) (p : Core)
    → InUser p
    → rn < 16
    → rd < 15
    → rn ≢ rd
    → rd ≢ seen_by 15 (p.reg.reg 15)
    → seen_by rn (p.reg.reg rn) < 2 ^ 32
    → v < 2 ^ 32
    → j < 32
    → (let a = seen_by rn (p.reg.reg rn) in
        Flags rd (add32 a v) (leb (2 ^ 32) (a + v)) (sum_overflows a v) j (add_process rn rd v 1) p)
unfolding add_process add_flags
add_left rn rd v j p user hn hd apart no_pc ha hv hj =
    let a = seen_by rn (p.reg.reg rn) in
    let (w, run, flag) =
      flags_after rn rd (add32 a v) j (λ b. carry_from (b + v))
        (λ b. overflow_from b v (add32 a v) add) (leb (2 ^ 32) (a + v)) (sum_overflows a v) p user
        hn hd apart no_pc (carry_from-add a v ha hv) (overflow_from-add a v ha hv) hj in
    (w, bind_ok _ _ (arm_read_register_lem rn p (omega arith)) run, flag)

borrow_from-zero : (x : ℕ) → to_int (not (nonzero (borrow_from x))) ≡ 1
unfolding borrow_from
borrow_from-zero x = ground arith

sub_left :
    (rn rd v j : ℕ) (p : Core)
    → InUser p
    → rn < 16
    → rd < 15
    → rn ≢ rd
    → rd ≢ seen_by 15 (p.reg.reg 15)
    → seen_by rn (p.reg.reg rn) < 2 ^ 32
    → v < 2 ^ 32
    → j < 32
    → (let a = seen_by rn (p.reg.reg rn) in
        Flags rd (sub32 a v) true (difference_overflows a v) j (sub_process rn rd v 1) p)
unfolding sub_process sub_flags
sub_left rn rd v j p user hn hd apart no_pc ha hv hj =
    let a = seen_by rn (p.reg.reg rn) in
    let (w, run, flag) =
      flags_after rn rd (sub32 a v) j (λ b. to_int (not (nonzero (borrow_from (sub32 b v)))))
        (λ b. overflow_from b v (sub32 a v) sub) true (difference_overflows a v) p user hn hd apart
        no_pc (borrow_from-zero (sub32 a v)) (overflow_from-sub a v ha hv) hj in
    (w, bind_ok _ _ (arm_read_register_lem rn p (omega arith)) run, flag)

-- In user mode, SUB or ADD with S, of a Rn and an operand of 32 bits, to a Rd that is not Rn or the pc and
-- whose number is not what the pc reads as. It returns, and changes Rd and the CPSR only. Rd gets the
-- difference or sum, and of the CPSR the flags alone change: N is its bit 31, V says whether the
-- signed result is no word, C of ADD whether there is a carry out of bit 31, C of SUB is set whatever the
-- operands, and Z says whether Rd is r0.
pub switch_opcode-signed :
    (p : Core) (opcode rn rd v carry j : ℕ)
    → InUser p
    → (opcode ≡ 2) ⊎ (opcode ≡ 4)
    → rn < 16
    → rd < 15
    → rn ≢ rd
    → rd ≢ seen_by 15 (p.reg.reg 15)
    → seen_by rn (p.reg.reg rn) < 2 ^ 32
    → v < 2 ^ 32
    → j < 32
    → (let a = seen_by rn (p.reg.reg rn) in
        let adds = opcode == 4 in
        Flags rd
          (if adds then add32 a v else sub32 a v)
          (if adds then leb (2 ^ 32) (a + v) else true)
          (if adds then sum_overflows a v else difference_overflows a v)
          j
          (switch_opcode opcode rn rd 1 v carry)
          p)
unfolding switch_opcode
switch_opcode-signed p opcode rn rd v carry j user (inl e) hn hd apart no_pc ha hv hj =
    rw e (sub_left rn rd v j p user hn hd apart no_pc ha hv hj)
switch_opcode-signed p opcode rn rd v carry j user (inr e) hn hd apart no_pc ha hv hj =
    rw e (add_left rn rd v j p user hn hd apart no_pc ha hv hj)
