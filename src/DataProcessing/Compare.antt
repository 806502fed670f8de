-- ===== src/DataProcessing/Compare.antt =====
-- What the four comparisons of arm_data_processing.c leave: TST, TEQ, CMP and CMN.
use uga_prog.Base.{
  ℕ, ◌≤◌, ◌<◌, ◌≡◌, ◌≢◌, ◌∙◌, refl, arith, bit_and, bit_xor, add32, sub32, ltb, ◌==◌, if◌then◌else◌,
  AllBelow, AllBelow-all, AllBelow-at,
}
use uga_prog.Base.Outcome.{ok, gets, ◌>>=◌}
use uga_prog.Base.Keeps.{bind_ok}
use uga_prog.Registers.{read_cpsr}
use uga_prog.Util.{get_bit}
use uga_prog.Util.Fields.{get_bit-lt_two}
use uga_prog.Core.{Core, Act, seen_by, arm_read_cpsr, arm_read_register, arm_write_register}
use uga_prog.Core.User.{InUser, put_reg, arm_read_register_lem, arm_write_register-user}
use uga_prog.Condition.{to_int}
use uga_prog.DataProcessing.Flags.{update_flags, zero_flag}
use uga_prog.DataProcessing.UpdateFlags.{cpsr_bit, update_flags_lem}
use uga_prog.DataProcessing.Operations.{
  tst_process, teq_process, cmp_process, cmn_process, logical_flags,
}
use uga_prog.DataProcessing.Dispatch.{switch_opcode}

-- What a comparison computes of Rn and the operand.
abbrev pub compared : ℕ → ℕ → ℕ → ℕ
compared opcode a b =
    if opcode == 8
    then bit_and a b
    else if opcode == 9
    then bit_xor a b
    else if opcode == 10
    then sub32 a b
    else add32 a b

-- An action that writes a register and the CPSR, and leaves bit `j` of that as told.
abbrev pub Leaves : ℕ → ℕ → ℕ → ℕ → Act (Unit {0}) → Core → Type 0
Leaves target result z j act p =
    (w : ℕ) × (act p ≡ ok (tt, put_reg (put_reg p target result) 16 w))
    × (cpsr_bit (put_reg (put_reg p target result) 16 w) j
        ≡ (if j == 31 then get_bit result 31 else if j == 30 then z else cpsr_bit p j))

flags_left :
    (target result z c v j : ℕ) (p : Core)
    → InUser p
    → target < 16
    → z < 2
    → j < 32
    → j ≢ 28
    → j ≢ 29
    → (w : ℕ) × (update_flags z (get_bit result 31) c v (put_reg p target result)
        ≡ ok (tt, put_reg (put_reg p target result) 16 w))
      × (cpsr_bit (put_reg (put_reg p target result) 16 w) j
          ≡ (if j == 31 then get_bit result 31 else if j == 30 then z else cpsr_bit p j))
unfolding arm_read_cpsr read_cpsr
flags_left target result z c v j p user general bool_z hj not_v not_c =
    let (w, run, flag) =
      update_flags_lem z (get_bit result 31) c v j (put_reg p target result) user hj in
    let n = get_bit-lt_two result 31 in (w, run, flag ∙ ground arith)

-- Of the tests the flags come behind the V flag, and of the others behind a second read of Rn.
logical_left :
    (rn rd carry j : ℕ) (f : ℕ → ℕ) (p : Core)
    → InUser p
    → rn < 16
    → rd < 16
    → j < 32
    → j ≢ 28
    → j ≢ 29
    → Leaves rd
        (f (seen_by rn (p.reg.reg rn)))
        (zero_flag rd)
        j
        (arm_read_register rn >>= λ a.
          arm_write_register rd (f a) >>= λ _. logical_flags rd (f a) carry)
        p
unfolding logical_flags gets
logical_left rn rd carry j f p user hn hd hj not_v not_c =
    let result = f (seen_by rn (p.reg.reg rn)) in
    let (w, run, flag) =
      flags_left rd result (zero_flag rd) carry _ j p user hd (ground arith) hj not_v not_c in
    (
      w,
      bind_ok _ _ (arm_read_register_lem rn p (omega arith)) (
          bind_ok _ _ (arm_write_register-user rd result p user (omega arith))
            (bind_ok _ _ refl run)),
      flag,
    )

arithmetic_left :
    (rn j : ℕ) (f : ℕ → ℕ) (c v : ℕ → ℕ → ℕ) (p : Core)
    → InUser p
    → rn < 16
    → j < 32
    → j ≢ 28
    → j ≢ 29
    → Leaves rn
        (f (seen_by rn (p.reg.reg rn)))
        (to_int (f (seen_by rn (p.reg.reg rn)) == 0))
        j
        (arm_read_register rn >>= λ a. arm_write_register rn (f a) >>= λ _.
          arm_read_register rn >>= λ b.
          update_flags (to_int (f a == 0)) (get_bit (f a) 31) (c a b) (v a b))
        p
arithmetic_left rn j f c v p user hn hj not_v not_c =
    let a = seen_by rn (p.reg.reg rn) in
    let (w, run, flag) =
      flags_left rn (f a) (to_int (f a == 0)) (c a _) (v a _) j p user hn (ground arith) hj not_v
        not_c in
    (
      w,
      bind_ok _ _ (arm_read_register_lem rn p (omega arith)) (
          bind_ok _ _ (arm_write_register-user rn (f a) p user (omega arith))
            (bind_ok _ _ (arm_read_register_lem rn (put_reg p rn (f a)) (omega arith)) run)),
      flag,
    )

-- The register that a comparison writes, and its Z.
abbrev pub target_of : ℕ → ℕ → ℕ → ℕ
target_of opcode rn rd = if ltb opcode 10 then rd else rn

abbrev pub zero_of : ℕ → ℕ → ℕ → ℕ
zero_of opcode rd result =
    if ltb opcode 10 then (if rd == 0 then 1 else 0) else to_int (result == 0)

abbrev ComparesAs : Core → ℕ → ℕ → ℕ → ℕ → ℕ → ℕ → ℕ → Type 0
ComparesAs p rn rd s v carry j opcode =
    8 ≤ opcode
    → (let result = compared opcode (seen_by rn (p.reg.reg rn)) v in
        Leaves (target_of opcode rn rd) result (zero_of opcode rd result) j
          (switch_opcode opcode rn rd s v carry) p)

compare_table :
    (p : Core) (rn rd s v carry j : ℕ)
    → InUser p
    → rn < 16
    → rd < 16
    → j < 32
    → j ≢ 28
    → j ≢ 29
    → AllBelow 12 (ComparesAs p rn rd s v carry j)
unfolding switch_opcode tst_process teq_process cmp_process cmn_process
compare_table p rn rd s v carry j user hn hd hj not_v not_c =
    let none_below : AllBelow 8 (ComparesAs p rn rd s v carry j) =
      AllBelow-all 8 (ComparesAs p rn rd s v carry j) (λ i below enough. absurd (omega arith)) in
    (
      (
        (
          (
            none_below,
            λ _. logical_left rn rd carry j (λ a. bit_and a v) p user hn hd hj not_v not_c,
          ),
          λ _. logical_left rn rd carry j (λ a. bit_xor a v) p user hn hd hj not_v not_c,
        ),
        λ _. arithmetic_left rn j (λ a. sub32 a v) _ _ p user hn hj not_v not_c,
      ),
      λ _. arithmetic_left rn j (λ a. add32 a v) _ _ p user hn hj not_v not_c,
    )

-- In user mode a comparison returns, and writes its result to a register as well as the flags: TST and
-- TEQ to Rd, CMP and CMN to Rn. Of the CPSR, C and V aside, N is bit 31 of the result, and no other bit
-- than Z changes. Z says of CMP and CMN whether the result is 0, and of TST and TEQ whether Rd is r0.
pub switch_opcode-compared :
    (p : Core) (opcode rn rd s v carry j : ℕ)
    → InUser p
    → 8 ≤ opcode
    → opcode < 12
    → rn < 16
    → rd < 16
    → j < 32
    → j ≢ 28
    → j ≢ 29
    → (let result = compared opcode (seen_by rn (p.reg.reg rn)) v in
        Leaves
          (target_of opcode rn rd)
          result
          (zero_of opcode rd result)
          j
          (switch_opcode opcode rn rd s v carry)
          p)
switch_opcode-compared p opcode rn rd s v carry j user low high hn hd hj not_v not_c =
    AllBelow-at 12 (ComparesAs p rn rd s v carry j)
      (compare_table p rn rd s v carry j user hn hd hj not_v not_c) opcode high low
