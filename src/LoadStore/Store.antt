-- ===== src/LoadStore/Store.antt =====
-- STM: its loop, and what its assertion comes to.
use uga_prog.Base.{
  ℕ, zero, suc, ◌+◌, ◌*◌, ◌^◌, ◌≤◌, ◌<◌, ◌≡◌, refl, ap, ◌∙◌, sym, arith, true, false, Bool-cases,
  inl, inr, Option, none, some, add32, sub32, ◌==◌, if◌then◌else◌,
}
use uga_prog.Base.Outcome.{Stop, ok, stop, gets, pure, halt}
use uga_prog.Base.Keeps.{bind_ok, bind_stop}
use uga_prog.Util.{get_bit, get_bits}
use uga_prog.Util.Fields.{get_bits-lt, get_bit-lt_two}
use uga_prog.Memory.{Memory, memory_write_word}
use uga_prog.Core.{Core, seen_by, arm_write_word, stored}
use uga_prog.Core.User.{InUser, arm_read_register_lem}
use uga_prog.Condition.{cond_verifier, nonzero}
use uga_prog.LoadStore.Multiple.{
  count_loop, number_of_set_bits_in, Range, store_one, store_loop, assert_end, store_multiple,
  transfer_multiple, arm_load_store_multiple,
}
use uga_prog.LoadStore.Count.{count_loop-add, count_loop-le, count_lem}
use uga_prog.LoadStore.Range.{IsRange, the_range}

-- A store returns, and touches the memory only.
stored_returns :
    (f : Memory → Option Memory) (p : Core)
    → (r : ℕ) × (p' : Core) × (stored f p ≡ ok (r, p')) × (p'.reg ≡ p.reg)
unfolding stored
stored_returns f p = after (f p.mem)
  where
    after :
        (o : Option Memory)
        → (r : ℕ) × (p' : Core) × (stored (λ _. o) p ≡ ok (r, p')) × (p'.reg ≡ p.reg)
    after none = (_, _, refl, refl)
    after (some m) = (_, _, refl, refl)

-- Each round of the store loop returns in user mode, and moves on by 4 for a register of the list.
store_one_lem :
    (i address : ℕ) (p : Core)
    → i < 16
    → InUser p
    → (p' : Core) × (store_one i address p ≡ ok (add32 address 4, p')) × InUser p'
unfolding store_one pure arm_write_word
store_one_lem i address p hi user =
    let (r, p', e, same) =
      stored_returns (λ m. memory_write_word m address (seen_by i (p.reg.reg i))) p in
    (
      p',
      bind_ok _ _ (arm_read_register_lem i p (omega arith)) (bind_ok _ _ e refl),
      ap (λ t. t.mode) same ∙ user,
    )

advance : (address n : ℕ) → add32 (add32 address 4) (4 * n) ≡ add32 address (4 * (0 + 1 + n))
advance address n = omega arith

pub store_loop_lem :
    (left i field address : ℕ) (p : Core)
    → left + i ≤ 16
    → address < 2 ^ 32
    → InUser p
    → (p' : Core) × (store_loop left i field address p
        ≡ ok (add32 address (4 * count_loop left i field 0), p'))
      × InUser p'
unfolding store_loop count_loop pure
store_loop_lem zero i field address p hi ha user =
    (p, ap (λ (t : ℕ). ok (t, p)) (omega arith), user)
store_loop_lem (suc left) i field address p hi ha user =
    elim (Bool-cases (nonzero (get_bit field i))) [
      | inl set ↦
          let (p1, e, user1) = store_one_lem i address p (omega arith) user in
          let (p2, rest, user2) =
            store_loop_lem left (i + 1) field (add32 address 4) p1 (omega arith) (omega arith)
              user1 in
          (
            p2,
            rw set (
                bind_ok _ _ e (
                  rest
                  ∙ ap (λ t. ok (t, p2))
                      (advance address (count_loop left (i + 1) field 0)
                        ∙ ap (λ t. add32 address (4 * t))
                            (sym (count_loop-add left (i + 1) field (0 + 1)))))),
            user2,
          )
      | inr clear ↦
          let (p2, rest, user2) =
            store_loop_lem left (i + 1) field address p (omega arith) ha user in
          (p2, rw clear (bind_ok _ _ refl rest), user2)
    ]

-- The end of a store, where the loop wrote below the last register.
store_multiple_lem :
    (ins : ℕ) (range : Range) (p : Core)
    → InUser p
    → IsRange (number_of_set_bits_in (get_bits ins 15 0) * 4) range
    → (p' : Core) × (store_multiple ins range p
        ≡ (if get_bit (get_bits ins 15 0) 15 == 0 then ok (tt, p') else stop Stop.assertion_failed))
unfolding store_multiple assert_end pure halt
store_multiple_lem ins range p user (small, end) =
    let list = get_bits ins 15 0 in
    let (p', e, user') = store_loop_lem 15 0 list range.start_address p (omega arith) small user in
    let few = count_loop-le 15 0 list in
    let whole = count_lem list (get_bits-lt ins 15 0) in
    let b2 = get_bit-lt_two list 15 in
    (
      p',
      elim (Bool-cases (get_bit list 15 == 0)) [
        | inl clear ↦
            let meets : (range.end_address
                  == sub32 (add32 range.start_address (4 * count_loop 15 0 list 0)) 4)
                ≡ true =
              ground arith in
            rw clear (bind_ok _ _ e (rw meets refl))
        | inr set ↦
            let misses : (range.end_address
                  == sub32 (add32 range.start_address (4 * count_loop 15 0 list 0)) 4)
                ≡ false =
              ground arith in
            rw set (bind_ok _ _ e (rw misses refl))
      ],
    )

pub multiple_ok :
    (ins : ℕ) (p p' : Core)
    → nonzero (cond_verifier p (get_bits ins 31 28)) ≡ true
    → transfer_multiple ins p ≡ ok (tt, p')
    → arm_load_store_multiple ins p ≡ ok (0, p')
unfolding arm_load_store_multiple gets pure
multiple_ok ins p p' passes e = bind_ok _ _ refl (rw passes (bind_ok _ _ e refl))

pub multiple_stop :
    (ins : ℕ) (p : Core) (s : Stop)
    → nonzero (cond_verifier p (get_bits ins 31 28)) ≡ true
    → transfer_multiple ins p ≡ stop s
    → arm_load_store_multiple ins p ≡ stop s
unfolding arm_load_store_multiple gets
multiple_stop ins p s passes e = bind_ok _ _ refl (rw passes (bind_stop _ _ e))

-- In user mode an STM whose condition passes returns 0 if the pc is not in its list, and fails its
-- assertion if it is.
pub store_multiple_returns :
    (ins : ℕ) (p : Core)
    → InUser p
    → ((i : ℕ) → p.reg.reg i < 2 ^ 32)
    → nonzero (cond_verifier p (get_bits ins 31 28)) ≡ true
    → get_bit ins 20 ≡ 0
    → (p' : Core) × (arm_load_store_multiple ins p
        ≡ (if get_bit (get_bits ins 15 0) 15 == 0 then ok (0, p') else stop Stop.assertion_failed))
unfolding transfer_multiple
store_multiple_returns ins p user fits passes store =
    let (range, p1, e, shape, user1) = the_range ins p user fits in
    let (p2, stored) = store_multiple_lem ins range p1 user1 shape in
    (
      p2,
      elim (Bool-cases (get_bit (get_bits ins 15 0) 15 == 0)) [
        | inl clear ↦
            rw clear (multiple_ok ins p p2 passes (bind_ok _ _ e (rw store (rw clear at stored))))
        | inr set ↦
            rw set (multiple_stop ins p _ passes (bind_ok _ _ e (rw store (rw set at stored))))
      ],
    )
