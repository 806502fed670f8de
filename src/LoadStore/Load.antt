-- ===== src/LoadStore/Load.antt =====
-- LDM: where its loop ends, and what its assertion comes to.
use uga_prog.Base.{
  ℕ, zero, suc, ◌+◌, ◌*◌, ◌^◌, ◌<◌, ◌≡◌, refl, arith, true, Bool-cases, inl, inr, add32, sub32,
  ◌==◌,
}
use mathlib.Core.Path.{subst}
use uga_prog.Base.Outcome.{Outcome, Stop, ok, stop, pure, halt, ◌>>=◌}
use uga_prog.Base.Keeps.{bind_ok}
use uga_prog.Util.{get_bit, get_bits}
use uga_prog.Util.Fields.{get_bits-lt}
use uga_prog.Core.{Core, Act, arm_read_word, arm_write_register}
use uga_prog.Core.User.{InUser}
use uga_prog.Condition.{cond_verifier, nonzero}
use uga_prog.LoadStore.Multiple.{
  count_loop, Range, Cursor, load_one, load_loop, load_pc, load_multiple, assert_end,
  transfer_multiple, arm_load_store_multiple,
}
use uga_prog.LoadStore.Count.{count_loop-add, count_loop-le, count_lem}
use uga_prog.LoadStore.Range.{the_range}
use uga_prog.LoadStore.Store.{multiple_stop}

-- What holds of the result of an action where it returns one.
abbrev Holds : {A : Type 0} → (A → Type 0) → Outcome (A × Core) → Type 0
Holds Q (ok (a, p)) = Q a
Holds Q (stop e) = Unit

record Gives {A : Type 0} (Q : A → Type 0) (m : Act A) : Type 0 where
  from : (p : Core) → Holds Q (m p)

anything : {A : Type 0} (m : Act A) → Gives (λ _. Unit) m
anything m = record { from = λ p. of (m p) }
  where
    of : {A : Type 0} (o : Outcome (A × Core)) → Holds (λ _. Unit) o
    of (ok (a, p)) = tt
    of (stop e) = tt

Gives-pure : {A : Type 0} (Q : A → Type 0) (a : A) → Q a → Gives Q (pure a)
unfolding pure
Gives-pure Q a h = record { from = λ p. h }

Gives-at :
    {A B : Type 0} {P : A → Type 0} {Q : B → Type 0} {f : A → Act B}
    → ((a : A) → P a → Gives Q (f a))
    → (o : Outcome (A × Core)) → Holds P o
    → Holds Q (let r : Outcome (B × Core) = elim o [ ok (a, p') ↦ f a p' | stop e ↦ stop e ] in r)
Gives-at gf (ok (a, p')) h = (gf a h).from p'
Gives-at gf (stop e) h = tt

Gives-bind :
    {A B : Type 0} (P : A → Type 0) (Q : B → Type 0) (m : Act A) (f : A → Act B)
    → Gives P m
    → ((a : A) → P a → Gives Q (f a))
    → Gives Q (m >>= f)
unfolding ◌>>=◌
Gives-bind P Q m f gm gf = record { from = λ p. Gives-at gf (m p) (gm.from p) }

abbrev At : ℕ → Cursor → Type 0
At address c = c.address ≡ address

Gives-load_one : (i : ℕ) (c : Cursor) → Gives (At (add32 c.address 4)) (load_one i c)
unfolding load_one
Gives-load_one i c = Gives-bind _ _ _ _ (anything (arm_read_word c.address)) λ result _.
    Gives-bind _ _ _ _ (anything _) λ loaded _.
      Gives-bind _ _ _ _ (anything (arm_write_register i loaded))
        λ _ _. Gives-pure (At (add32 c.address 4)) _ refl

Gives-load_loop :
    (left i field : ℕ) (c : Cursor)
    → c.address < 2 ^ 32
    → Gives (At (add32 c.address (4 * count_loop left i field 0))) (load_loop left i field c)
unfolding load_loop count_loop
Gives-load_loop zero i field c small = Gives-pure (At (add32 c.address 0)) c (omega arith)
Gives-load_loop (suc left) i field c small = elim (Bool-cases (nonzero (get_bit field i))) [
  | inl set ↦ rw set (
      Gives-bind (At (add32 c.address 4)) _ _ _ (Gives-load_one i c) λ c' e.
        moved c' _ (count_loop left (i + 1) field 0) (load_loop left (i + 1) field c') e
          (count_loop-add left (i + 1) field (0 + 1))
          (Gives-load_loop left (i + 1) field c' (omega arith)))
  | inr clear ↦ rw clear (
      Gives-bind (At c.address) _ _ _ (Gives-pure (At c.address) c refl) λ c' e.
        subst
          (λ a.
            Gives (At (add32 a (4 * count_loop left (i + 1) field 0)))
              (load_loop left (i + 1) field c'))
          e (Gives-load_loop left (i + 1) field c' (omega arith)))
]
  where
    moved :
        (c' : Cursor) (n k : ℕ) (m : Act Cursor)
        → c'.address ≡ add32 c.address 4
        → n ≡ 0 + 1 + k
        → Gives (At (add32 c'.address (4 * k))) m
        → Gives (At (add32 c.address (4 * n))) m
    moved c' n k m e f g =
        let same : add32 c'.address (4 * k) ≡ add32 c.address (4 * n) = omega arith in
        subst (λ a. Gives (At a) m) same g

Gives-assert_end : (e a : ℕ) → Gives (λ _. e ≡ sub32 a 4) (assert_end e a)
unfolding assert_end pure halt
Gives-assert_end e a = record {
  from = λ p. elim (Bool-cases (e == sub32 a 4)) [
    | inl same ↦ rw same (ground arith)
    | inr other ↦ rw other tt
  ];
}

-- Where an LDM's assertion holds.
Gives-load_multiple :
    (ins : ℕ) (range : Range)
    → range.start_address < 2 ^ 32
    → let n = count_loop 15 0 (get_bits ins 15 0) 0 in
      Gives
        (λ _. range.end_address ≡ sub32 (add32 (add32 range.start_address (4 * n)) 4) 4)
        (load_multiple ins range)
unfolding load_multiple
Gives-load_multiple ins range small =
    let n = count_loop 15 0 (get_bits ins 15 0) 0 in
    Gives-bind _ _ _ _ (Gives-load_loop 15 0 (get_bits ins 15 0) _ small) λ c e.
      Gives-bind _ _ _ _ (anything (load_pc ins c.address)) λ _ _.
        subst
          (λ a.
            Gives (λ _. range.end_address ≡ sub32 (add32 a 4) 4)
              (assert_end range.end_address (add32 c.address 4)))
          e (Gives-assert_end range.end_address (add32 c.address 4))

stops :
    {A : Type 0} {Q : A → Type 0} (o : Outcome (A × Core))
    → Holds Q o
    → ((a : A) → Q a → ⊥)
    → (s : Stop) × (o ≡ stop s)
stops (ok (a, p)) h never = absurd (never a h)
stops (stop s) h never = (s, refl)

-- In user mode an LDM whose condition passes and whose list does not hold the pc never returns: it
-- stops, at its assertion at the latest.
pub load_multiple_stops :
    (ins : ℕ) (p : Core)
    → InUser p
    → ((i : ℕ) → p.reg.reg i < 2 ^ 32)
    → nonzero (cond_verifier p (get_bits ins 31 28)) ≡ true
    → get_bit ins 20 ≡ 1
    → get_bit (get_bits ins 15 0) 15 ≡ 0
    → (s : Stop) × (arm_load_store_multiple ins p ≡ stop s)
unfolding transfer_multiple
load_multiple_stops ins p user fits passes loads no_pc =
    let list = get_bits ins 15 0 in
    let (range, p1, e, (small, end), user1) = the_range ins p user fits in
    let few = count_loop-le 15 0 list in
    let whole = count_lem list (get_bits-lt ins 15 0) in
    let (s, stopped) =
      stops (load_multiple ins range p1) ((Gives-load_multiple ins range small).from p1)
        (λ _ same. omega arith) in
    (s, multiple_stop ins p s passes (bind_ok _ _ e (rw loads stopped)))
