-- ===== src/Base/Keeps.antt =====
-- Symbolic execution of an action, and the rules by which actions keep an invariant.
use mathlib.Core.Path.{◌≡◌}
use mathlib.Core.Bool.{Bool, true, false}
use uga_prog.Base.Tests.{if◌then◌else◌}
use uga_prog.Base.Outcome.{Stop, Outcome, ok, stop, Run, pure, halt, lift, gets, query, ◌>>=◌}

-- One step of a `do` block whose first action is known to return.
pub bind_ok :
    {S A B : Type 0} (m : Run S A) (f : A → Run S B) {s : S} {a : A} {s' : S} {o : Outcome (B × S)}
    → m s ≡ ok (a, s')
    → f a s' ≡ o
    → (m >>= f) s ≡ o
unfolding ◌>>=◌
bind_ok m f e rest = rw (e, ◌>>=◌) rest

-- And one whose first action stops.
pub bind_stop :
    {S A B : Type 0} (m : Run S A) (f : A → Run S B) {s : S} {e : Stop}
    → m s ≡ stop e
    → (m >>= f) s ≡ stop e
unfolding ◌>>=◌
bind_stop m f e = rw (e, ◌>>=◌)

-- What holds of the state where an outcome is a return.
abbrev pub Ends : {S A : Type 0} → (S → Type 0) → Outcome (A × S) → Type 0
Ends P (ok (a, s)) = P s
Ends P (stop e) = Unit

-- Where `m` returns from a state with `P`, it leaves one with `P`.
pub record Keeps {S A : Type 0} (P : S → Type 0) (m : Run S A) : Type 0 where
  pub at : (s : S) → P s → Ends P (m s)

module _ {S A : Type 0} {P : S → Type 0} where
  pub Keeps-pure : (a : A) → Keeps P (pure a)
  unfolding pure
  Keeps-pure a = record { at = λ s h. h }

  pub Keeps-halt : (e : Stop) → Keeps P (halt {A = A} e)
  unfolding halt
  Keeps-halt e = record { at = λ s h. tt }

  pub Keeps-gets : (f : S → A) → Keeps P (gets f)
  unfolding gets
  Keeps-gets f = record { at = λ s h. h }

  pub Keeps-lift : (o : Outcome A) → Keeps P (lift o)
  unfolding lift
  Keeps-lift (ok a) = record { at = λ s h. h }
  Keeps-lift (stop e) = record { at = λ s h. tt }

  pub Keeps-query : (f : S → Outcome A) → Keeps P (query f)
  unfolding query
  Keeps-query f = record { at = λ s h. kept (f s) s h }
    where
      kept :
          (o : Outcome A) (s : S)
          → P s
          → Ends P (let r : Outcome (A × S) = elim o [ ok a ↦ ok (a, s) | stop e ↦ stop e ] in r)
      kept (ok a) s h = h
      kept (stop e) s h = tt

  pub Keeps-if : (b : Bool) (m n : Run S A) → Keeps P m → Keeps P n → Keeps P (if b then m else n)
  Keeps-if true m n km kn = km
  Keeps-if false m n km kn = kn

module _ {S A B : Type 0} {P : S → Type 0} where
  Ends-bind :
      (o : Outcome (A × S)) (f : A → Run S B)
      → Ends P o
      → ((a : A) → Keeps P (f a))
      → Ends P (let r : Outcome (B × S) = elim o [ ok (a, s') ↦ f a s' | stop e ↦ stop e ] in r)
  Ends-bind (ok (a, s')) f h kf = (kf a).at s' h
  Ends-bind (stop e) f h kf = tt

  pub Keeps-bind :
      (m : Run S A) (f : A → Run S B) → Keeps P m → ((a : A) → Keeps P (f a)) → Keeps P (m >>= f)
  unfolding ◌>>=◌
  Keeps-bind m f km kf = record { at = λ s h. Ends-bind (m s) f (km.at s h) kf }

pub ruleset keeps_rules =
    (Keeps-pure, Keeps-halt, Keeps-gets, Keeps-lift, Keeps-query, Keeps-if, Keeps-bind)
