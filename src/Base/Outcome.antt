-- ===== src/Base/Outcome.antt =====
-- How a call of the simulator's code can end, and the state monad of its functions.
use Prim.Native.Nat.{ℕ}

-- Where the model stops: the C behaviour is undefined, or the process ends.
pub data Stop : Type 0 where
  out_of_bounds : Stop
  uninitialised : Stop
  wide_shift : Stop
  null_pointer : Stop
  assertion_failed : Stop
  exited : ℕ → Stop
  -- A write to a socket that is shut down for writing, whose signal ends the process.
  broken_pipe : Stop
  -- The rounds given were too few for a loop that may never end.
  unfinished : Stop

pub data Outcome (A : Type 0) : Type 0 where
  ok : A → Outcome A
  stop : Stop → Outcome A

-- A computation over a state `S`.
abbrev pub Run : Type 0 → Type 0 → Type 0
Run S A = S → Outcome (A × S)

unfoldable pub pure : {S A : Type 0} → A → Run S A
pure a s = ok (a, s)

unfoldable pub halt : {S A : Type 0} → Stop → Run S A
halt e s = stop e

unfoldable pub lift : {S A : Type 0} → Outcome A → Run S A
lift o s = elim o [ ok a ↦ ok (a, s) | stop e ↦ stop e ]

unfoldable pub gets : {S A : Type 0} → (S → A) → Run S A
gets f s = ok (f s, s)

unfoldable pub modify : {S : Type 0} → (S → S) → Run S (Unit {0})
modify f s = ok (tt, f s)

-- A part of the state read, or changed, by a call that may stop.
unfoldable pub query : {S A : Type 0} → (S → Outcome A) → Run S A
query f s = elim (f s) [ ok a ↦ ok (a, s) | stop e ↦ stop e ]

unfoldable pub change : {S : Type 0} → (S → Outcome S) → Run S (Unit {0})
change f s = elim (f s) [ ok s' ↦ ok (tt, s') | stop e ↦ stop e ]

infixl 5 ◌>>=◌ ◌>>◌
-- To unfold it is to run the actions above too.
unfoldable pub ◌>>=◌ : {S A B : Type 0} → Run S A → (A → Run S B) → Run S B
unfolding pure halt lift gets modify query change
◌>>=◌ m f s = elim (m s) [ ok (a, s') ↦ f a s' | stop e ↦ stop e ]

abbrev pub ◌>>◌ : {S A B : Type 0} → Run S A → Run S B → Run S B
m >> k = m >>= λ _. k
