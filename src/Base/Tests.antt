-- ===== src/Base/Tests.antt =====
-- Boolean tests on native numbers, the conditional, and the update of an array.
use Prim.Native.Nat.{ℕ, zero, suc, ◌≤◌, ◌<◌, compare, Ordering}
use mathlib.Core.Path.{◌≡◌, refl, subst}
use mathlib.Core.Logic.{◌⊎◌, ◌≢◌, inl, inr}
use mathlib.Core.Bool.{Bool, true, false}
use native.Mathlib.Omega.{arith}

abbrev pub ltb : ℕ → ℕ → Bool
ltb a b = elim (compare a b) [ Ordering.lt ↦ true | _ ↦ false ]

abbrev pub leb : ℕ → ℕ → Bool
leb a b = elim (compare a b) [ Ordering.gt ↦ false | _ ↦ true ]

infix 50 ◌==◌
abbrev pub ◌==◌ : ℕ → ℕ → Bool
a == b = elim (compare a b) [ Ordering.eq ↦ true | _ ↦ false ]

infix 1 if◌then◌else◌
abbrev pub if◌then◌else◌ {ℓ} : {A : Type ℓ} → Bool → A → A → A
if true then x else _ = x
if false then _ else y = y

-- A C array as a function of the index, with one element written.
abbrev pub update : (ℕ → ℕ) → ℕ → ℕ → ℕ → ℕ
update f i v j = if j == i then v else f j

pub lt→ltb : (a b : ℕ) → a < b → ltb a b ≡ true
lt→ltb a b h = ground arith

pub le→leb : (a b : ℕ) → a ≤ b → leb a b ≡ true
le→leb a b h = ground arith

pub le→ltb_false : (a b : ℕ) → b ≤ a → ltb a b ≡ false
le→ltb_false a b h = ground arith

pub ==_refl : (a : ℕ) → (a == a) ≡ true
==_refl a = ground arith

pub ne→==_false : (a b : ℕ) → a ≢ b → (a == b) ≡ false
ne→==_false a b h = ground arith

pub Bool-cases : (b : Bool) → (b ≡ true) ⊎ (b ≡ false)
Bool-cases true = inl refl
Bool-cases false = inr refl

-- A statement at each number below `n`, one by one.
abbrev pub AllBelow {ℓ} : ℕ → (ℕ → Type ℓ) → Type ℓ
AllBelow zero P = Unit
AllBelow (suc n) P = AllBelow n P × P n

pub AllBelow-all {ℓ} : (n : ℕ) (P : ℕ → Type ℓ) → ((i : ℕ) → i < n → P i) → AllBelow n P
AllBelow-all zero P h = tt
AllBelow-all (suc n) P h = (AllBelow-all n P (λ i below. h i (omega arith)), h n (omega arith))

pub AllBelow-at {ℓ} : (n : ℕ) (P : ℕ → Type ℓ) → AllBelow n P → (i : ℕ) → i < n → P i
AllBelow-at zero P all i h = absurd (omega arith)
AllBelow-at (suc n) P all i h = elim (Bool-cases (i == n)) [
  | inl same ↦ subst P (ground arith) all.1
  | inr other ↦ AllBelow-at n P all.0 i (ground arith)
]
