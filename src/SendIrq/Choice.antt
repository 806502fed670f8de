-- ===== src/SendIrq/Choice.antt =====
-- What the name of an interrupt chooses.
use uga_prog.Base.{
  ℕ, zero, suc, ◌+◌, ◌≤◌, ◌<◌, AllBelow-at, ◌≡◌, ◌≢◌, ◌⊎◌, ◌∙◌, refl, ap, sym, arith, Bool,
  Bool-cases, inl, inr, true, false, List, [], ◌∷◌, Option, none, some, u8, ltb, ◌==◌, ==_refl,
  if◌then◌else◌,
}
use mathlib.Core.Path.{subst}
use uga_prog.Base.Outcome.{Outcome, Stop, ok, stop}
use uga_prog.Text.{same_text}
use uga_prog.Names.{arm_get_exception_name}
use uga_prog.SendIrq.{search_irq, irq_to_send}

same_text_sound : (a b : List ℕ) → same_text a b ≡ true → a ≡ b
unfolding same_text
same_text_sound [] [] e = refl
same_text_sound [] (y ∷ b) e = absurd (ground (arith, e))
same_text_sound (x ∷ a) [] e = absurd (ground (arith, e))
same_text_sound (x ∷ a) (y ∷ b) e = elim (Bool-cases (x == y)) [
  | inl same ↦
      let heads : x ≡ y = ground arith in
      ap (λ z. z ∷ a) heads ∙ ap (λ t. y ∷ t) (same_text_sound a b (rw same at e))
  | inr other ↦ absurd (ground (arith, (rw other at e)))
]

same_text_refl : (a : List ℕ) → same_text a a ≡ true
unfolding same_text
same_text_refl [] = refl
same_text_refl (x ∷ a) = rw (==_refl x) (same_text_refl a)

-- A name that the search meets, or none of them.
abbrev pub IsChoice : List ℕ → Outcome ℕ → Type 0
IsChoice name o =
    ((irq : ℕ) × (o ≡ ok irq) × (arm_get_exception_name irq ≡ some name))
    ⊎ ((o ≡ stop (Stop.exited 2)) × ((irq : ℕ) → arm_get_exception_name irq ≢ some name))

name-none : (irq : ℕ) → 8 ≤ irq → arm_get_exception_name irq ≡ none
unfolding arm_get_exception_name
name-none irq h = ground arith

name-zero : arm_get_exception_name 0 ≡ none
unfolding arm_get_exception_name
name-zero = refl

-- The exceptions 1 to 7.
IsNamed : ℕ → Type 0
IsNamed j = (text : List ℕ) × (arm_get_exception_name (suc j) ≡ some text)

name-some :
    (irq : ℕ) → 1 ≤ irq → irq < 8 → (text : List ℕ) × (arm_get_exception_name irq ≡ some text)
unfolding arm_get_exception_name IsNamed
name-some zero low high = absurd (omega arith)
name-some (suc j) low high =
    AllBelow-at 7 IsNamed
      ((
        ((((((tt, (_, refl)), (_, refl)), (_, refl)), (_, refl)), (_, refl)), (_, refl)),
        (_, refl),
      ))
      j (omega arith)

some≢none : {t : List ℕ} → ¬ (none ≡ some t)
some≢none e = grind (arith, e)

text_of : List ℕ → Option (List ℕ) → List ℕ
text_of text none = text
text_of text (some t) = t

taken : {b : Bool} → b ≡ true → (o o' : Outcome ℕ) → (if b then o else o') ≡ o
taken e o o' = rw e refl

passed_over : {b : Bool} → b ≡ false → (o o' : Outcome ℕ) → (if b then o else o') ≡ o'
passed_over e o o' = rw e refl

round_met :
    (rounds : ℕ) (name : List ℕ) (irq : ℕ) (text : List ℕ)
    → arm_get_exception_name irq ≡ some text
    → search_irq (suc rounds) name irq
      ≡ (if same_text text name then ok irq else search_irq rounds name (u8 (irq + 1)))
unfolding search_irq
round_met rounds name irq text e = rw (e, search_irq) refl

round_ends :
    (rounds : ℕ) (name : List ℕ) (irq : ℕ)
    → arm_get_exception_name irq ≡ none
    → search_irq (suc rounds) name irq ≡ stop (Stop.exited 2)
unfolding search_irq
round_ends rounds name irq e = rw (e, search_irq) refl

search_irq_lem :
    (rounds : ℕ) (name : List ℕ) (irq : ℕ)
    → irq + rounds ≡ 9
    → 1 ≤ irq
    → irq ≤ 8
    → ((k : ℕ) → k < irq → arm_get_exception_name k ≢ some name)
    → IsChoice name (search_irq rounds name irq)
unfolding text_of
search_irq_lem zero name irq total low high before = absurd (omega arith)
search_irq_lem (suc rounds) name irq total low high before = elim (Bool-cases (ltb irq 8)) [
  | inl named ↦
      let (text, e) = name-some irq low (ground arith) in
      elim (Bool-cases (same_text text name)) [
        | inl same ↦
            subst (IsChoice name) (sym (round_met rounds name irq text e ∙ taken same _ _))
              (inl (irq, refl, e ∙ ap some (same_text_sound text name same)))
        | inr other ↦
            let next : u8 (irq + 1) ≡ irq + 1 = ground arith in
            subst (IsChoice name)
              (sym (
                round_met rounds name irq text e
                ∙ passed_over other _ _
                ∙ ap (search_irq rounds name) next))
              (search_irq_lem rounds name (irq + 1) (omega arith) (omega arith) (ground arith)
                (not_at text e other))
      ]
  | inr last ↦
      subst (IsChoice name) (sym (round_ends rounds name irq (name-none irq (ground arith))))
        (inr (refl, beyond (ground arith)))
]
  where
    not_at :
        (text : List ℕ)
        → arm_get_exception_name irq ≡ some text
        → same_text text name ≡ false
        → (k : ℕ) → k < irq + 1
        → arm_get_exception_name k ≢ some name
    not_at text e other k h = elim (Bool-cases (ltb k irq)) [
      | inl earlier ↦ before k (ground arith)
      | inr now ↦ λ f.
          let at_irq : irq ≡ k = ground arith in
          let same : text ≡ name =
            ap (text_of text) (sym e ∙ ap arm_get_exception_name at_irq ∙ f) in
          grind (arith, sym other ∙ (ap (same_text text) (sym same) ∙ same_text_refl text))
    ]

    beyond : irq ≡ 8 → (k : ℕ) → arm_get_exception_name k ≢ some name
    beyond e k = elim (Bool-cases (ltb k irq)) [
      | inl earlier ↦ before k (ground arith)
      | inr later ↦ λ f. some≢none (sym (name-none k (ground arith)) ∙ f)
    ]

-- With a name among its arguments, `send_irq` sends the number of an exception that has this name,
-- or, where no exception has it, exits with 2.
pub irq_to_send_lem :
    (host port name : List ℕ) (others : List (List ℕ))
    → IsChoice name (irq_to_send (host ∷ port ∷ name ∷ others))
unfolding irq_to_send
irq_to_send_lem host port name others =
    search_irq_lem 8 name 1 refl (omega arith) (omega arith) λ k h. none_below k h
  where
    none_below : (k : ℕ) → k < 1 → arm_get_exception_name k ≢ some name
    none_below k h f =
        let zero_is : 0 ≡ k = omega arith in
        some≢none (sym name-zero ∙ ap arm_get_exception_name zero_is ∙ f)
