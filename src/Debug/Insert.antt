-- ===== src/Debug/Insert.antt =====
-- The place that `add_debug_to` of debug.c finds, and the table that it leaves.
use uga_prog.Base.{
  ℕ, zero, suc, ◌+◌, ◌-◌, ◌≤◌, ◌<◌, ◌≡◌, ◌≢◌, inl, inr, refl, ap, ◌∙◌, arith, true, false,
  Bool-cases, ltb, leb, lt→ltb, ◌==◌, ◌&&◌, if◌then◌else◌,
}
use uga_prog.Base.Outcome.{Outcome, ok, stop}
use uga_prog.Debug.{
  Sign, negative, equal, positive, is_negative, Table, put_file, place_loop, shift_loop,
  add_debug_to,
}

-- Where the name goes: past the files that are below it.
pub record IsPlace {Name : Type 0} (strcmp : Name → Name → Sign) (name : Name) (t : Table Name)
    (p : ℕ) : Type 0 where
  pub bound : p ≤ t.nb
  pub below : (k : ℕ) → k < p → strcmp (t.files k) name ≡ negative
  pub above : p < t.nb → strcmp (t.files p) name ≢ negative

is_negative-true : (s : Sign) → is_negative s ≡ true → s ≡ negative
is_negative-true negative h = refl
is_negative-true equal h = absurd (ground arith)
is_negative-true positive h = absurd (ground arith)

pub place_loop_lem :
    {Name : Type 0} (strcmp : Name → Name → Sign) (name : Name) (t : Table Name) (left i : ℕ)
    → i ≤ t.nb
    → t.nb ≤ i + left
    → ((k : ℕ) → k < i → strcmp (t.files k) name ≡ negative)
    → IsPlace strcmp name t (place_loop strcmp name t left i)
unfolding place_loop
place_loop_lem strcmp name t zero i le enough smaller = record {
  bound = le;
  below = smaller;
  above = λ h. absurd (omega arith);
}
place_loop_lem strcmp name t (suc left) i le enough smaller =
    elim (Bool-cases (ltb i t.nb && is_negative (strcmp (t.files i) name))) [
      | inl on ↦
          let here : strcmp (t.files i) name ≡ negative = is_negative-true _ (ground arith) in
          rw on (
            place_loop_lem strcmp name t left (i + 1) (ground arith) (omega arith) λ k h.
              elim (Bool-cases (ltb k i)) [
                | inl before ↦ smaller k (ground arith)
                | inr last ↦
                    let same : k ≡ i = ground arith in ap (λ n. strcmp (t.files n) name) same ∙ here
              ])
      | inr off ↦ rw off (record {
        bound = le;
        below = smaller;
        above = λ h e.
            let negative_here : is_negative (strcmp (t.files i) name) ≡ true = ap is_negative e in
            absurd (ground arith);
      })
    ]

shift_step :
    {Name : Type 0} (left j : ℕ) (f : ℕ → Name) (k : ℕ)
    → suc left ≤ j
    → let f1 : ℕ → Name = λ k. if k == j then f (j - 1) else f k in
      (if ltb (j - 1 - left) k && leb k (j - 1) then f1 (k - 1) else f1 k)
      ≡ (if ltb (j - suc left) k && leb k j then f (k - 1) else f k)
shift_step left j f k le = elim (Bool-cases (k == j)) [
  | inl last ↦
      let same : j ≡ k = ground arith in
      let outside : (ltb (j - 1 - left) k && leb k (j - 1)) ≡ false = ground arith in
      let inside : (ltb (j - suc left) k && leb k j) ≡ true = ground arith in
      rw (outside, inside, last) (ap (λ (n : ℕ). f (n - 1)) same)
  | inr other ↦ elim (Bool-cases (ltb (j - 1 - left) k && leb k (j - 1))) [
    | inl moved ↦
        let inside : (ltb (j - suc left) k && leb k j) ≡ true = ground arith in
        let before : (k - 1 == j) ≡ false = ground arith in rw (moved, inside, before) refl
    | inr kept ↦
        let outside : (ltb (j - suc left) k && leb k j) ≡ false = ground arith in
        rw (kept, outside, other) refl
  ]
]

put_file_lem :
    {Name : Type 0} (j : ℕ) (name : Name) (f : ℕ → Name)
    → j < 64
    → put_file j name f ≡ ok (λ k. if k == j then name else f k)
unfolding put_file
put_file_lem j name f h = rw (lt→ltb j 64 h) refl

-- A round of the shift, from what its write gives.
abbrev pub resume : {Name : Type 0} → ℕ → ℕ → Outcome (ℕ → Name) → Outcome (ℕ → Name)
resume left j (ok files) = shift_loop left (j - 1) files
resume left j (stop e) = stop e

pub shift_round :
    {Name : Type 0} (left j : ℕ) (f : ℕ → Name) {w : Outcome (ℕ → Name)}
    → put_file j (f (j - 1)) f ≡ w
    → shift_loop (suc left) j f ≡ resume left j w
unfolding shift_loop
shift_round left j f e = unstep left j (put_file j (f (j - 1)) f) ∙ ap (resume left j) e
  where
    unstep :
        {Name : Type 0} (left j : ℕ) (o : Outcome (ℕ → Name))
        → (let r : Outcome (ℕ → Name) = elim o [
          | ok g ↦ shift_loop left (j - 1) g
          | stop s ↦ stop s
        ] in
            r)
          ≡ resume left j o
    unstep left j (ok g) = refl
    unstep left j (stop s) = refl

shift_loop_lem :
    {Name : Type 0} (left j : ℕ) (f : ℕ → Name)
    → left ≤ j
    → j < 64
    → (f' : ℕ → Name) × (shift_loop left j f ≡ ok f')
      × ((k : ℕ) → f' k ≡ (if ltb (j - left) k && leb k j then f (k - 1) else f k))
unfolding shift_loop
shift_loop_lem zero j f le small =
    (f, refl, λ k. let off : (ltb (j - 0) k && leb k j) ≡ false = ground arith in rw off refl)
shift_loop_lem {Name = Name} (suc left) j f le small =
    let f1 : ℕ → Name = λ k. if k == j then f (j - 1) else f k in
    let (f', e, at) = shift_loop_lem left (j - 1) f1 (omega arith) (omega arith) in
    (f', shift_round left j f (put_file_lem j _ f small) ∙ e, λ k. at k ∙ shift_step left j f k le)

-- A table with the name put in at place `p`.
pub record Inserted {Name : Type 0} (name : Name) (t t' : Table Name) (p : ℕ) : Type 0 where
  pub longer : t'.nb ≡ t.nb + 1
  pub place : p ≤ t.nb
  pub low : (k : ℕ) → k < p → t'.files k ≡ t.files k
  pub new : t'.files p ≡ name
  pub high : (k : ℕ) → p ≤ k → k < t.nb → t'.files (k + 1) ≡ t.files k

insert_at :
    {Name : Type 0} (name : Name) (t : Table Name) (p : ℕ) (f' : ℕ → Name)
    → p ≤ t.nb
    → ((k : ℕ)
        → f' k ≡ (if ltb (t.nb - (t.nb - p)) k && leb k t.nb then t.files (k - 1) else t.files k))
    → Inserted name t (record { files = λ k. if k == p then name else f' k; nb = t.nb + 1 }) p
insert_at name t p f' le at = record {
  longer = refl;
  place = le;
  low = λ k h.
      let other : (k == p) ≡ false = ground arith in
      let outside : (ltb (t.nb - (t.nb - p)) k && leb k t.nb) ≡ false = ground arith in
      rw other (at k ∙ rw outside refl);
  new = let here : (p == p) ≡ true = ground arith in rw here refl;
  high = λ k h k_in.
      let other : (k + 1 == p) ≡ false = ground arith in
      let inside : (ltb (t.nb - (t.nb - p)) (k + 1) && leb (k + 1) t.nb) ≡ true = ground arith in
      let back : k + 1 - 1 ≡ k = omega arith in rw other (at (k + 1) ∙ rw inside (ap t.files back));
}

pub add_debug_to_inserts :
    {Name : Type 0} (strcmp : Name → Name → Sign) (name : Name) (t : Table Name)
    → t.nb < 64
    → (t' : Table Name) × (p : ℕ) × (add_debug_to strcmp name t ≡ ok t')
      × Inserted name t t' p
      × IsPlace strcmp name t p
unfolding add_debug_to
add_debug_to_inserts strcmp name t room =
    let p = place_loop strcmp name t 64 0 in
    let found =
      place_loop_lem strcmp name t 64 0 (omega arith) (omega arith) (λ k h. absurd (omega arith)) in
    let le = found.bound in
    let (f', e, at) = shift_loop_lem (t.nb - p) t.nb t.files (omega arith) room in
    let fits : ltb p 64 ≡ true = lt→ltb p 64 (omega arith) in
    (
      record { files = λ k. if k == p then name else f' k; nb = t.nb + 1 },
      p,
      rw (fits, e, put_file_lem p name f' (omega arith)) refl,
      insert_at name t p f' le at,
      found,
    )
