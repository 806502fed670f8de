-- ===== src/Debug/Add.antt =====
-- What `add_debug_to` and `is_debugged` of debug.c promise together.
use uga_prog.Base.{
  ℕ, ◌+◌, ◌-◌, ◌≤◌, ◌<◌, ◌≡◌, ◌≢◌, ◌↔◌, ◌⊎◌, inl, inr, sym, ap, ◌∙◌, arith, true, Bool-cases, ltb,
  ◌==◌,
}
use uga_prog.Base.Outcome.{ok}
use uga_prog.Debug.{
  Sign, negative, equal, positive, is_negative, is_equal, Table, add_debug_to, is_debugged,
}
use uga_prog.Debug.Search.{IsStrcmp, IsSorted, is_debugged_iff}
use uga_prog.Debug.Insert.{Inserted, IsPlace, add_debug_to_inserts}

-- An index of the longer table is below the place, the place itself, or one past an old index.
place_cases : (i p : ℕ) → (i < p) ⊎ ((i ≡ p) ⊎ ((k : ℕ) × (i ≡ k + 1) × (p ≤ k)))
place_cases i p = elim (Bool-cases (ltb i p)) [
  | inl low ↦ inl (ground arith)
  | inr not_low ↦ elim (Bool-cases (i == p)) [
    | inl here ↦ inr (inl (ground arith))
    | inr past ↦ inr (inr (i - 1, ground arith, ground arith))
  ]
]

module _ {Name : Type 0} {strcmp : Name → Name → Sign} (order : IsStrcmp strcmp) where
  not_negative-flip : (a b : Name) → strcmp a b ≢ negative → strcmp b a ≢ positive
  not_negative-flip a b h e = h (order.flop b a e)

  negative-ne : {s : Sign} → s ≡ negative → s ≢ positive
  negative-ne e f =
      let same : is_negative negative ≡ is_negative positive = ap is_negative (sym e ∙ f) in
      absurd (ground arith)

  -- The files around the place, against the name.
  before_place :
      (name : Name) (t : Table Name) (p k : ℕ)
      → IsPlace strcmp name t p
      → k < p
      → strcmp (t.files k) name ≢ positive
  before_place name t p k at h = negative-ne (at.below k h)

  after_place :
      (name : Name) (t : Table Name) (p k : ℕ)
      → IsSorted strcmp t
      → IsPlace strcmp name t p
      → p ≤ k
      → k < t.nb
      → strcmp name (t.files k) ≢ positive
  unfolding IsSorted
  after_place name t p k sorted at h inside =
      order.chain _ _ _ (not_negative-flip _ _ (at.above (omega arith))) (sorted p k h inside)

  -- A comparison taken over to equal names.
  compare_at :
      {a b a' b' : Name} → a ≡ a' → b ≡ b' → strcmp a' b' ≢ positive → strcmp a b ≢ positive
  compare_at {b = b} {a' = a'} e f h g =
      h (ap (strcmp a') (sym f) ∙ ap (λ n. strcmp n b) (sym e) ∙ g)

  self-ne : (a : Name) → strcmp a a ≢ positive
  self-ne a e =
      let same : is_equal equal ≡ is_equal positive = ap is_equal (sym (order.self a) ∙ e) in
      absurd (ground arith)

  Inserted-IsSorted :
      (name : Name) (t t' : Table Name) (p : ℕ)
      → IsSorted strcmp t
      → IsPlace strcmp name t p
      → Inserted name t t' p
      → IsSorted strcmp t'
  unfolding IsSorted
  Inserted-IsSorted name t t' p sorted at ins i j le inside =
      let pl = ins.place in
      let longer = ins.longer in
      elim (place_cases i p) [
        | inl i_low ↦ elim (place_cases j p) [
          | inl j_low ↦ compare_at (ins.low i i_low) (ins.low j j_low) (sorted i j le (omega arith))
          | inr (inl j_new) ↦
              compare_at (ins.low i i_low) (ap t'.files j_new ∙ ins.new)
                (before_place name t p i at i_low)
          | inr (inr (k, e, p_le)) ↦
              compare_at (ins.low i i_low) (ap t'.files e ∙ ins.high k p_le (omega arith))
                (sorted i k (omega arith) (omega arith))
        ]
        | inr (inl i_new) ↦ elim (place_cases j p) [
          | inl j_low ↦ absurd (omega arith)
          | inr (inl j_new) ↦
              compare_at (ap t'.files i_new ∙ ins.new) (ap t'.files j_new ∙ ins.new) (self-ne name)
          | inr (inr (k, e, p_le)) ↦
              compare_at (ap t'.files i_new ∙ ins.new)
                (ap t'.files e ∙ ins.high k p_le (omega arith))
                (after_place name t p k sorted at p_le (omega arith))
        ]
        | inr (inr (m, f, p_le_m)) ↦ elim (place_cases j p) [
          | inl j_low ↦ absurd (omega arith)
          | inr (inl j_new) ↦ absurd (omega arith)
          | inr (inr (k, e, p_le)) ↦
              compare_at (ap t'.files f ∙ ins.high m p_le_m (omega arith))
                (ap t'.files e ∙ ins.high k p_le (omega arith))
                (sorted m k (omega arith) (omega arith))
        ]
      ]

-- The names of a table, and those of the table with one more.
abbrev Holds : {Name : Type 0} → Name → Table Name → Type 0
Holds x t = (i : ℕ) × (i < t.nb) × (t.files i ≡ x)

Inserted-Holds :
    {Name : Type 0} (name x : Name) (t t' : Table Name) (p : ℕ)
    → Inserted name t t' p
    → Holds x t' ↔ ((name ≡ x) ⊎ Holds x t)
Inserted-Holds name x t t' p ins =
    let pl = ins.place in
    let longer = ins.longer in
    (
      λ (i, inside, e). elim (place_cases i p) [
        | inl low ↦ inr (i, omega arith, sym (ins.low i low) ∙ e)
        | inr (inl here) ↦ inl (sym ins.new ∙ ap t'.files (sym here) ∙ e)
        | inr (inr (k, f, le)) ↦
            inr (k, omega arith, sym (ins.high k le (omega arith)) ∙ ap t'.files (sym f) ∙ e)
      ],
      λ h. elim h [
        | inl same ↦ (p, omega arith, ins.new ∙ same)
        | inr (i, inside, e) ↦ elim (Bool-cases (ltb i p)) [
          | inl low ↦ (i, omega arith, ins.low i (ground arith) ∙ e)
          | inr high ↦ (i + 1, omega arith, ins.high i (ground arith) inside ∙ e)
        ]
      ],
    )

-- For a `strcmp` as documented and a sorted table that is not full, `add_debug_to` returns a table
-- that is sorted and has one entry more, in which `is_debugged` finds the new name and the names that
-- it found before, and no other.
pub add_debug_to-is_debugged :
    {Name : Type 0} (strcmp : Name → Name → Sign) (name x : Name) (t : Table Name)
    → IsStrcmp strcmp
    → IsSorted strcmp t
    → t.nb < 64
    → (t' : Table Name) × (add_debug_to strcmp name t ≡ ok t')
      × (t'.nb ≡ t.nb + 1)
      × IsSorted strcmp t'
      × ((is_debugged strcmp x t' ≡ true) ↔ ((name ≡ x) ⊎ (is_debugged strcmp x t ≡ true)))
add_debug_to-is_debugged strcmp name x t order sorted room =
    let (t', p, e, ins, at) = add_debug_to_inserts strcmp name t room in
    let sorted' = Inserted-IsSorted order name t t' p sorted at ins in
    let (found_new, new_found) = is_debugged_iff strcmp x t' order sorted' in
    let (found_old, old_found) = is_debugged_iff strcmp x t order sorted in
    let (from_new, to_new) = Inserted-Holds name x t t' p ins in
    (
      t',
      e,
      ins.longer,
      sorted',
      (
        λ h. elim (from_new (found_new h)) [
          | inl same ↦ inl same
          | inr held ↦ inr (old_found held)
        ],
        λ h. elim h [
          | inl same ↦ new_found (to_new (inl same))
          | inr was ↦ new_found (to_new (inr (found_old was)))
        ],
      ),
    )
