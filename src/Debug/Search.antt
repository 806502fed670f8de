-- ===== src/Debug/Search.antt =====
-- `__is_debugged` of debug.c against membership in the table.
use uga_prog.Base.{
  ℕ, zero, suc, ◌+◌, ◌-◌, ◌/◌, ◌≤◌, ◌<◌, ◌≡◌, ◌≢◌, ◌↔◌, ◌⊎◌, inl, inr, refl, sym, ap, ◌∙◌, arith,
  true, Bool-cases, ltb,
}
use uga_prog.Debug.{Sign, negative, equal, positive, is_equal, Table, search_loop, is_debugged}

-- What `strcmp` is documented to do: it is a total order, and 0 on equal strings only.
pub record IsStrcmp {Name : Type 0} (strcmp : Name → Name → Sign) : Type 0 where
  pub same : (a b : Name) → strcmp a b ≡ equal → a ≡ b
  pub self : (a : Name) → strcmp a a ≡ equal
  pub flip : (a b : Name) → strcmp a b ≡ negative → strcmp b a ≡ positive
  pub flop : (a b : Name) → strcmp a b ≡ positive → strcmp b a ≡ negative
  pub chain : (a b c : Name) → strcmp a b ≢ positive → strcmp b c ≢ positive → strcmp a c ≢ positive

-- No file of the table comes before one that it should follow.
unfoldable pub IsSorted : {Name : Type 0} → (Name → Name → Sign) → Table Name → Type 0
IsSorted strcmp t = (i j : ℕ) → i ≤ j → j < t.nb → strcmp (t.files i) (t.files j) ≢ positive

-- A file of the table from `from` on and below `until`.
abbrev Among : {Name : Type 0} → Name → Table Name → ℕ → ℕ → Type 0
Among name t from until = (i : ℕ) × (from ≤ i) × (i < until) × (t.files i ≡ name)

sign_cases : (s : Sign) → (s ≡ negative) ⊎ ((s ≡ positive) ⊎ (s ≡ equal))
sign_cases negative = inl refl
sign_cases positive = inr (inl refl)
sign_cases equal = inr (inr refl)

is_equal-true : (s : Sign) → is_equal s ≡ true → s ≡ equal
is_equal-true equal h = refl
is_equal-true negative h = absurd (ground arith)
is_equal-true positive h = absurd (ground arith)

module _ {Name : Type 0} {strcmp : Name → Name → Sign} (order : IsStrcmp strcmp) where
  -- A file that is found below the middle is not past it, and one that is past it not below.
  above_middle :
      (name : Name) (t : Table Name) (i m : ℕ)
      → IsSorted strcmp t
      → m < t.nb
      → t.files i ≡ name
      → strcmp (t.files m) name ≡ negative
      → m < i
  unfolding IsSorted
  above_middle name t i m sorted inside e below = elim (Bool-cases (ltb m i)) [
    | inl past ↦ ground arith
    | inr not_past ↦ absurd (
        sorted i m (ground arith) inside
          (ap (λ n. strcmp n (t.files m)) e ∙ order.flip (t.files m) name below))
  ]

  below_middle :
      (name : Name) (t : Table Name) (i m : ℕ)
      → IsSorted strcmp t
      → i < t.nb
      → t.files i ≡ name
      → strcmp (t.files m) name ≡ positive
      → i < m
  unfolding IsSorted
  below_middle name t i m sorted inside e above = elim (Bool-cases (ltb i m)) [
    | inl before ↦ ground arith
    | inr not_before ↦
        absurd (sorted m i (ground arith) inside (ap (λ n. strcmp (t.files m) n) e ∙ above))
  ]

  search_loop_sound :
      (name : Name) (t : Table Name) (left from until : ℕ)
      → search_loop strcmp name t left from until ≡ true
      → Among name t from until
  unfolding search_loop
  search_loop_sound name t zero from until h = absurd (ground arith)
  search_loop_sound name t (suc left) from until h = elim (Bool-cases (ltb (from + 1) until)) [
    | inl many ↦
        let m = (from + until - 1) / 2 in
        elim (sign_cases (strcmp (t.files m) name)) [
          | inl below ↦
              let (i, low, high, e) =
                search_loop_sound name t left (m + 1) until (rw (many, below) at h) in
              (i, ground arith, high, e)
          | inr (inl above) ↦
              let (i, low, high, e) =
                search_loop_sound name t left from m (rw (many, above) at h) in
              (i, low, ground arith, e)
          | inr (inr here) ↦ (m, ground arith, ground arith, order.same _ _ here)
        ]
    | inr few ↦
        let h' = rw few at h in
        (from, omega arith, ground arith, order.same _ _ (is_equal-true _ (ground arith)))
  ]

  search_loop_complete :
      (name : Name) (t : Table Name) (left from until : ℕ)
      → IsSorted strcmp t
      → until ≤ t.nb
      → until < from + left
      → Among name t from until
      → search_loop strcmp name t left from until ≡ true
  unfolding search_loop
  search_loop_complete name t zero from until sorted inside enough (i, low, high, e) =
      absurd (omega arith)
  search_loop_complete name t (suc left) from until sorted inside enough (i, low, high, e) =
      elim (Bool-cases (ltb (from + 1) until)) [
        | inl many ↦
            let m = (from + until - 1) / 2 in
            elim (sign_cases (strcmp (t.files m) name)) [
              | inl below ↦
                  let past = above_middle name t i m sorted (ground arith) e below in
                  rw (many, below)
                    (search_loop_complete name t left (m + 1) until sorted inside (ground arith)
                      (i, ground arith, high, e))
              | inr (inl above) ↦
                  let before = below_middle name t i m sorted (omega arith) e above in
                  rw (many, above)
                    (search_loop_complete name t left from m sorted (ground arith) (ground arith)
                      (i, low, before, e))
              | inr (inr here) ↦ rw (many, here) refl
            ]
        | inr few ↦
            let only : i ≡ from = ground arith in
            let found : strcmp (t.files from) name ≡ equal =
              ap (λ k. strcmp (t.files k) name) (sym only)
              ∙ ap (λ n. strcmp n name) e
              ∙ order.self name in
            rw (few, found) (ground arith)
      ]

-- For a `strcmp` as documented and a sorted table, `is_debugged` finds exactly the names of the files
-- in the table.
pub is_debugged_iff :
    {Name : Type 0} (strcmp : Name → Name → Sign) (name : Name) (t : Table Name)
    → IsStrcmp strcmp
    → IsSorted strcmp t
    → (is_debugged strcmp name t ≡ true) ↔ ((i : ℕ) × (i < t.nb) × (t.files i ≡ name))
unfolding is_debugged
is_debugged_iff strcmp name t order sorted = (
  λ h. let (i, low, high, e) = search_loop_sound order name t (t.nb + 1) 0 t.nb h in (i, high, e),
  λ (i, high, e).
      search_loop_complete order name t (t.nb + 1) 0 t.nb sorted (omega arith) (omega arith)
        (i, omega arith, high, e),
)
