-- ===== src/Debug/Full.antt =====
-- `add_debug_to` of debug.c on a full table.
use uga_prog.Base.{
  ℕ, zero, suc, ◌-◌, ◌≤◌, ◌<◌, ◌≡◌, ◌≢◌, inl, inr, refl, arith, true, Bool-cases, ltb, lt→ltb,
  le→ltb_false,
}
use uga_prog.Base.Outcome.{Stop, stop}
use uga_prog.Debug.{Sign, negative, Table, put_file, place_loop, shift_loop, add_debug_to}
use uga_prog.Debug.Insert.{place_loop_lem, IsPlace, shift_round}

put_file_full :
    {Name : Type 0} (j : ℕ) (name : Name) (f : ℕ → Name)
    → 64 ≤ j
    → put_file j name f ≡ stop Stop.out_of_bounds
unfolding put_file
put_file_full j name f h = rw (le→ltb_false j 64 h) refl

shift_loop_full :
    {Name : Type 0} (left j : ℕ) (f : ℕ → Name)
    → 0 < left
    → 64 ≤ j
    → shift_loop left j f ≡ stop Stop.out_of_bounds
shift_loop_full zero j f h full = absurd (omega arith)
shift_loop_full (suc left) j f h full = shift_round left j f (put_file_full j (f (j - 1)) f full)

place_by :
    {Name : Type 0} (strcmp : Name → Name → Sign) (name : Name) (t : Table Name) (p i : ℕ)
    → IsPlace strcmp name t p
    → strcmp (t.files i) name ≢ negative
    → p ≤ i
place_by strcmp name t p i found not_before = elim (Bool-cases (ltb i p)) [
  | inl low ↦ absurd (not_before (found.below i (ground arith)))
  | inr high ↦ ground arith
]

-- On a table of 64 files of which one does not come before the name, `add_debug_to` writes past the
-- end of the table.
pub add_debug_to-full :
    {Name : Type 0} (strcmp : Name → Name → Sign) (name : Name) (t : Table Name) (i : ℕ)
    → t.nb ≡ 64
    → i < 64
    → strcmp (t.files i) name ≢ negative
    → add_debug_to strcmp name t ≡ stop Stop.out_of_bounds
unfolding add_debug_to
add_debug_to-full strcmp name t i full inside not_before =
    let p = place_loop strcmp name t 64 0 in
    let found =
      place_loop_lem strcmp name t 64 0 (omega arith) (omega arith) λ k h. absurd (omega arith) in
    let before : p ≤ i = place_by strcmp name t p i found not_before in
    let fits : ltb p 64 ≡ true = lt→ltb p 64 (omega arith) in
    rw (fits, shift_loop_full (t.nb - p) t.nb t.files (omega arith) (omega arith)) refl
