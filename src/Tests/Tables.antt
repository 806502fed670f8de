-- ===== src/Tests/Tables.antt =====
-- Runs of the table of debugged files, with numbers for names.
use uga_prog.Base.{
  ℕ, ◌+◌, ◌*◌, ◌<◌, ◌≡◌, ◌≢◌, ◌↔◌, ◌⊎◌, refl, arith, true, ltb, ◌==◌, if◌then◌else◌,
}
use uga_prog.Base.Outcome.{Stop, ok, stop}
use uga_prog.Debug.{Sign, negative, equal, positive, Table, add_debug_to, is_debugged}
use uga_prog.Debug.Search.{IsStrcmp, IsSorted, is_debugged_iff}
use uga_prog.Debug.Add.{add_debug_to-is_debugged}
use uga_prog.Debug.Full.{add_debug_to-full}

abbrev compare_numbers : ℕ → ℕ → Sign
compare_numbers a b = if ltb a b then negative else if a == b then equal else positive

numbers-IsStrcmp : IsStrcmp compare_numbers
numbers-IsStrcmp = record {
  same = λ a b h. ground arith;
  self = λ a. ground arith;
  flip = λ a b h. ground arith;
  flop = λ a b h. ground arith;
  chain = λ a b c h k e. ground arith;
}

abbrev evens : ℕ → Table ℕ
evens n = record { files = λ i. 2 * i; nb = n }

evens-IsSorted : (n : ℕ) → IsSorted compare_numbers (evens n)
unfolding IsSorted
evens-IsSorted n i j le inside e = ground arith

is_debugged_iff_example :
    (is_debugged compare_numbers 8 (evens 10) ≡ true) ↔ ((i : ℕ) × (i < 10) × (2 * i ≡ 8))
is_debugged_iff_example =
    is_debugged_iff compare_numbers 8 (evens 10) numbers-IsStrcmp (evens-IsSorted 10)

add_debug_to-is_debugged_example :
    (t' : Table ℕ) × (add_debug_to compare_numbers 7 (evens 10) ≡ ok t')
    × (t'.nb ≡ 10 + 1)
    × IsSorted compare_numbers t'
    × ((is_debugged compare_numbers 9 t' ≡ true)
        ↔ ((◌≡◌ {A = ℕ} 7 9) ⊎ (is_debugged compare_numbers 9 (evens 10) ≡ true)))
add_debug_to-is_debugged_example =
    add_debug_to-is_debugged compare_numbers 7 9 (evens 10) numbers-IsStrcmp (evens-IsSorted 10)
      (omega arith)

twenty_not_before : compare_numbers 20 7 ≢ negative
twenty_not_before h = ground arith

add_debug_to-full_example : add_debug_to compare_numbers 7 (evens 64) ≡ stop Stop.out_of_bounds
add_debug_to-full_example =
    add_debug_to-full compare_numbers 7 (evens 64) 10 refl (omega arith) twenty_not_before
