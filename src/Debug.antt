-- ===== src/Debug.antt =====
-- arm_simulator-1.4/debug.c: the sorted table of the files to debug, and the search in it. Names are
-- strings of C, compared by `strcmp` of its library, which is a parameter.
pub mod Search
pub mod Insert
pub mod Add
pub mod Full
use uga_prog.Base.{ℕ, zero, suc, ◌+◌, ◌-◌, ◌/◌, Bool, true, false, ◌&&◌, ltb, ◌==◌, if◌then◌else◌}
use uga_prog.Base.Outcome.{Outcome, Stop, ok, stop}

-- The sign of the int that `strcmp` returns.
pub data Sign : Type 0 where
  negative : Sign
  equal : Sign
  positive : Sign

abbrev pub is_negative : Sign → Bool
is_negative negative = true
is_negative _ = false

abbrev pub is_equal : Sign → Bool
is_equal equal = true
is_equal _ = false

-- `debugged_files` and `nb_debugged_files`
pub record Table (Name : Type 0) : Type 0 where
  pub files : ℕ → Name
  pub nb : ℕ

abbrev pub max_files_number : ℕ
max_files_number = 64

-- `debugged_files[j] = name`
unfoldable pub put_file : {Name : Type 0} → ℕ → Name → (ℕ → Name) → Outcome (ℕ → Name)
put_file j name files =
    if ltb j max_files_number
    then ok (λ k. if k == j then name else files k)
    else stop Stop.out_of_bounds

-- The rounds left until `i` reaches the size of the table.
unfoldable pub place_loop : {Name : Type 0} → (Name → Name → Sign) → Name → Table Name → ℕ → ℕ → ℕ
place_loop strcmp name t zero i = i
place_loop strcmp name t (suc left) i =
    let rest = place_loop strcmp name t left (i + 1) in
    if ltb i t.nb && is_negative (strcmp (t.files i) name) then rest else i

-- Down from `j`, as often as `j` is above the place.
unfoldable pub shift_loop : {Name : Type 0} → ℕ → ℕ → (ℕ → Name) → Outcome (ℕ → Name)
unfolding put_file
shift_loop zero j files = ok files
shift_loop (suc left) j files = elim (put_file j (files (j - 1)) files) [
  | ok files' ↦ shift_loop left (j - 1) files'
  | stop e ↦ stop e
]

unfoldable pub add_debug_to :
    {Name : Type 0} → (Name → Name → Sign) → Name → Table Name → Outcome (Table Name)
unfolding place_loop shift_loop put_file
add_debug_to strcmp name t =
    let i = place_loop strcmp name t max_files_number 0 in
    if ltb i max_files_number
    then elim (shift_loop (t.nb - i) t.nb t.files) [
      | stop e ↦ stop e
      | ok shifted ↦ elim (put_file i name shifted) [
        | stop e ↦ stop e
        | ok files' ↦ ok (record { files = files'; nb = t.nb + 1 })
      ]
    ]
    else ok t

-- `until` is `to + 1`, as `to` can be -1. The rounds left are the length of the range at least.
unfoldable pub search_loop :
    {Name : Type 0} → (Name → Name → Sign) → Name → Table Name → ℕ → ℕ → ℕ → Bool
search_loop strcmp name t zero from until = false
search_loop strcmp name t (suc left) from until =
    if ltb (from + 1) until
    then elim (strcmp (t.files ((from + until - 1) / 2)) name) [
      | negative ↦ search_loop strcmp name t left ((from + until - 1) / 2 + 1) until
      | positive ↦ search_loop strcmp name t left from ((from + until - 1) / 2)
      | equal ↦ true
    ]
    else (until == from + 1) && is_equal (strcmp (t.files from) name)

unfoldable pub is_debugged : {Name : Type 0} → (Name → Name → Sign) → Name → Table Name → Bool
unfolding search_loop
is_debugged strcmp name t = search_loop strcmp name t (t.nb + 1) 0 t.nb
