-- ===== src/Gdb/Answer.antt =====
-- The registers in the answer to `g`.
use mathlib.Core.Path.{subst}
use uga_prog.Base.{
  ℕ, zero, suc, ◌+◌, ◌*◌, ◌%◌, ◌^◌, ◌≤◌, ◌<◌, ◌≡◌, ◌∙◌, refl, ap, sym, arith, Bool-cases, inl, inr,
  List, [], ◌++◌, append_assoc, append-nil, length, length-append, add32, sub32, ◌==◌,
  if◌then◌else◌,
}
use uga_prog.Base.Outcome.{ok, pure}
use uga_prog.Base.Keeps.{bind_ok}
use uga_prog.Text.{codes}
use uga_prog.Core.{seen_by, arm_read_register}
use uga_prog.Core.User.{arm_read_register_lem}
use uga_prog.Instruction.Fetch.{seen_pc}
use uga_prog.Gdb.{Gdb, Build}
use uga_prog.Gdb.Words.{write_uint32}
use uga_prog.Gdb.WordsBack.{length-write_uint32}
use uga_prog.Gdb.Actions.{on_arm-ok, print_at_lem, pc_of}
use uga_prog.Gdb.Handlers.{shown_register, print_registers, print_unknown}
use uga_prog.Gdb.Restore.{register, words_of}

shown_value :
    (i : ℕ) (g : Gdb)
    → pc_of g.arm < 2 ^ 32
    → pc_of g.arm % 4 ≡ 0
    → register g i < 2 ^ 32
    → sub32 (seen_by i (register g i)) (if i == 15 then 4 else 0) ≡ register g i
unfolding seen_by
shown_value i g fits aligned fit = elim (Bool-cases (i == 15)) [
  | inl is_pc ↦
      let pc_back : sub32 (add32 (pc_of g.arm) 4) 4 ≡ pc_of g.arm = omega arith in
      subst (λ k. sub32 (seen_by k (register g k)) (if k == 15 then 4 else 0) ≡ register g k)
        (ground arith) (ap (λ v. sub32 v 4) (seen_pc (pc_of g.arm) aligned) ∙ pc_back)
  | inr other ↦ rw other (omega (arith, fit))
]

shown_register_lem :
    (i : ℕ) (g : Gdb)
    → i < 16
    → pc_of g.arm < 2 ^ 32
    → pc_of g.arm % 4 ≡ 0
    → ((j : ℕ) → register g j < 2 ^ 32)
    → shown_register i g ≡ ok (register g i, g)
unfolding shown_register pure
shown_register_lem i g h fits aligned all_fit =
    bind_ok _ _
      (on_arm-ok (arm_read_register i) g _ _ (arm_read_register_lem i g.arm (omega arith)))
      (ap (λ v. ok (v, g)) (shown_value i g fits aligned (all_fit i)))

pub length-words_of : (build : Build) (n i : ℕ) (f : ℕ → ℕ) → length (words_of build n i f) ≡ 8 * n
length-words_of build zero i f = refl
length-words_of build (suc n) i f = omega (
  arith,
  length-append (write_uint32 build (f i)) (words_of build n (i + 1) f),
  length-write_uint32 build (f i),
  length-words_of build n (i + 1) f,
)

abbrev pub unknowns : ℕ → List ℕ
unknowns zero = []
unknowns (suc n) = codes "xxxxxxxx" ++ unknowns n

pub length-unknowns : (n : ℕ) → length (unknowns n) ≡ 8 * n
length-unknowns zero = refl
length-unknowns (suc n) = omega (arith, length-unknowns n)

pub print_unknown_lem :
    (n : ℕ) (text : List ℕ) (g : Gdb)
    → length text + 8 * n + 2 ≤ 1024
    → print_unknown n text g ≡ ok (text ++ unknowns n, g)
unfolding print_unknown pure
print_unknown_lem zero text g h = ap (λ t. ok (t, g)) (sym (append-nil text))
print_unknown_lem (suc n) text g h =
    bind_ok _ _ (print_at_lem text (codes "xxxxxxxx") g (omega arith)) (
      print_unknown_lem n (text ++ codes "xxxxxxxx") g
        (omega (arith, length-append text (codes "xxxxxxxx")))
      ∙ ap (λ t. ok (t, g)) (append_assoc text (codes "xxxxxxxx") (unknowns n)))

module _ (build : Build) (g : Gdb) (aligned : pc_of g.arm % 4 ≡ 0)
    (fits : (j : ℕ) → register g j < 2 ^ 32) where
  pub print_registers_lem :
      (n i : ℕ) (text : List ℕ)
      → i + n ≤ 16
      → length text + 8 * n + 2 ≤ 1024
      → print_registers build n i text g ≡ ok (text ++ words_of build n i (register g), g)
  unfolding print_registers pure
  print_registers_lem zero i text h room = ap (λ t. ok (t, g)) (sym (append-nil text))
  print_registers_lem (suc n) i text h room =
      let piece = write_uint32 build (register g i) in
      bind_ok _ _ (shown_register_lem i g (omega arith) (fits 15) aligned fits) (
        bind_ok _ _
          (print_at_lem text piece g (omega (arith, length-write_uint32 build (register g i))))
          (print_registers_lem n (i + 1) (text ++ piece) (omega arith)
              (omega (arith, length-append text piece, length-write_uint32 build (register g i)))
            ∙ ap (λ t. ok (t, g))
                (append_assoc text piece (words_of build n (i + 1) (register g)))))
