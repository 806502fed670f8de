-- ===== src/Gdb/Restore.antt =====
-- Registers written from the words of a packet.
use uga_prog.Base.{
  ℕ, zero, suc, ◌+◌, ◌^◌, ◌≤◌, ◌<◌, ◌≡◌, ◌∙◌, refl, ap, arith, Bool-cases, inl, inr, true, List, [],
  ◌++◌, append_assoc, u32, ◌==◌,
}
use uga_prog.Base.Outcome.{ok, pure}
use uga_prog.Base.Keeps.{bind_ok}
use uga_prog.Core.{arm_write_register}
use uga_prog.Core.User.{InUser, put_reg, arm_write_register-user}
use uga_prog.Gdb.{Gdb, Build}
use uga_prog.Gdb.Words.{write_uint32}
use uga_prog.Gdb.WordsBack.{write_uint32-read_uint32, skip_word-write_uint32}
use uga_prog.Gdb.Actions.{on_arm-ok}
use uga_prog.Gdb.Handlers.{known, store_registers}

-- A register of the processor of a session.
abbrev pub register : Gdb → ℕ → ℕ
register g i = g.arm.reg.reg i

-- The words of the registers `i` to `i + n - 1`.
abbrev pub words_of : Build → ℕ → ℕ → (ℕ → ℕ) → List ℕ
words_of build zero i f = []
words_of build (suc n) i f = write_uint32 build (f i) ++ words_of build n (i + 1) f

-- A session whose registers `i` to `i + n - 1` are written.
abbrev pub restored : ℕ → ℕ → (ℕ → ℕ) → Gdb → Gdb
restored zero i f g = g
restored (suc n) i f g = restored n (i + 1) f (record g { arm = put_reg g.arm i (f i) })

pub restored-InUser : (n i : ℕ) (f : ℕ → ℕ) (g : Gdb) → InUser g.arm → InUser (restored n i f g).arm
restored-InUser zero i f g user = user
restored-InUser (suc n) i f g user = restored-InUser n (i + 1) f _ user

pub restored-end : (n i : ℕ) (f : ℕ → ℕ) (g : Gdb) → (restored n i f g).open_end ≡ g.open_end
restored-end zero i f g = refl
restored-end (suc n) i f g = restored-end n (i + 1) f _

restored-below :
    (n i j : ℕ) (f : ℕ → ℕ) (g : Gdb) → j < i → register (restored n i f g) j ≡ register g j
restored-below zero i j f g h = refl
restored-below (suc n) i j f g h = restored-below n (i + 1) j f _ (omega arith) ∙ ground arith

pub restored-at :
    (n i j : ℕ) (f : ℕ → ℕ) (g : Gdb)
    → i ≤ j
    → j < i + n
    → f j < 2 ^ 32
    → register (restored n i f g) j ≡ f j
restored-at zero i j f g low high fit = absurd (omega arith)
restored-at (suc n) i j f g low high fit = elim (Bool-cases (j == i)) [
  | inl same ↦
      restored-below n (i + 1) j f _ (ground arith)
      ∙ rw same (ap (λ k. u32 (f k)) (same_index same) ∙ omega arith)
  | inr other ↦ restored-at n (i + 1) j f _ (ground arith) (omega arith) fit
]
  where
    same_index : (j == i) ≡ true → i ≡ j
    same_index same = ground arith

pub store_registers_lem :
    (build : Build) (n i : ℕ) (f : ℕ → ℕ) (s : List ℕ) (g : Gdb)
    → InUser g.arm
    → i + n ≤ 16
    → ((j : ℕ) → f j < 2 ^ 32)
    → store_registers build n i (words_of build n i f ++ s) g ≡ ok (s, restored n i f g)
unfolding store_registers pure
store_registers_lem build zero i f s g user h fits = refl
store_registers_lem build (suc n) i f s g user h fits =
    let piece = write_uint32 build (f i) in
    let rest = words_of build n (i + 1) f ++ s in
    let one : store_registers build (suc n) i (piece ++ rest) g ≡ ok (s, restored (suc n) i f g) =
      bind_ok _ _ (ap (λ o. known o g) (write_uint32-read_uint32 build (f i) rest (fits i))) (
        bind_ok _ _
          (on_arm-ok (arm_write_register i (f i)) g _ _
            (arm_write_register-user i (f i) g.arm user (omega arith)))
          (ap (λ t. store_registers build n (i + 1) t (record g { arm = put_reg g.arm i (f i) }))
              (skip_word-write_uint32 build (f i) rest)
            ∙ store_registers_lem build n (i + 1) f s _ user (omega arith) fits)) in
    ap (λ t. store_registers build (suc n) i t g)
      (append_assoc piece (words_of build n (i + 1) f) s)
    ∙ one
