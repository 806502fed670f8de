-- ===== src/Gdb/Snapshot.antt =====
-- The answer to `g`, given back by `G`.
use uga_prog.Base.{
  ℕ, ◌%◌, ◌^◌, ◌<◌, ◌≡◌, ◌∙◌, refl, ap, arith, Bool-cases, inl, inr, true, List, [], ◌++◌,
  append_assoc, length, length-append, u32, ◌==◌,
}
use uga_prog.Base.Outcome.{ok, pure, gets}
use uga_prog.Base.Keeps.{bind_ok}
use uga_prog.Text.{codes}
use uga_prog.Registers.{read_cpsr}
use uga_prog.Core.{arm_read_cpsr, arm_write_cpsr}
use uga_prog.Core.User.{InUser, put_reg, arm_write_cpsr-user}
use uga_prog.Gdb.{Gdb, Build, framed, gdb_send_data}
use uga_prog.Gdb.Words.{read_uint32, write_uint32}
use uga_prog.Gdb.WordsBack.{write_uint32-read_uint32, length-write_uint32}
use uga_prog.Gdb.Actions.{on_arm-ok, sent_text, print_at_lem, pc_of}
use uga_prog.Gdb.Handlers.{
  known, read_general_registers, store_registers, skip_word, skip_words, write_general_registers,
}
use uga_prog.Gdb.Restore.{
  register, words_of, restored, restored-InUser, restored-end, restored-at, store_registers_lem,
}
use uga_prog.Gdb.Answer.{length-words_of, unknowns, print_unknown_lem, print_registers_lem}

-- The answer to `g` for the registers of a session.
unfoldable pub snapshot : Build → Gdb → List ℕ
snapshot build g =
    ((words_of build 16 0 (register g) ++ unknowns 24) ++ unknowns 1)
    ++ write_uint32 build (register g 16)

read_snapshot :
    (build : Build) (t : List ℕ) (g : Gdb)
    → pc_of g.arm % 4 ≡ 0
    → ((j : ℕ) → register g j < 2 ^ 32)
    → g.open_end ≡ true
    → read_general_registers build t g
      ≡ ok (
        tt,
        record g { packet = framed (snapshot build g); sent = g.sent ++ framed (snapshot build g) },
      )
unfolding read_general_registers gets arm_read_cpsr read_cpsr snapshot gdb_send_data
read_snapshot build t g aligned fits opened =
    let words = words_of build 16 0 (register g) in
    let cpsr = write_uint32 build (register g 16) in
    let n : length words ≡ 128 = length-words_of build 16 0 (register g) in
    let n1 : length (words ++ unknowns 24) ≡ 320 =
      omega (arith, length-append words (unknowns 24)) in
    let n2 : length ((words ++ unknowns 24) ++ unknowns 1) ≡ 328 =
      omega (arith, length-append (words ++ unknowns 24) (unknowns 1)) in
    let n3 : length cpsr ≡ 8 = length-write_uint32 build (register g 16) in
    bind_ok _ _ (print_registers_lem build g aligned fits 16 0 [] (omega arith) (omega arith)) (
      bind_ok _ _ (print_unknown_lem 24 words g (omega arith)) (
        bind_ok _ _ (print_unknown_lem 1 (words ++ unknowns 24) g (omega arith)) (
          bind_ok _ _ (on_arm-ok (gets arm_read_cpsr) g _ g.arm refl) (
            bind_ok _ _ (print_at_lem ((words ++ unknowns 24) ++ unknowns 1) cpsr g (omega arith)) (
              sent_text (((words ++ unknowns 24) ++ unknowns 1) ++ cpsr) g
                (omega (arith, length-append ((words ++ unknowns 24) ++ unknowns 1) cpsr))
                opened)))))

snapshot_parts :
    (build : Build) (s : List ℕ) (g : Gdb)
    → snapshot build g ++ s
      ≡ words_of build 16 0 (register g)
        ++ (unknowns 24 ++ (unknowns 1 ++ (write_uint32 build (register g 16) ++ s)))
unfolding snapshot
snapshot_parts build s g =
    let words = words_of build 16 0 (register g) in
    let cpsr = write_uint32 build (register g 16) in
    append_assoc ((words ++ unknowns 24) ++ unknowns 1) cpsr s
    ∙ append_assoc (words ++ unknowns 24) (unknowns 1) (cpsr ++ s)
    ∙ append_assoc words (unknowns 24) (unknowns 1 ++ (cpsr ++ s))

skip_unknowns : (s : List ℕ) → skip_words 25 (unknowns 24 ++ (unknowns 1 ++ s)) ≡ s
unfolding skip_words skip_word
skip_unknowns s = refl

-- The state after a snapshot is given back.
abbrev pub given_back : Gdb → Gdb → Gdb
given_back g h =
    let r = restored 16 0 (register g) h in record r { arm = put_reg r.arm 16 (register g 16) }

write_snapshot :
    (build : Build) (s : List ℕ) (g h : Gdb)
    → ((j : ℕ) → register g j < 2 ^ 32)
    → InUser h.arm
    → h.open_end ≡ true
    → write_general_registers build (snapshot build g ++ s) h
      ≡ ok (
        tt,
        record (given_back g h) {
          packet = framed (codes "OK");
          sent = (given_back g h).sent ++ framed (codes "OK");
        },
      )
unfolding write_general_registers pure
write_snapshot build s g h fits user opened =
    let r = restored 16 0 (register g) h in
    let cpsr = write_uint32 build (register g 16) in
    let unknown = unknowns 24 ++ (unknowns 1 ++ (cpsr ++ s)) in
    bind_ok _ _
      (ap (λ t. store_registers build 16 0 t h) (snapshot_parts build s g)
        ∙ store_registers_lem build 16 0 (register g) unknown h user (omega arith) fits)
      (bind_ok _ _
        (ap (λ t. known (read_uint32 build t) r) (skip_unknowns (cpsr ++ s))
          ∙ ap (λ o. known o r) (write_uint32-read_uint32 build (register g 16) s (fits 16)))
        (bind_ok _ _
          (on_arm-ok (arm_write_cpsr (register g 16)) r _ _
            (arm_write_cpsr-user (register g 16) r.arm (restored-InUser 16 0 (register g) h user)))
          (sent_text (codes "OK") (given_back g h) (omega arith)
            (restored-end 16 0 (register g) h ∙ opened))))

-- The text that `g` sends for a session with a word-aligned pc whose registers fit 32 bits, given to
-- `G` of any session in user mode, with anything behind it, sets each register, the pc and the CPSR to
-- what it was. Both descriptors are open, and `g` changes nothing else of its session.
pub read_general_registers-write_general_registers :
    (build : Build) (t s : List ℕ) (g h : Gdb) (i : ℕ)
    → pc_of g.arm % 4 ≡ 0
    → ((j : ℕ) → register g j < 2 ^ 32)
    → g.open_end ≡ true
    → InUser h.arm
    → h.open_end ≡ true
    → i < 17
    → (text : List ℕ) × (h' : Gdb) × (read_general_registers build t g
        ≡ ok (tt, record g { packet = framed text; sent = g.sent ++ framed text }))
      × (write_general_registers build (text ++ s) h ≡ ok (tt, h'))
      × (register h' i ≡ register g i)
read_general_registers-write_general_registers build t s g h i aligned fits opened user open_too
      low =
    (
      snapshot build g,
      record (given_back g h) {
        packet = framed (codes "OK");
        sent = (given_back g h).sent ++ framed (codes "OK");
      },
      read_snapshot build t g aligned fits opened,
      write_snapshot build s g h fits user open_too,
      elim (Bool-cases (i == 16)) [
        | inl is_cpsr ↦
            rw is_cpsr (ap (λ k. u32 (register g k)) (sixteen is_cpsr) ∙ omega (arith, fits i))
        | inr other ↦
            rw other (restored-at 16 0 i (register g) h (omega arith) (ground arith) (fits i))
      ],
    )
  where
    sixteen : (i == 16) ≡ true → 16 ≡ i
    sixteen e = ground arith
