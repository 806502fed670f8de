-- ===== src/Gdb/Continue.antt =====
-- Where the loop of `cont` ends.
use uga_prog.Base.{
  ℕ, zero, suc, ◌+◌, ◌-◌, ◌*◌, ◌/◌, ◌%◌, ◌^◌, ◌≤◌, ◌<◌, ◌≡◌, ◌∙◌, refl, ap, arith, Bool-cases, inl,
  inr, true, List, ◌++◌, Option, none, some, ltb, ◌==◌,
}
use uga_prog.Base.Outcome.{Outcome, ok, gets}
use uga_prog.Base.Keeps.{bind_ok}
use uga_prog.Memory.{memory_read_word}
use uga_prog.Memory.Words.{memory_read_word_beyond, memory_read_word_outside}
use uga_prog.Core.{count_cycle}
use uga_prog.Core.User.{InUser, put_reg}
use uga_prog.Condition.{get_z_flag}
use uga_prog.Instruction.Beyond.{after_reset, fetched, arm_step_beyond, arm_step_outside}
use uga_prog.LoadStore.Multiple.{or_else}
use uga_prog.Gdb.{Gdb, gdb_send_data, framed}
use uga_prog.Gdb.Actions.{pc_of, sent_text}
use uga_prog.Gdb.Handlers.{is_breakpoint, cont_loop, cont, gdb_send_stop_reason, stop_reason}
use uga_prog.Text.{codes}
use uga_prog.Gdb.Rounds.{next_instruction_lem, stepped_to, round_ends, round_steps}

-- A session whose processor was reset at last: its loop is over, with the CPSR and the pc of a reset, in
-- user mode, and the memory as it was; nothing was sent.
pub record Halted (before : Gdb) (o : Outcome (Unit {0} × Gdb)) : Type 0 where
  pub after : Gdb
  pub returns : o ≡ ok (tt, after)
  pub at_zero : pc_of after.arm ≡ 0
  pub cpsr_reset : after.arm.reg.reg 16 ≡ 0x1d3
  pub in_user : InUser after.arm
  pub same_memory : after.arm.mem ≡ before.arm.mem
  pub was_reset : after.target_exception ≡ 1
  pub same_sent : after.sent ≡ before.sent
  pub same_end : after.open_end ≡ before.open_end

Halted-before :
    {g g' : Gdb} {o : Outcome (Unit {0} × Gdb)}
    → g'.arm.mem ≡ g.arm.mem
    → g'.sent ≡ g.sent
    → g'.open_end ≡ g.open_end
    → Halted g' o
    → Halted g o
Halted-before m s e h = record {
  after = h.after;
  returns = h.returns;
  at_zero = h.at_zero;
  cpsr_reset = h.cpsr_reset;
  in_user = h.in_user;
  same_memory = h.same_memory ∙ m;
  was_reset = h.was_reset;
  same_sent = h.same_sent ∙ s;
  same_end = h.same_end ∙ e;
}

-- Past an instruction that a step passes, where Z is set.
abbrev passed : Gdb → Gdb
passed g = stepped_to g (put_reg (fetched g.arm) 0 0) 0

pc_of-passed : (g : Gdb) → pc_of g.arm + 4 < 2 ^ 32 → pc_of (passed g).arm ≡ pc_of g.arm + 4
unfolding count_cycle
pc_of-passed g h = ground arith

module _ (w : ℕ) (is_break : is_breakpoint w ≡ true) where
  -- The round after a reset.
  halts_reset :
      (rounds : ℕ) (instruction : Option ℕ) (g : Gdb)
      → InUser g.arm
      → memory_read_word g.arm.mem 0 ≡ some w
      → Halted g (cont_loop (suc rounds) instruction (stepped_to g (after_reset (fetched g.arm)) 1))
  unfolding count_cycle
  halts_reset rounds instruction g user first =
      let g' = stepped_to g (after_reset (fetched g.arm)) 1 in
      record {
        after = g';
        returns =
            round_ends rounds w instruction g'
              (next_instruction_lem instruction g' w (omega arith) (omega arith)
                (ap (λ o. or_else o instruction) first))
              is_break;
        at_zero = refl;
        cpsr_reset = refl;
        in_user = user;
        same_memory = refl;
        was_reset = refl;
        same_sent = refl;
        same_end = refl;
      }

  halts_outside :
      (rounds : ℕ) (g : Gdb)
      → InUser g.arm
      → pc_of g.arm < 2 ^ 32
      → pc_of g.arm % 4 ≡ 0
      → g.arm.mem.taille ≤ pc_of g.arm
      → memory_read_word g.arm.mem 0 ≡ some w
      → Halted g (cont_loop (suc (suc rounds)) (some 0) g)
  unfolding is_breakpoint
  halts_outside rounds g user fits aligned outside first =
      let seen =
        next_instruction_lem (some 0) g 0 fits aligned (
          ap (λ o. or_else o (some 0))
            (memory_read_word_outside g.arm.mem (pc_of g.arm) outside)) in
      let step = arm_step_outside g.arm user fits aligned outside in
      rw (round_steps (suc rounds) 0 (some 0) g _ 1 seen refl step)
        (halts_reset rounds (some 0) g user first)

  -- `k` instructions at most are left in the memory.
  halts_inside :
      (k rounds : ℕ) (instruction : Option ℕ) (g : Gdb)
      → InUser g.arm
      → g.arm.mem.taille + 4 ≤ 2 ^ 32
      → pc_of g.arm % 4 ≡ 0
      → 4 ≤ pc_of g.arm
      → pc_of g.arm < g.arm.mem.taille
      → g.arm.mem.taille ≤ pc_of g.arm + 4 * k
      → k + 2 ≤ rounds
      → memory_read_word g.arm.mem 0 ≡ some w
      → Halted g (cont_loop rounds instruction g)
  unfolding is_breakpoint count_cycle
  halts_inside zero rounds i g user small aligned far inside close enough first =
      absurd (omega arith)
  halts_inside (suc k) zero i g user small aligned far inside close enough first =
      absurd (omega arith)
  halts_inside (suc k) (suc zero) i g user small aligned far inside close enough first =
      absurd (omega arith)
  halts_inside (suc k) (suc (suc zero)) i g user small aligned far inside close enough first =
      absurd (omega arith)
  halts_inside (suc k) (suc (suc (suc n))) i g user small aligned far inside close enough first =
      let seen =
        next_instruction_lem i g 0 (omega arith) aligned
          (ap (λ o. or_else o i) (memory_read_word_beyond g.arm.mem (pc_of g.arm) far inside)) in
      let step = arm_step_beyond g.arm user (omega arith) aligned far inside in
      let moved = pc_of-passed g (omega arith) in
      elim (Bool-cases (get_z_flag g.arm == 0)) [
        | inl clear ↦
            rw (round_steps (suc (suc n)) 0 i g _ 1 seen refl (rw clear at step))
              (halts_reset (suc n) (some 0) g user first)
        | inr set ↦ rw (round_steps (suc (suc n)) 0 i g _ 0 seen refl (rw set at step)) (
            Halted-before refl refl refl
              (elim (Bool-cases (ltb (pc_of g.arm + 4) g.arm.mem.taille)) [
                | inl still ↦
                    halts_inside k (suc (suc n)) (some 0) (passed g) user small
                      (omega (arith, moved)) (omega (arith, moved)) (ground (arith, moved))
                      (omega (arith, moved)) (omega arith) first
                | inr over ↦
                    halts_outside n (passed g) user (omega (arith, moved)) (omega (arith, moved))
                      (ground (arith, moved)) first
              ]))
      ]

abbrev replied : Gdb → Gdb
replied g = record g { packet = framed (codes "S05"); sent = g.sent ++ framed (codes "S05") }

stop_reason_sent :
    (g : Gdb)
    → g.target_exception ≡ 1
    → g.open_end ≡ true
    → gdb_send_stop_reason g ≡ ok (tt, replied g)
unfolding gdb_send_stop_reason stop_reason gets
stop_reason_sent g e opened =
    bind_ok _ _ refl
      (ap (λ x. gdb_send_data (stop_reason x) g) e ∙ sent_text (codes "S05") g (omega arith) opened)

-- In user mode, at a word-aligned pc in the memory but past its first word, in a memory that ends at
-- least 4 bytes below 2^32: `cont` returns after at most one round for each word up to the end of the
-- memory and two more, if the word at 0 is a breakpoint and the descriptor is open. `S05` is sent, and the
-- processor is left with what a reset writes, the CPSR 0x1d3 and the pc 0, in user mode and with the
-- memory as it was.
pub cont_returns :
    (rounds w : ℕ) (text : List ℕ) (g : Gdb)
    → InUser g.arm
    → g.arm.mem.taille + 4 ≤ 2 ^ 32
    → pc_of g.arm % 4 ≡ 0
    → 4 ≤ pc_of g.arm
    → pc_of g.arm < g.arm.mem.taille
    → (g.arm.mem.taille - pc_of g.arm + 3) / 4 + 2 ≤ rounds
    → memory_read_word g.arm.mem 0 ≡ some w
    → is_breakpoint w ≡ true
    → g.open_end ≡ true
    → (g' : Gdb) × (cont rounds text g ≡ ok (tt, g'))
      × (pc_of g'.arm ≡ 0)
      × (g'.arm.reg.reg 16 ≡ 0x1d3)
      × InUser g'.arm
      × (g'.arm.mem ≡ g.arm.mem)
      × (g'.sent ≡ g.sent ++ framed (codes "S05"))
unfolding cont
cont_returns rounds w text g user small aligned far inside enough first is_break opened =
    let k = (g.arm.mem.taille - pc_of g.arm + 3) / 4 in
    let h =
      halts_inside w is_break k rounds none g user small aligned far inside (omega arith) enough
        first in
    let a = h.after in
    (
      replied a,
      bind_ok _ _ h.returns (stop_reason_sent a h.was_reset (h.same_end ∙ opened)),
      h.at_zero,
      h.cpsr_reset,
      h.in_user,
      h.same_memory,
      ap (λ t. t ++ framed (codes "S05")) h.same_sent,
    )
