-- ===== src/Scanner/Sessions.antt =====
-- What gdb and the interrupts can lead a session to, in any order: scanner.l, and the listeners of
-- arm_simulator-1.4/arm_simulator.c, which take turns on the processor by the lock.
use uga_prog.Base.{
  ℕ, ◌-◌, ◌<◌, ◌≡◌, refl, ap, arith, Bool, true, false, [], ◌∷◌, length, length-append, Option,
  none, some, ltb, ◌==◌, if◌then◌else◌,
}
use mathlib.Core.Path.{subst}
use uga_prog.Base.Outcome.{Outcome, ok, stop, Run, modify, ◌>>=◌}
use uga_prog.Base.Keeps.{Ends, Keeps, Keeps-pure, Keeps-bind}
use uga_prog.Core.{Core}
use uga_prog.Core.Sound.{IsSound}
use uga_prog.Exception.{arm_exception}
use uga_prog.Soundness.Step.{Keeps-arm_exception}
use uga_prog.Soundness.Reachable.{Reachable, Reachable-IsSound}
use uga_prog.Gdb.{Gdb, Build, on_arm, gdb_require_retransmission}
use uga_prog.Gdb.Analysis.{gdb_init_data}
use uga_prog.Gdb.Sound.{SoundArm, Keeps-on_arm, Keeps-emit, Keeps-gdb_transmit_packet}
use uga_prog.Gdb.Session.{Keeps-gdb_packet_analysis}
use uga_prog.Scanner.{
  ParserData, Token, ack, retransmission, packet, error, newline, max_error_size, on_gdb,
  handle_error, make_room, store_error, add_character_to_error, action,
}

-- A byte that the irq listener reads, while it holds the lock.
unfoldable pub irq_received : ℕ → Run ParserData (Unit {0})
irq_received irq = on_gdb (on_arm (arm_exception irq))

-- The sessions that start at a processor and lead on by the tokens of gdb and the bytes of the irq
-- listener, in any order. A `c` of gdb can have any number of rounds.
pub data Session (build : Build) (size : ℕ) (big : Bool) : ParserData → Type 0 where
  started :
      (p : Core) (g : Gdb)
      → Reachable size big p
      → gdb_init_data true p ≡ some g
      → Session build size big (record { gdb = g; buffer = [] })
  matched :
      (rounds : ℕ) (t : Token) (d d' : ParserData)
      → Session build size big d
      → action build rounds t d ≡ ok (tt, d')
      → Session build size big d'
  interrupted :
      (irq : ℕ) (d d' : ParserData)
      → Session build size big d
      → irq_received irq d ≡ ok (tt, d')
      → Session build size big d'

-- The processor of the session is sound, and the buffer has room for its final 0.
pub record IsSession (size : ℕ) (big : Bool) (d : ParserData) : Type 0 where
  pub sound : IsSound size big d.gdb.arm
  pub room : length d.buffer < 1024

Ends-if :
    {S A : Type 0} (P : S → Type 0) (b : Bool) (o o' : Outcome (A × S))
    → ((b ≡ true) → Ends P o)
    → ((b ≡ false) → Ends P o')
    → Ends P (if b then o else o')
Ends-if P true o o' h h' = h refl
Ends-if P false o o' h h' = h' refl

-- An action that ends in one predicate, followed by one that leads from it to another.
Ends-then :
    {S A B : Type 0} (P Q : S → Type 0) (m : Run S A) (f : A → Run S B) (s : S)
    → Ends P (m s)
    → ((a : A) (t : S) → P t → Ends Q (f a t))
    → Ends Q ((m >>= f) s)
unfolding ◌>>=◌
Ends-then {S = S} {A = A} {B = B} P Q m f s h k = by_outcome (m s) h
  where
    by_outcome :
        (o : Outcome (A × S))
        → Ends P o
        → Ends Q (let r : Outcome (B × S) = elim o [ ok (a, t) ↦ f a t | stop e ↦ stop e ] in r)
    by_outcome (ok (a, t)) h = k a t h
    by_outcome (stop e) h = tt

-- With room for one more byte.
abbrev HasRoom : ℕ → Bool → ParserData → Type 0
HasRoom size big d = IsSession size big d × (length d.buffer < 1023)

module _ {size : ℕ} {big : Bool} where
  Keeps-on_gdb :
      {A : Type 0} (m : Run Gdb A)
      → Keeps (SoundArm size big) m
      → Keeps (IsSession size big) (on_gdb m)
  unfolding on_gdb
  Keeps-on_gdb m k = record { at = λ d h. kept (m d.gdb) d h (k.at d.gdb h.sound) }
    where
      kept :
          {A : Type 0} (o : Outcome (A × Gdb)) (d : ParserData)
          → IsSession size big d
          → Ends (SoundArm size big) o
          → Ends (IsSession size big) (on_gdb (λ _. o) d)
      kept (ok (a, g)) d h s = record { sound = s; room = h.room }
      kept (stop e) d h s = tt

  emptied :
      (d : ParserData)
      → IsSession size big d
      → Ends
          (HasRoom size big)
          ((on_gdb gdb_require_retransmission >>= λ _. modify (λ d. record d { buffer = [] })) d)
  unfolding gdb_require_retransmission modify
  emptied d h =
      Ends-then (IsSession size big) (HasRoom size big) _ _ d
        ((Keeps-on_gdb _ (Keeps-emit (b'-' ∷ []))).at d h)
        λ _ t k. (record { sound = k.sound; room = omega arith }, omega arith)

  handle_error-HasRoom :
      (d : ParserData) → IsSession size big d → Ends (HasRoom size big) (handle_error d)
  unfolding handle_error
  handle_error-HasRoom d h =
      Ends-if (HasRoom size big) (length d.buffer == 0) _ _ (λ e. (h, ground arith))
        λ _.
          Ends-if (HasRoom size big) (ltb (length d.buffer) max_error_size) _ _ (λ _. emptied d h)
            λ _. tt

  make_room-HasRoom :
      (d : ParserData) → IsSession size big d → Ends (HasRoom size big) (make_room d)
  unfolding make_room
  make_room-HasRoom d h =
      Ends-if (HasRoom size big) (ltb (max_error_size - 2) (length d.buffer)) _ _
        (λ _. handle_error-HasRoom d h) λ e. (h, ground arith)

  Keeps-handle_error : Keeps (IsSession size big) handle_error
  Keeps-handle_error = record { at = λ d h. fst (handle_error d) (handle_error-HasRoom d h) }
    where
      fst :
          {A : Type 0} (o : Outcome (A × ParserData))
          → Ends (HasRoom size big) o
          → Ends (IsSession size big) o
      fst (ok (a, d)) h = h.0
      fst (stop e) h = tt

  store_error-IsSession :
      (c : ℕ) (d : ParserData) → HasRoom size big d → Ends (IsSession size big) (store_error c d)
  unfolding store_error
  store_error-IsSession c d (h, free) =
      Ends-if (IsSession size big) (ltb (length d.buffer) max_error_size) _ _
        (λ _. record { sound = h.sound; room = omega (arith, length-append d.buffer (c ∷ [])) })
        λ _. tt

  Keeps-add_character_to_error : (c : ℕ) → Keeps (IsSession size big) (add_character_to_error c)
  unfolding add_character_to_error
  Keeps-add_character_to_error c = record {
    at = λ d h.
        Ends-then (HasRoom size big) (IsSession size big) _ _ d (make_room-HasRoom d h)
          λ _ t k. store_error-IsSession c t k;
  }

  Keeps-action :
      (build : Build) (rounds : ℕ) (t : Token) → Keeps (IsSession size big) (action build rounds t)
  unfolding action
  Keeps-action build rounds ack = Keeps-handle_error
  Keeps-action build rounds retransmission =
      Keeps-bind _ _ Keeps-handle_error λ _. Keeps-on_gdb _ Keeps-gdb_transmit_packet
  Keeps-action build rounds (packet text) =
      Keeps-bind _ _ Keeps-handle_error
        λ _. Keeps-on_gdb _ (Keeps-gdb_packet_analysis build rounds text)
  Keeps-action build rounds (error c) = Keeps-add_character_to_error c
  Keeps-action build rounds newline = Keeps-pure tt

  Keeps-irq_received : (irq : ℕ) → Keeps (IsSession size big) (irq_received irq)
  unfolding irq_received
  Keeps-irq_received irq = Keeps-on_gdb _ (Keeps-on_arm _ (Keeps-arm_exception irq))

  IsSession-at :
      {A : Type 0} {o : Outcome (A × ParserData)} {a : A} {d : ParserData}
      → Ends (IsSession size big) o
      → o ≡ ok (a, d)
      → IsSession size big d
  IsSession-at h e = subst (Ends (IsSession size big)) e h

-- Whatever packets and other bytes gdb sends, and whatever bytes the irq listener reads, in any order,
-- the processor of a session that starts from a reachable one is sound, and the buffer of invalid bytes
-- holds less than its 1024.
pub Session-IsSession :
    {build : Build} {size : ℕ} {big : Bool} (d : ParserData)
    → Session build size big d
    → IsSession size big d
unfolding gdb_init_data
Session-IsSession d (started p g r e) = record {
  sound = subst (IsSound _ _) (ap (arm_of p) e) (Reachable-IsSound p r);
  room = omega arith;
}
  where
    arm_of : Core → Option Gdb → Core
    arm_of p none = p
    arm_of p (some g) = g.arm
Session-IsSession d (matched rounds t before _ s e) =
    IsSession-at ((Keeps-action _ rounds t).at before (Session-IsSession before s)) e
Session-IsSession d (interrupted irq before _ s e) =
    IsSession-at ((Keeps-irq_received irq).at before (Session-IsSession before s)) e
