-- ===== src/Gdb/Sound.antt =====
-- The invariant of the processor over the handlers of a session.
use uga_prog.Base.{
  ℕ, zero, suc, ◌+◌, Bool, true, false, List, [], ◌∷◌, ◌++◌, Option, none, some, leb, length,
  if◌then◌else◌,
}
use uga_prog.Base.Outcome.{Outcome, Stop, ok, stop, Run, pure, halt, modify, ◌>>=◌}
use uga_prog.Base.Keeps.{
  Ends, Keeps, Keeps-pure, Keeps-halt, Keeps-gets, Keeps-if, Keeps-bind, keeps_rules,
}
use uga_prog.Core.{Core, Act}
use uga_prog.Core.Sound.{IsSound, core_rules}
use uga_prog.Soundness.Step.{Keeps-arm_step}
use uga_prog.Gdb.{
  Gdb, Build, max_packet_size, on_arm, emit, gdb_transmit_packet, gdb_send_buffer, gdb_send_data,
  print_at,
}
use uga_prog.Gdb.Handlers.{
  known, gdb_send_stop_reason, run_step, is_breakpoint, next_instruction, cont_loop, cont,
  kill_request, gdb_query, reason, set_thread, gdb_step, shown_register, gdb_read_register,
  print_registers, print_unknown, read_general_registers, store_registers, write_general_registers,
  skip_word,
}

abbrev pub SoundArm : ℕ → Bool → Gdb → Type 0
SoundArm size big g = IsSound size big g.arm

module _ {size : ℕ} {big : Bool} where
  pub Keeps-on_arm :
      {A : Type 0} (m : Act A) → Keeps (IsSound size big) m → Keeps (SoundArm size big) (on_arm m)
  unfolding on_arm
  Keeps-on_arm m k = record { at = λ g h. kept (m g.arm) g (k.at g.arm h) }
    where
      kept :
          {A : Type 0} (o : Outcome (A × Core)) (g : Gdb)
          → Ends (IsSound size big) o
          → Ends (SoundArm size big) (on_arm (λ _. o) g)
      kept (ok (a, p)) g h = h
      kept (stop e) g h = tt

  pub Keeps-known : {A : Type 0} (o : Option A) → Keeps (SoundArm size big) (known o)
  unfolding pure halt
  Keeps-known none = record { at = λ g h. tt }
  Keeps-known (some a) = record { at = λ g h. h }

  pub Keeps-emit : (bytes : List ℕ) → Keeps (SoundArm size big) (emit bytes)
  unfolding emit
  Keeps-emit [] = record { at = λ g h. h }
  Keeps-emit (c ∷ bytes) = record { at = λ g h. by_end g.open_end g h }
    where
      by_end :
          (b : Bool) (g : Gdb)
          → SoundArm size big g
          → Ends (SoundArm size big) (
              if b
              then ok (tt, record g { sent = g.sent ++ (c ∷ bytes) })
              else stop Stop.broken_pipe)
      by_end true g h = h
      by_end false g h = tt

  pub Keeps-gdb_transmit_packet : Keeps (SoundArm size big) gdb_transmit_packet
  unfolding gdb_transmit_packet
  Keeps-gdb_transmit_packet = record { at = λ g h. (Keeps-emit g.packet).at g h }

  pub Keeps-gdb_send_buffer : (text : List ℕ) → Keeps (SoundArm size big) (gdb_send_buffer text)
  unfolding gdb_send_buffer modify
  Keeps-gdb_send_buffer text =
      Keeps-if (leb (length text + 5) max_packet_size) _ (halt Stop.out_of_bounds)
        (Keeps-bind _ _ (record { at = λ g h. h }) λ _. Keeps-gdb_transmit_packet)
        (Keeps-halt Stop.out_of_bounds)

  pub Keeps-gdb_send_data : (text : List ℕ) → Keeps (SoundArm size big) (gdb_send_data text)
  unfolding gdb_send_data
  Keeps-gdb_send_data text = Keeps-gdb_send_buffer text

  pub Keeps-print_at : (text piece : List ℕ) → Keeps (SoundArm size big) (print_at text piece)
  unfolding print_at
  Keeps-print_at text piece = search keeps_rules

pub ruleset session_rules = (
  keeps_rules, core_rules, Keeps-on_arm, Keeps-known, Keeps-emit, Keeps-gdb_send_buffer,
  Keeps-gdb_send_data, Keeps-print_at,
)

module _ {size : ℕ} {big : Bool} where
  Keeps-gdb_send_stop_reason : Keeps (SoundArm size big) gdb_send_stop_reason
  unfolding gdb_send_stop_reason
  Keeps-gdb_send_stop_reason = search session_rules

  Keeps-run_step : Keeps (SoundArm size big) run_step
  unfolding run_step modify
  Keeps-run_step = Keeps-bind _ _ (Keeps-on_arm _ Keeps-arm_step) λ result. record { at = λ g h. h }

  Keeps-next_instruction :
      (instruction : Option ℕ) → Keeps (SoundArm size big) (next_instruction instruction)
  unfolding next_instruction
  Keeps-next_instruction instruction = search session_rules depth 12

  Keeps-cont_loop :
      (rounds : ℕ) (instruction : Option ℕ)
      → Keeps (SoundArm size big) (cont_loop rounds instruction)
  unfolding cont_loop
  Keeps-cont_loop zero instruction = Keeps-halt Stop.unfinished
  Keeps-cont_loop (suc rounds) instruction =
      Keeps-bind _ _ (Keeps-next_instruction instruction)
        λ ins. by_test (is_breakpoint ins) (Keeps-cont_loop rounds (some ins))
    where
      by_test :
          (b : Bool) {m : Run Gdb (Unit {0})}
          → Keeps (SoundArm size big) m
          → Keeps (SoundArm size big) (
              let r : Run Gdb (Unit {0}) = elim b [
                | true ↦ pure tt
                | false ↦ run_step >>= λ _. m
              ] in
              r)
      by_test true k = Keeps-pure tt
      by_test false k = Keeps-bind _ _ Keeps-run_step λ _. k

  pub Keeps-cont : (rounds : ℕ) (text : List ℕ) → Keeps (SoundArm size big) (cont rounds text)
  unfolding cont
  Keeps-cont rounds text =
      Keeps-bind _ _ (Keeps-cont_loop rounds none) λ _. Keeps-gdb_send_stop_reason

  pub Keeps-kill_request : (text : List ℕ) → Keeps (SoundArm size big) (kill_request text)
  unfolding kill_request modify
  Keeps-kill_request text = record { at = λ g h. h }

  pub Keeps-gdb_query : (text : List ℕ) → Keeps (SoundArm size big) (gdb_query text)
  unfolding gdb_query
  Keeps-gdb_query text = search session_rules

  pub Keeps-reason : (text : List ℕ) → Keeps (SoundArm size big) (reason text)
  unfolding reason
  Keeps-reason text = Keeps-gdb_send_stop_reason

  pub Keeps-set_thread : (text : List ℕ) → Keeps (SoundArm size big) (set_thread text)
  unfolding set_thread
  Keeps-set_thread [] = Keeps-halt Stop.out_of_bounds
  Keeps-set_thread (type ∷ text) = search session_rules

  pub Keeps-gdb_step : (text : List ℕ) → Keeps (SoundArm size big) (gdb_step text)
  unfolding gdb_step
  Keeps-gdb_step text = Keeps-bind _ _ Keeps-run_step λ _. Keeps-gdb_send_stop_reason

  Keeps-shown_register : (reg : ℕ) → Keeps (SoundArm size big) (shown_register reg)
  unfolding shown_register
  Keeps-shown_register reg = search session_rules depth 12

  pub Keeps-gdb_read_register :
      (build : Build) (text : List ℕ) → Keeps (SoundArm size big) (gdb_read_register build text)
  unfolding gdb_read_register
  Keeps-gdb_read_register build text = search (session_rules, Keeps-shown_register) depth 12

  Keeps-print_registers :
      (build : Build) (left i : ℕ) (text : List ℕ)
      → Keeps (SoundArm size big) (print_registers build left i text)
  unfolding print_registers
  Keeps-print_registers build zero i text = Keeps-pure text
  Keeps-print_registers build (suc left) i text = Keeps-bind _ _ (Keeps-shown_register i) λ value.
      Keeps-bind _ _ (Keeps-print_at _ _) λ text'. Keeps-print_registers build left (i + 1) text'

  Keeps-print_unknown :
      (left : ℕ) (text : List ℕ) → Keeps (SoundArm size big) (print_unknown left text)
  unfolding print_unknown
  Keeps-print_unknown zero text = Keeps-pure text
  Keeps-print_unknown (suc left) text =
      Keeps-bind _ _ (Keeps-print_at _ _) λ text'. Keeps-print_unknown left text'

  pub Keeps-read_general_registers :
      (build : Build) (text : List ℕ)
      → Keeps (SoundArm size big) (read_general_registers build text)
  unfolding read_general_registers
  Keeps-read_general_registers build text =
      search (session_rules, Keeps-print_registers, Keeps-print_unknown) depth 14

  Keeps-store_registers :
      (build : Build) (left i : ℕ) (text : List ℕ)
      → Keeps (SoundArm size big) (store_registers build left i text)
  unfolding store_registers
  Keeps-store_registers build zero i text = Keeps-pure text
  Keeps-store_registers build (suc left) i text = Keeps-bind _ _ (Keeps-known _) λ value.
      Keeps-bind _ _ (search session_rules)
        λ _. Keeps-store_registers build left (i + 1) (skip_word text)

  pub Keeps-write_general_registers :
      (build : Build) (text : List ℕ)
      → Keeps (SoundArm size big) (write_general_registers build text)
  unfolding write_general_registers
  Keeps-write_general_registers build text = search (session_rules, Keeps-store_registers) depth 14
