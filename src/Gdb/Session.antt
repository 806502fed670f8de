-- ===== src/Gdb/Session.antt =====
-- The invariant of the processor over the transfers of memory and the analysis of a packet.
use uga_prog.Base.{
  ℕ, zero, suc, Bool, true, false, List, [], ◌∷◌, Option, none, some, u8, add32, ◌==◌,
  if◌then◌else◌,
}
use uga_prog.Base.Outcome.{Stop, Run, pure, halt, gets, modify, ◌>>=◌}
use uga_prog.Base.Keeps.{Ends, Keeps, Keeps-pure, Keeps-halt, Keeps-gets, Keeps-bind}
use uga_prog.Memory.{Memory, memory_write_byte}
use uga_prog.Memory.Bounds.{write_byte-IsBytes, Writes, IsBytes}
use uga_prog.Text.{after_char, print_byte}
use uga_prog.Gdb.{Gdb, Build, gdb_send_data, gdb_send_ack, gdb_require_retransmission, print_at}
use uga_prog.Gdb.Handlers.{gdb_write_register, write_digits}
use uga_prog.Gdb.Transfers.{
  read_memory_loop, read_memory, set_mem, next_byte, write_memory_loop, write_content,
  write_memory_binary,
}
use uga_prog.Gdb.Analysis.{handler, dispatch, gdb_packet_analysis}
use uga_prog.Gdb.Sound.{
  SoundArm, session_rules, Keeps-print_at, Keeps-gdb_send_data, Keeps-cont, Keeps-kill_request,
  Keeps-gdb_query, Keeps-reason, Keeps-set_thread, Keeps-gdb_step, Keeps-gdb_read_register,
  Keeps-read_general_registers, Keeps-write_general_registers,
}

module _ {size : ℕ} {big : Bool} where
  Keeps-write_digits :
      (build : Build) (text : List ℕ) (o : Option (List ℕ))
      → Keeps (SoundArm size big) (write_digits build text o)
  unfolding write_digits
  Keeps-write_digits build text none = Keeps-halt Stop.null_pointer
  Keeps-write_digits build text (some digits) = search session_rules depth 14

  pub Keeps-gdb_write_register :
      (build : Build) (text : List ℕ) → Keeps (SoundArm size big) (gdb_write_register build text)
  unfolding gdb_write_register
  Keeps-gdb_write_register build text = Keeps-write_digits build text (after_char b'=' text)

  Keeps-read_memory_loop :
      (left address : ℕ) (text : List ℕ)
      → Keeps (SoundArm size big) (read_memory_loop left address text)
  unfolding read_memory_loop
  Keeps-read_memory_loop zero address text = Keeps-pure text
  Keeps-read_memory_loop (suc left) address text =
      Keeps-bind _ _ (Keeps-gets _)
        λ value. by_case value (λ t. Keeps-read_memory_loop left (add32 address 1) t)
    where
      by_case :
          (o : Option ℕ)
          → ((t : List ℕ) → Keeps (SoundArm size big) (read_memory_loop left (add32 address 1) t))
          → Keeps (SoundArm size big) (
              let r : Run Gdb (List ℕ) = elim o [
                | none ↦ pure text
                | some v ↦ print_at text (print_byte v) >>= λ text'.
                    read_memory_loop left (add32 address 1) text'
              ] in
              r)
      by_case none k = Keeps-pure text
      by_case (some v) k = Keeps-bind _ _ (Keeps-print_at _ _) k

  pub Keeps-read_memory : (text : List ℕ) → Keeps (SoundArm size big) (read_memory text)
  unfolding read_memory
  Keeps-read_memory text = search (session_rules, Keeps-read_memory_loop) depth 12

  -- The memory that a write gives, in place of the one that it was made on.
  stored_byte :
      (address value : ℕ) (f : Option Memory → Run Gdb Bool)
      → Keeps (SoundArm size big) (f none)
      → ((mem : Memory) (g : Gdb)
          → IsBytes size big mem
          → SoundArm size big g
          → Ends (SoundArm size big) (f (some mem) g))
      → Keeps (SoundArm size big) (gets (λ g. memory_write_byte g.arm.mem address value) >>= f)
  unfolding ◌>>=◌ gets
  stored_byte address value f k ks = record {
    at = λ g h.
        by_case (memory_write_byte g.arm.mem address value) g h
          (write_byte-IsBytes g.arm.mem address value h.memory);
  }
    where
      by_case :
          (o : Option Memory) (g : Gdb)
          → SoundArm size big g
          → Writes (IsBytes size big) o
          → Ends (SoundArm size big) (f o g)
      by_case none g h w = k.at g h
      by_case (some mem) g h w = ks mem g w h

  stored_then :
      {A : Type 0} {m : Run Gdb A} (mem : Memory) (g : Gdb)
      → Keeps (SoundArm size big) m
      → IsBytes size big mem
      → SoundArm size big g
      → Ends (SoundArm size big) ((modify (set_mem mem) >>= λ _. m) g)
  unfolding ◌>>=◌ modify set_mem
  stored_then mem g k w h =
      k.at (record g { arm = record g.arm { mem = mem } }) (record { bank = h.bank; memory = w })

  Keeps-write_memory_loop :
      (left address : ℕ) (content : List ℕ)
      → Keeps (SoundArm size big) (write_memory_loop left address content)
  unfolding write_memory_loop
  Keeps-write_memory_loop zero address content = Keeps-pure true
  Keeps-write_memory_loop (suc left) address content =
      by_case (next_byte content) (λ t. Keeps-write_memory_loop left (add32 address 1) t)
    where
      by_case :
          (o : Option (ℕ × List ℕ))
          → ((t : List ℕ) → Keeps (SoundArm size big) (write_memory_loop left (add32 address 1) t))
          → Keeps (SoundArm size big) (
              let r : Run Gdb Bool = elim o [
                | none ↦ halt Stop.out_of_bounds
                | some (value, rest) ↦
                    gets (λ g. memory_write_byte g.arm.mem address (u8 value)) >>= λ written.
                    elim written [
                      | none ↦ pure false
                      | some mem ↦ modify (set_mem mem) >>= λ _.
                          write_memory_loop left (add32 address 1) rest
                    ]
              ] in
              r)
      by_case none k = Keeps-halt Stop.out_of_bounds
      by_case (some (value, rest)) k =
          stored_byte address (u8 value) _ (Keeps-pure false)
            λ mem g w h. stored_then mem g (k rest) w h

  Keeps-write_content :
      (pair : ℕ × ℕ) (inside : Bool) (o : Option (List ℕ))
      → Keeps (SoundArm size big) (write_content pair inside o)
  unfolding write_content
  Keeps-write_content pair inside none = Keeps-halt Stop.null_pointer
  Keeps-write_content pair inside (some content) =
      search (session_rules, Keeps-write_memory_loop) depth 12

  pub Keeps-write_memory_binary :
      (text : List ℕ) → Keeps (SoundArm size big) (write_memory_binary text)
  unfolding write_memory_binary
  Keeps-write_memory_binary text = search (session_rules, Keeps-write_content) depth 12

module _ (size : ℕ) (big : Bool) where
  -- A handler, where there is one, keeps the processor sound.
  abbrev Handles : Option (List ℕ → Run Gdb (Unit {0})) → Type 0
  Handles none = Unit
  Handles (some run) = (text : List ℕ) → Keeps (SoundArm size big) (run text)

  Handles-if :
      (b : Bool) (run : List ℕ → Run Gdb (Unit {0})) (o : Option (List ℕ → Run Gdb (Unit {0})))
      → Handles (some run)
      → Handles o
      → Handles (if b then some run else o)
  Handles-if true run o h hs = h
  Handles-if false run o h hs = hs

  Handles-handler : (build : Build) (rounds index : ℕ) → Handles (handler build rounds index)
  unfolding handler
  Handles-handler build rounds index = Handles-if (index == b'c') _ _ (Keeps-cont rounds) (
      Handles-if (index == b'k') _ _ Keeps-kill_request (
        Handles-if (index == b'q') _ _ Keeps-gdb_query (
          Handles-if (index == b'g') _ _ (Keeps-read_general_registers build) (
            Handles-if (index == b'm') _ _ Keeps-read_memory (
              Handles-if (index == b'p') _ _ (Keeps-gdb_read_register build) (
                Handles-if (index == b'?') _ _ Keeps-reason (
                  Handles-if (index == b'H') _ _ Keeps-set_thread (
                    Handles-if (index == b's') _ _ Keeps-gdb_step (
                      Handles-if (index == b'G') _ _ (Keeps-write_general_registers build) (
                        Handles-if (index == b'X') _ _ Keeps-write_memory_binary (
                          Handles-if (index == b'P') _ none (Keeps-gdb_write_register build)
                            tt)))))))))))

module _ {size : ℕ} {big : Bool} (build : Build) (rounds : ℕ) where
  run-Handles :
      (o : Option (List ℕ → Run Gdb (Unit {0}))) (text : List ℕ)
      → Handles size big o
      → Keeps (SoundArm size big) (
          let r : Run Gdb (Unit {0}) = elim o [ none ↦ gdb_send_data [] | some run ↦ run text ] in
          r)
  run-Handles none text h = Keeps-gdb_send_data []
  run-Handles (some run) text h = h text

  pub Keeps-dispatch : (text : List ℕ) → Keeps (SoundArm size big) (dispatch build rounds text)
  unfolding dispatch
  Keeps-dispatch [] = Keeps-halt Stop.out_of_bounds
  Keeps-dispatch (index ∷ text) =
      run-Handles (handler build rounds index) text (Handles-handler size big build rounds index)

  pub Keeps-gdb_packet_analysis :
      (packet : List ℕ) → Keeps (SoundArm size big) (gdb_packet_analysis build rounds packet)
  unfolding gdb_packet_analysis gdb_send_ack gdb_require_retransmission
  Keeps-gdb_packet_analysis packet = search (session_rules, Keeps-dispatch) depth 12
