-- ===== src/Gdb/Handlers.antt =====
-- The handlers that run the processor, answer questions about it, and read and write registers.
use uga_prog.Base.{
  ℕ, zero, suc, ◌+◌, ◌-◌, ◌^◌, bit_and, Bool, true, false, ◌&&◌, ◌||◌, List, [], ◌∷◌, Option, none,
  some, u8, sub32, ltb, ◌==◌, if◌then◌else◌,
}
use uga_prog.Base.Outcome.{Stop, Run, pure, halt, gets, modify, ◌>>=◌, ◌>>◌}
use uga_prog.Constants.{undefined_instruction, prefetch_abort, data_abort}
use uga_prog.Text.{codes, c_string, same_text, has_prefix, after_char, scan_x, atoi}
use uga_prog.Core.{
  arm_read_register, arm_write_register, arm_read_cpsr, arm_write_cpsr, arm_read_word,
}
use uga_prog.LoadStore.Multiple.{or_else}
use uga_prog.Instruction.{arm_step}
use uga_prog.Gdb.{Gdb, Build, on_arm, gdb_send_data, gdb_send_buffer, print_at}
use uga_prog.Gdb.Words.{read_uint32, write_uint32}

-- A variable that is read.
abbrev pub known : {A : Type 0} → Option A → Run Gdb A
known none = halt Stop.uninitialised
known (some a) = pure a

unfoldable pub stop_reason : ℕ → List ℕ
stop_reason exception =
    if exception == undefined_instruction
    then codes "S04"
    else if (exception == prefetch_abort) || (exception == data_abort)
    then codes "S10"
    else codes "S05"

unfoldable pub gdb_send_stop_reason : Run Gdb (Unit {0})
unfolding stop_reason gdb_send_data
gdb_send_stop_reason = do
  exception ← gets (λ g. g.target_exception)
  gdb_send_data (stop_reason exception)

unfoldable pub run_step : Run Gdb (Unit {0})
run_step = do result ← on_arm arm_step; modify (λ g. record g { target_exception = result })

unfoldable pub is_breakpoint : ℕ → Bool
is_breakpoint instruction = bit_and instruction 0xFFF0_00F0 == 0xE7F0_00F0

-- The instruction at the pc. A read that fails leaves the one before.
unfoldable pub next_instruction : Option ℕ → Run Gdb ℕ
next_instruction instruction = do
  r15 ← on_arm (arm_read_register 15)
  result ← on_arm (arm_read_word (sub32 r15 4))
  known (or_else result instruction)

-- The loop may never end; `rounds` cuts it off.
unfoldable pub cont_loop : ℕ → Option ℕ → Run Gdb (Unit {0})
unfolding next_instruction run_step
cont_loop zero instruction = halt Stop.unfinished
cont_loop (suc rounds) instruction = next_instruction instruction >>= λ ins.
    elim (is_breakpoint ins) [
      | true ↦ pure tt
      | false ↦ run_step >>= λ _. cont_loop rounds (some ins)
    ]

unfoldable pub cont : ℕ → List ℕ → Run Gdb (Unit {0})
unfolding cont_loop
cont rounds text = do cont_loop rounds none; gdb_send_stop_reason

unfoldable pub kill_request : List ℕ → Run Gdb (Unit {0})
kill_request text = modify (λ g. record g { open_end = false })

unfoldable pub query_answer : List ℕ → List ℕ
unfolding same_text has_prefix
query_answer text =
    if same_text text (codes "Offsets")
    then codes "Text=0;Data=0;Bss=0"
    else if has_prefix (codes "Supported") text
    then codes "PacketSize=400"
    else if same_text text (codes "TStatus")
    then codes "T0;tnotrun:0"
    else if same_text text (codes "Symbol::")
    then []
    else []

unfoldable pub gdb_query : List ℕ → Run Gdb (Unit {0})
unfolding query_answer c_string
gdb_query text = gdb_send_data (query_answer (c_string text))

unfoldable pub reason : List ℕ → Run Gdb (Unit {0})
reason text = gdb_send_stop_reason

-- `value < 1 && value > -2` on an int.
unfoldable pub any_thread : ℕ → List ℕ → Bool
unfolding atoi
any_thread type text =
    ((type == b'c') || (type == b'g')) && ((atoi text == 0) || (atoi text == 2 ^ 32 - 1))

unfoldable pub set_thread : List ℕ → Run Gdb (Unit {0})
set_thread [] = halt Stop.out_of_bounds
set_thread (type ∷ text) =
    if any_thread type text then gdb_send_data (codes "OK") else gdb_send_data (codes "E01")

unfoldable pub gdb_step : List ℕ → Run Gdb (Unit {0})
gdb_step text = do run_step; gdb_send_stop_reason

-- The pc is one instruction ahead.
unfoldable pub shown_register : ℕ → Run Gdb ℕ
shown_register reg = do
  value ← on_arm (arm_read_register reg)
  pure (sub32 value (if reg == 15 then 4 else 0))

unfoldable pub gdb_read_register : Build → List ℕ → Run Gdb (Unit {0})
gdb_read_register build text =
    let reg = atoi text in
    if ltb reg 16
    then (do value ← shown_register (u8 reg); gdb_send_buffer (write_uint32 build value))
    else halt Stop.assertion_failed

-- Registers 0 to 15 in the order of the loop, the last one as the special case of the pc.
unfoldable pub print_registers : Build → ℕ → ℕ → List ℕ → Run Gdb (List ℕ)
print_registers build zero i text = pure text
print_registers build (suc left) i text = do
  value ← shown_register i
  text' ← print_at text (write_uint32 build value)
  print_registers build left (i + 1) text'

unfoldable pub print_unknown : ℕ → List ℕ → Run Gdb (List ℕ)
print_unknown zero text = pure text
print_unknown (suc left) text = do
  text' ← print_at text (codes "xxxxxxxx")
  print_unknown left text'

-- Sixteen registers, eight floating point registers of three words, the fps, and the CPSR.
unfoldable pub read_general_registers : Build → List ℕ → Run Gdb (Unit {0})
read_general_registers build text = do
  registers ← print_registers build 16 0 []
  floats ← print_unknown 24 registers
  fps ← print_unknown 1 floats
  cpsr ← on_arm (gets arm_read_cpsr)
  all ← print_at fps (write_uint32 build cpsr)
  gdb_send_buffer all

unfoldable pub skip_word : List ℕ → List ℕ
skip_word (a ∷ b ∷ c ∷ d ∷ e ∷ f ∷ g ∷ h ∷ s) = s
skip_word s = []

unfoldable pub store_registers : Build → ℕ → ℕ → List ℕ → Run Gdb (List ℕ)
store_registers build zero i text = pure text
store_registers build (suc left) i text = do
  value ← known (read_uint32 build text)
  on_arm (arm_write_register i value)
  store_registers build left (i + 1) (skip_word text)

-- The words that the loop reads and does not use.
unfoldable pub skip_words : ℕ → List ℕ → List ℕ
skip_words zero text = text
skip_words (suc left) text = skip_words left (skip_word text)

unfoldable pub write_general_registers : Build → List ℕ → Run Gdb (Unit {0})
write_general_registers build text = do
  rest ← store_registers build 16 0 text
  value ← known (read_uint32 build (skip_words 25 rest))
  on_arm (arm_write_cpsr value)
  gdb_send_data (codes "OK")

abbrev pub first_of : {A B : Type 0} → Option (A × B) → Option A
first_of none = none
first_of (some (a, b)) = some a

-- From the digits after the `=`.
unfoldable pub write_digits : Build → List ℕ → Option (List ℕ) → Run Gdb (Unit {0})
write_digits build text none = halt Stop.null_pointer
write_digits build text (some digits) = do
  value ← known (read_uint32 build digits)
  reg ← known (first_of (scan_x text))
  if ltb reg 16
      then (do on_arm (arm_write_register (u8 reg) value); gdb_send_data (codes "OK"))
      else halt Stop.assertion_failed

unfoldable pub gdb_write_register : Build → List ℕ → Run Gdb (Unit {0})
unfolding write_digits
gdb_write_register build text = write_digits build text (after_char b'=' text)
