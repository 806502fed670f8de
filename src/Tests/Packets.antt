-- ===== src/Tests/Packets.antt =====
-- Runs of the handlers of gdb_protocol.c.
use uga_prog.Base.{
  ℕ, ◌^◌, ◌<◌, ◌≡◌, refl, arith, Bool, true, false, List, [], ◌∷◌, ◌++◌, some, leb, ◌==◌, ◌||◌,
  if◌then◌else◌,
}
use uga_prog.Base.Outcome.{Stop, ok, stop}
use uga_prog.Text.{
  codes, scan_x, scan_hex, skip_space, signed_hex, scan_prefixed, take_digits, number_of,
  after_char, digit_value, scan_unsigned,
}
use uga_prog.Memory.{
  Memory, memory_read_word, word_loop, word_part, memory_get_size, memory_read_byte,
}
use uga_prog.Core.{Core}
use uga_prog.Core.User.{InUser}
use uga_prog.Gdb.{Gdb, Build, framed}
use uga_prog.Gdb.Actions.{pc_of}
use uga_prog.Gdb.Words.{read_uint32, write_uint32}
use uga_prog.Gdb.WordsBack.{write_uint32-read_uint32}
use uga_prog.Gdb.Handlers.{cont, is_breakpoint, read_general_registers, write_general_registers}
use uga_prog.Gdb.Transfers.{scan_pair, scan_second, read_memory, write_memory_binary}
use uga_prog.Gdb.Continue.{cont_returns}
use uga_prog.Gdb.Restore.{register}
use uga_prog.Gdb.Snapshot.{read_general_registers-write_general_registers}
use uga_prog.Gdb.Dump.{dumped, read_memory_lem}
use uga_prog.Gdb.Escape.{escape, hex, write_memory_binary-read_memory}
use uga_prog.Tests.Machine.{machine}

abbrev pub build : Build
build = record { host_big = false; target_big = false }

abbrev pub session : Core → Gdb
session p = record { arm = p; target_exception = 0; packet = []; sent = []; open_end = true }

-- A memory whose first word is the breakpoint of gdb.
abbrev broken : Memory
broken = record {
  bytes = λ i.
      if i == 0
      then 0xF0
      else if i == 1
      then 0x00
      else if i == 2
      then 0xF0
      else if i == 3
      then 0xE7
      else 0x55;
  taille = 64;
  be = false;
}

abbrev halting : Core
halting = record (machine 40 0x4000_0010) { mem = broken }

broken_word : memory_read_word broken 0 ≡ some 0xE7F0_00F0
unfolding memory_read_word word_loop word_part memory_get_size memory_read_byte
broken_word = refl

is_break : is_breakpoint 0xE7F0_00F0 ≡ true
unfolding is_breakpoint
is_break = refl

cont_returns_example :
    (g' : Gdb) × (cont 8 [] (session halting) ≡ ok (tt, g'))
    × (pc_of g'.arm ≡ 0)
    × (g'.arm.reg.reg 16 ≡ 0x1d3)
    × InUser g'.arm
    × (g'.arm.mem ≡ broken)
    × (g'.sent ≡ [] ++ framed (codes "S05"))
cont_returns_example =
    cont_returns 8 0xE7F0_00F0 [] (session halting) refl (omega arith) refl (omega arith)
      (omega arith) (omega arith) broken_word is_break refl

write_uint32-read_uint32_example :
    read_uint32 build (write_uint32 build 0x1234_5678 ++ codes "zz") ≡ some 0x1234_5678
write_uint32-read_uint32_example =
    write_uint32-read_uint32 build 0x1234_5678 (codes "zz") (omega arith)

machine-fits : (j : ℕ) → register (session (machine 8 0x4000_0010)) j < 2 ^ 32
machine-fits j = ground arith

read_general_registers-write_general_registers_example :
    (text : List ℕ) × (h' : Gdb) × (read_general_registers build []
        (session (machine 8 0x4000_0010))
      ≡ ok (
        tt,
        record (session (machine 8 0x4000_0010)) { packet = framed text; sent = framed text },
      ))
    × (write_general_registers build (text ++ 0 ∷ []) (session halting) ≡ ok (tt, h'))
    × (register h' 5 ≡ 15)
read_general_registers-write_general_registers_example =
    read_general_registers-write_general_registers build [] (0 ∷ [])
      (session (machine 8 0x4000_0010)) (session halting) 5 refl machine-fits refl refl refl
      (omega arith)

asked : scan_pair (codes "1a,2" ++ 0 ∷ []) ≡ some (26, 2)
unfolding scan_pair scan_second scan_x scan_hex skip_space signed_hex scan_prefixed take_digits
    number_of digit_value scan_unsigned
asked = refl

read_memory_lem_example : read_memory (codes "1a,2" ++ 0 ∷ []) (session (machine 8 0x10)) ≡ (
    if leb 2 509 then ok (tt, dumped (session (machine 8 0x10)) 2 26) else stop Stop.out_of_bounds)
read_memory_lem_example =
    read_memory_lem (codes "1a,2" ++ 0 ∷ []) (session (machine 8 0x10)) 2 26 asked (omega arith)
      (omega arith) refl

abbrev is_special : ℕ → Bool
is_special c = ((c == 0x7d) || (c == b'$')) || (c == b'#')

-- The bytes `}` and 1.
abbrev writing : List ℕ
writing = codes "1a,2:" ++ 0x7d ∷ 0x5d ∷ 1 ∷ 0 ∷ []

asked_to_write : scan_pair writing ≡ some (26, 2)
unfolding scan_pair scan_second scan_x scan_hex skip_space signed_hex scan_prefixed take_digits
    number_of digit_value scan_unsigned
asked_to_write = refl

content : after_char b':' writing ≡ some (escape is_special (0x7d ∷ 1 ∷ []) ++ 0 ∷ [])
unfolding after_char
content = refl

write_memory_binary-read_memory_example :
    (g' g'' : Gdb) × (write_memory_binary writing (session (machine 8 0x10)) ≡ ok (tt, g'))
    × (read_memory (codes "1a,2" ++ 0 ∷ []) g' ≡ ok (tt, g''))
    × (g''.sent ≡ ([] ++ framed (codes "OK")) ++ framed (hex (0x7d ∷ 1 ∷ [])))
write_memory_binary-read_memory_example =
    write_memory_binary-read_memory is_special writing (0 ∷ []) (codes "1a,2" ++ 0 ∷ [])
      (session (machine 8 0x10)) 26 (0x7d ∷ 1 ∷ []) refl asked_to_write content asked
      (omega arith, (omega arith, tt)) (omega arith) (omega arith) (omega arith) (omega arith) refl
