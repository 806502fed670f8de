-- ===== src/Tests/Units.antt =====
-- Runs of single operations.
use uga_prog.Base.{
  ◌/◌, leb, ◌&&◌, ◌||◌, ℕ, ◌+◌, ◌*◌, ◌-◌, ◌%◌, ◌^◌, ◌≡◌, ◌↔◌, refl, arith, true, false, none, some,
  ltb, u32, min, if◌then◌else◌,
}
use mathlib.Core.Bool.{xor}
use uga_prog.Base.Outcome.{ok}
use uga_prog.Util.{set_bits, get_bit, asr}
use uga_prog.Memory.Halves.{memory_read_half_start}
use uga_prog.Util.Set.{get_bit-set_bits}
use uga_prog.Util.Shifts.{asr_bits}
use uga_prog.Memory.{memory_read_half, Memory, memory_read_word, memory_write_word}
use uga_prog.Memory.Stored.{memory_write_word_lem}
use uga_prog.Memory.Anywhere.{memory_read_word_lem, left_from, word_at_start}
use uga_prog.Memory.RoundTrip.{memory_write_word-memory_read_word, NoCarry}
use uga_prog.Registers.{Registers, read_register, write_register}
use uga_prog.Registers.Sharing.{has_register, are_one, banked, write_register-shared}
use uga_prog.Condition.{cond_verifier, nonzero}
use uga_prog.Condition.Laws.{cond_verifier_manual, manual_condition, departs, flags}
use uga_prog.Tests.Machine.{counting, counting-fits, machine, tripled}

asr_bits_example :
    (w : ℕ) × (asr 0x8000_0000 4 ≡ ok w) × (get_bit w 30 ≡ get_bit 0x8000_0000 (min (30 + 4) 31))
asr_bits_example = asr_bits 0x8000_0000 4 30 (omega arith) (omega arith) (omega arith) (omega arith)

memory_read_half_start_example :
    memory_read_half (counting false) 9
    ≡ some (if false then 0 % 256 * 2 ^ 8 + 1 % 256 else 1 % 256 * 2 ^ 8 + 0 % 256)
memory_read_half_start_example =
    memory_read_half_start (counting false) 9 (omega arith) (counting-fits false) (omega arith)

memory_read_word_lem_example : memory_read_word (counting true) 2 ≡ (
    if ltb 2 64
    then some (if ltb 2 4 then left_from 2 true (word_at_start (counting true)) else 0)
    else none)
memory_read_word_lem_example =
    memory_read_word_lem (counting true) 2 (omega arith) (counting-fits true)

memory_write_word-memory_read_word_example :
    (mem' : Memory) × (memory_write_word (counting false) 0 0x00FE_01FF ≡ some mem')
    × ((memory_read_word mem' 0 ≡ some 0x00FE_01FF) ↔ NoCarry 0x00FE_01FF)
memory_write_word-memory_read_word_example =
    memory_write_word-memory_read_word (counting false) 0x00FE_01FF (omega arith)
      (counting-fits false) (omega arith)

-- Register 13 of supervisor mode.
abbrev supervisor : Registers
supervisor = record { reg = tripled 0 0; mode = 0x13 }

supervisor_has : has_register supervisor.mode 13 ≡ true
unfolding has_register
supervisor_has = refl

interrupt_has : has_register 0x12 13 ≡ true
unfolding has_register
interrupt_has = refl

-- What IRQ finds in its r13, and what a read of 13 gives.
write_register-shared_example :
    (r' : Registers) × (write_register supervisor 13 42 ≡ ok r')
    × (banked r' 0x12 13
        ≡ (if are_one 0x13 13 0x12 13 then ok (u32 42) else banked supervisor 0x12 13))
    × (read_register r' 13
        ≡ (if are_one 0x13 13 0x10 13 then ok (u32 42) else read_register supervisor 13))
write_register-shared_example =
    write_register-shared supervisor 13 0x12 13 13 42 supervisor_has interrupt_has (omega arith)

-- HI with C set and Z clear.
cond_verifier_manual_example :
    nonzero (cond_verifier (machine 0 0x2000_0010) 8)
    ≡ xor
        (manual_condition 8 (flags (machine 0 0x2000_0010)))
        (departs 8 (flags (machine 0 0x2000_0010)))
cond_verifier_manual_example = cond_verifier_manual (machine 0 0x2000_0010) 8 (omega arith)

get_bit-set_bits_example :
    get_bit (set_bits 0xFFFF 11 4 0x5A) 5
    ≡ (if ltb 5 4 || ltb 11 5 then get_bit 0xFFFF 5 else get_bit 0x5A (5 - 4))
get_bit-set_bits_example =
    get_bit-set_bits 0xFFFF 11 4 0x5A 5 (omega arith) (omega arith) (omega arith) (omega arith)

memory_write_word_lem_example :
    (mem' : Memory) × (memory_write_word (counting false) 2 0x0102_03FF ≡ some mem')
    × (mem'.taille ≡ 64)
    × ((j : ℕ)
        → mem'.bytes j ≡ (
            if leb 2 j && ltb j 4
            then (0x0102_03FF + j) / 2 ^ (8 * j) % 256
            else (counting false).bytes j))
memory_write_word_lem_example =
    memory_write_word_lem (counting false) 2 0x0102_03FF (omega arith) (omega arith) (omega arith)
