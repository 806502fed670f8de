-- ===== src/Tests/Machine.antt =====
-- The core and the memories that the runs start from.
use uga_prog.Base.{ℕ, ◌*◌, ◌%◌, ◌<◌, Bool, false, arith, refl, ◌==◌, if◌then◌else◌}
use uga_prog.Constants.{usr}
use uga_prog.Memory.{Memory}
use uga_prog.Memory.Bounds.{IsBytes}
use uga_prog.Core.{Core}

-- Sixty-four bytes that count up.
abbrev pub counting : Bool → Memory
counting big = record { bytes = λ i. i % 256; taille = 64; be = big }

pub counting-fits : (big : Bool) (i : ℕ) → (counting big).bytes i < 256
counting-fits big i = omega arith

pub counting-IsBytes : IsBytes 64 false (counting false)
counting-IsBytes = record { fits = counting-fits false; same_size = refl; same_end = refl }

-- Registers that hold three times their number, but for the pc and the CPSR.
abbrev pub tripled : ℕ → ℕ → ℕ → ℕ
tripled pc cpsr i = if i == 15 then pc else if i == 16 then cpsr else i * 3 % 256

abbrev pub machine : ℕ → ℕ → Core
machine pc cpsr = record {
  cycle_count = 7;
  reg = record { reg = tripled pc cpsr; mode = usr };
  mem = counting false;
}
