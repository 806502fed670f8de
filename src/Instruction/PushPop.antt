-- ===== src/Instruction/PushPop.antt =====
-- A byte store that writes its base back, and a byte load that undoes it: the condition, the decoding,
-- the addressing mode, the memory and the registers together.
use uga_prog.Base.{ℕ, ◌≡◌, ◌≢◌}
use uga_prog.Util.{get_bits}
use uga_prog.Core.{Core}
use uga_prog.LoadStore.Byte.{rn_of, rd_of, offset_of, Passes, push_bits, pop_bits}

-- A push of a byte and a pop, as instructions that name the same base and the same offset, and whose
-- conditions hold.
pub record IsPair (p : Core) (push pop : ℕ) : Type 0 where
  pub pushes : get_bits push 27 20 ≡ push_bits
  pub pops : get_bits pop 27 20 ≡ pop_bits
  pub same_base : rn_of pop ≡ rn_of push
  pub same_offset : offset_of pop ≡ offset_of push
  pub general : rn_of push ≢ 15
  pub apart : rd_of push ≢ rn_of push
  pub apart_again : rd_of pop ≢ rn_of push
  pub push_passes : Passes p push
  pub pop_passes : Passes p pop
