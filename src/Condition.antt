-- ===== src/Condition.antt =====
-- The flags of arm_simulator-1.4/cond_shift_calculator.c and the condition of an instruction.
use uga_prog.Base.{ℕ, Bool, true, false, ◌&&◌, ◌||◌, not, ◌==◌, if◌then◌else◌}
use uga_prog.Constants.{n_bit, z_bit, c_bit, v_bit}
use uga_prog.Util.{get_bit}
use uga_prog.Core.{Core, arm_read_cpsr}
pub mod Laws

unfoldable pub get_n_flag : Core → ℕ
get_n_flag p = get_bit (arm_read_cpsr p) n_bit

unfoldable pub get_z_flag : Core → ℕ
get_z_flag p = get_bit (arm_read_cpsr p) z_bit

unfoldable pub get_c_flag : Core → ℕ
get_c_flag p = get_bit (arm_read_cpsr p) c_bit

unfoldable pub get_v_flag : Core → ℕ
get_v_flag p = get_bit (arm_read_cpsr p) v_bit

-- A C condition, and the int that a C test gives.
abbrev pub nonzero : ℕ → Bool
nonzero n = not (n == 0)

abbrev pub to_int : Bool → ℕ
to_int true = 1
to_int false = 0

unfoldable pub cond_verifier : Core → ℕ → ℕ
cond_verifier p cond =
    if cond == 0x0
    then get_z_flag p
    else if cond == 0x1
    then to_int (not (nonzero (get_z_flag p)))
    else if cond == 0x2
    then get_c_flag p
    else if cond == 0x3
    then to_int (not (nonzero (get_c_flag p)))
    else if cond == 0x4
    then get_n_flag p
    else if cond == 0x5
    then to_int (not (nonzero (get_n_flag p)))
    else if cond == 0x6
    then get_v_flag p
    else if cond == 0x7
    then to_int (not (nonzero (get_v_flag p)))
    else if cond == 0x8
    then to_int (nonzero (get_c_flag p) && nonzero (get_z_flag p))
    else if cond == 0x9
    then to_int (not (nonzero (get_c_flag p)) && nonzero (get_z_flag p))
    else if cond == 0xA
    then to_int (get_n_flag p == get_v_flag p)
    else if cond == 0xB
    then to_int (not (get_n_flag p == get_v_flag p))
    else if cond == 0xC
    then to_int ((get_z_flag p == 0) && (get_n_flag p == get_v_flag p))
    else if cond == 0xD
    then to_int ((get_z_flag p == 1) || not (get_n_flag p == get_v_flag p))
    else if cond == 0xE
    then 1
    else if cond == 0xF
    then 0xF
    else 1
