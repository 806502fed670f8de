-- ===== src/Condition/Laws.antt =====
-- The condition field against the table of the ARM manual.
use uga_prog.Base.{
  ℕ, ◌<◌, ◌≡◌, AllBelow, AllBelow-at, Bool, true, ◌&&◌, ◌||◌, not, ◌/◌, ◌%◌, arith, ◌==◌,
  if◌then◌else◌,
}
use mathlib.Core.Bool.{xor}
use uga_prog.Util.Fields.{get_bit-lt_two}
use uga_prog.Core.{Core}
use uga_prog.Condition.{get_n_flag, get_z_flag, get_c_flag, get_v_flag, cond_verifier, nonzero}

-- The flags as truth values.
pub record Flags : Type 0 where
  pub n : Bool
  pub z : Bool
  pub c : Bool
  pub v : Bool

pub flags : Core → Flags
flags p = record {
  n = nonzero (get_n_flag p);
  z = nonzero (get_z_flag p);
  c = nonzero (get_c_flag p);
  v = nonzero (get_v_flag p);
}

-- When the manual executes an instruction of an even condition: EQ, CS, MI, VS, HI, GE, GT, AL.
even_condition : ℕ → Flags → Bool
even_condition pair f =
    if pair == 0
    then f.z
    else if pair == 1
    then f.c
    else if pair == 2
    then f.n
    else if pair == 3
    then f.v
    else if pair == 4
    then f.c && not f.z
    else if pair == 5
    then not (xor f.n f.v)
    else if pair == 6
    then not f.z && not (xor f.n f.v)
    else true

-- An odd condition is the opposite of the even one before it.
pub manual_condition : ℕ → Flags → Bool
manual_condition cond f = xor (cond % 2 == 1) (even_condition (cond / 2) f)

-- Where the code gives the opposite: HI with C set, and LS with C and Z alike.
pub departs : ℕ → Flags → Bool
unfolding xor
departs cond f = ((cond == 8) && f.c) || ((cond == 9) && not (xor f.c f.z))

flag_lt_two :
    (p : Core) → (get_n_flag p < 2) × (get_z_flag p < 2) × (get_c_flag p < 2) × (get_v_flag p < 2)
unfolding get_n_flag get_z_flag get_c_flag get_v_flag
flag_lt_two p = (get_bit-lt_two _ _, get_bit-lt_two _ _, get_bit-lt_two _ _, get_bit-lt_two _ _)

abbrev Agrees : Core → ℕ → Type 0
Agrees p cond =
    nonzero (cond_verifier p cond) ≡ xor (manual_condition cond (flags p)) (departs cond (flags p))

cond_table : (p : Core) → AllBelow 15 (Agrees p)
unfolding cond_verifier manual_condition even_condition flags departs
cond_table p = (
  (
    (
      (
        (
          (
            (
              (
                (
                  (
                    (
                      (
                        (
                          ((tt, ground (arith, flag_lt_two p)), ground (arith, flag_lt_two p)),
                          ground (arith, flag_lt_two p),
                        ),
                        ground (arith, flag_lt_two p),
                      ),
                      ground (arith, flag_lt_two p),
                    ),
                    ground (arith, flag_lt_two p),
                  ),
                  ground (arith, flag_lt_two p),
                ),
                ground (arith, flag_lt_two p),
              ),
              ground (arith, flag_lt_two p),
            ),
            ground (arith, flag_lt_two p),
          ),
          ground (arith, flag_lt_two p),
        ),
        ground (arith, flag_lt_two p),
      ),
      ground (arith, flag_lt_two p),
    ),
    ground (arith, flag_lt_two p),
  ),
  ground (arith, flag_lt_two p),
)

-- For every condition below 15, `cond_verifier` passes an instruction as the manual does, but for HI
-- with C set and for LS with C and Z alike, where it does the opposite.
pub cond_verifier_manual :
    (p : Core) (cond : ℕ)
    → cond < 15
    → nonzero (cond_verifier p cond)
      ≡ xor (manual_condition cond (flags p)) (departs cond (flags p))
cond_verifier_manual p cond h = AllBelow-at 15 (Agrees p) (cond_table p) cond h
