-- ===== src/LoadStore/Byte.antt =====
-- A byte stored with its base moved down and written back, and one loaded with its base moved up behind it.
use uga_prog.Base.{
  ℕ, ◌/◌, ◌%◌, ◌^◌, ◌<◌, ◌≡◌, ◌≢◌, ◌∙◌, ap, refl, sym, arith, true, false, u8, add32, sub32, lt→ltb,
  update,
}
use uga_prog.Base.Outcome.{ok, pure, gets}
use uga_prog.Base.Keeps.{bind_ok}
use uga_prog.Util.{get_bit, get_bits}
use uga_prog.Util.Fields.{get_bits_lem, get_bits-lt, get_bit_lem}
use uga_prog.Memory.{memory_get_size, memory_read_byte, memory_write_byte}
use uga_prog.Core.{Core, seen_by, stored, arm_read_byte, arm_write_byte}
use uga_prog.Core.User.{InUser, put_reg, arm_read_register_lem, arm_write_register-user}
use uga_prog.Condition.{cond_verifier, nonzero}
use uga_prog.LoadStore.Address.{
  address_calculator, pre_indexed, post_indexed, plain_offset, write_back,
}
use uga_prog.LoadStore.Single.{arm_load_store, word_or_byte, load, read_rd, write_rd}

-- The fields of an instruction, from its bits 27 to 20.
pub record HasGroup (ins g : ℕ) : Type 0 where
  pub kind : get_bits ins 27 26 ≡ g / 64
  pub group : get_bits ins 27 25 ≡ g / 32
  pub i_bit : get_bit ins 25 ≡ g / 32 % 2
  pub p_bit : get_bit ins 24 ≡ g / 16 % 2
  pub u_bit : get_bit ins 23 ≡ g / 8 % 2
  pub b_bit : get_bit ins 22 ≡ g / 4 % 2
  pub w_bit : get_bit ins 21 ≡ g / 2 % 2
  pub l_bit : get_bit ins 20 ≡ g % 2

pub get_bits-HasGroup : (ins g : ℕ) → get_bits ins 27 20 ≡ g → HasGroup ins g
get_bits-HasGroup ins g e =
    let whole : ins / 2 ^ 20 % 2 ^ 8 ≡ g = sym (get_bits_lem ins 27 20 (omega arith)) ∙ e in
    record {
      kind = get_bits_lem ins 27 26 (omega arith) ∙ omega arith;
      group = get_bits_lem ins 27 25 (omega arith) ∙ omega arith;
      i_bit = get_bit_lem ins 25 ∙ omega arith;
      p_bit = get_bit_lem ins 24 ∙ omega arith;
      u_bit = get_bit_lem ins 23 ∙ omega arith;
      b_bit = get_bit_lem ins 22 ∙ omega arith;
      w_bit = get_bit_lem ins 21 ∙ omega arith;
      l_bit = get_bit_lem ins 20 ∙ omega arith;
    }

-- The registers and the offset that an instruction names.
abbrev pub rn_of : ℕ → ℕ
rn_of ins = get_bits ins 19 16

abbrev pub rd_of : ℕ → ℕ
rd_of ins = get_bits ins 15 12

-- The low eight bits of the offset.
abbrev pub offset_of : ℕ → ℕ
offset_of ins = u8 (get_bits ins 11 0)

abbrev pub Passes : Core → ℕ → Type 0
Passes p ins = nonzero (cond_verifier p (get_bits ins 31 28)) ≡ true

seen_by-general : (i v : ℕ) → i ≢ 15 → seen_by i v ≡ v
unfolding seen_by
seen_by-general i v h = ground arith

-- The core after a push of a byte to address `a`, and after a pop.
abbrev pub store_at : ℕ → ℕ → Core → Core
store_at a v p = record p { mem = record p.mem { bytes = update p.mem.bytes a (u8 v) } }

abbrev pub pushed : ℕ → Core → Core
pushed ins p =
    let a = sub32 (p.reg.reg (rn_of ins)) (offset_of ins) in
    let q = put_reg p (rn_of ins) a in
    store_at a (u8 (seen_by (rd_of ins) (q.reg.reg (rd_of ins)))) q

pre_indexed_down :
    (ins offset : ℕ) (p : Core)
    → InUser p
    → rn_of ins ≢ 15
    → Passes p ins
    → pre_indexed offset (rn_of ins) 0 0 (get_bits ins 31 28) p
      ≡ ok (
        sub32 (p.reg.reg (rn_of ins)) offset,
        put_reg p (rn_of ins) (sub32 (p.reg.reg (rn_of ins)) offset),
      )
unfolding pre_indexed plain_offset write_back pure gets
pre_indexed_down ins offset p user general passed =
    let small = get_bits-lt ins 19 16 in
    bind_ok _ _
      (bind_ok _ _
        (arm_read_register_lem (rn_of ins) p (omega arith)
          ∙ ap (λ t. ok (t, p)) (seen_by-general (rn_of ins) (p.reg.reg (rn_of ins)) general))
        refl)
      (bind_ok _ _
        (bind_ok _ _ refl (rw passed (arm_write_register-user (rn_of ins) _ p user (omega arith))))
        refl)

post_indexed_up :
    (ins offset : ℕ) (p : Core)
    → InUser p
    → rn_of ins ≢ 15
    → Passes p ins
    → post_indexed offset (rn_of ins) 1 0 (get_bits ins 31 28) p
      ≡ ok (p.reg.reg (rn_of ins), put_reg p (rn_of ins) (add32 (p.reg.reg (rn_of ins)) offset))
unfolding post_indexed write_back pure gets
post_indexed_up ins offset p user general passed =
    let small = get_bits-lt ins 19 16 in
    let base =
      arm_read_register_lem (rn_of ins) p (omega arith)
      ∙ ap (λ t. ok (t, p)) (seen_by-general (rn_of ins) (p.reg.reg (rn_of ins)) general) in
    bind_ok _ _ base (
      bind_ok _ _
        (bind_ok _ _ refl (
          rw passed
            (bind_ok _ _ base (arm_write_register-user (rn_of ins) _ p user (omega arith)))))
        refl)

arm_write_byte_lem :
    (a v : ℕ) (p : Core) → a < p.mem.taille → arm_write_byte a v p ≡ ok (0, store_at a v p)
unfolding arm_write_byte stored memory_write_byte memory_get_size
arm_write_byte_lem a v p inside = ground arith

byte_stored :
    (rd a : ℕ) (p : Core)
    → rd < 16
    → a < p.mem.taille
    → word_or_byte false 1 0 rd a p ≡ ok (0, store_at a (u8 (seen_by rd (p.reg.reg rd))) p)
unfolding word_or_byte read_rd
byte_stored rd a p small inside =
    bind_ok _ _ (arm_read_register_lem rd p (omega arith)) (arm_write_byte_lem a _ p inside)

byte_loaded :
    (rd a : ℕ) (p : Core)
    → InUser p
    → rd < 16
    → a < p.mem.taille
    → word_or_byte false 1 1 rd a p ≡ ok (0, put_reg p rd (p.mem.bytes a))
unfolding word_or_byte load write_rd arm_read_byte memory_read_byte gets pure
byte_loaded rd a p user small inside = bind_ok _ _ refl (
    rw (lt→ltb a p.mem.taille inside)
      (bind_ok _ _ refl (bind_ok _ _ (arm_write_register-user rd _ p user (omega arith)) refl)))

-- Bits 27 to 20 of STRB with a pre-indexed base, downwards, and of LDRB with a post-indexed one, upwards.
abbrev pub push_bits : ℕ
push_bits = 0b01010110

abbrev pub pop_bits : ℕ
pop_bits = 0b01001101

pub byte_pushed :
    (ins : ℕ) (p : Core)
    → InUser p
    → get_bits ins 27 20 ≡ push_bits
    → rn_of ins ≢ 15
    → Passes p ins
    → sub32 (p.reg.reg (rn_of ins)) (offset_of ins) < p.mem.taille
    → arm_load_store ins p ≡ ok (0, pushed ins p)
unfolding arm_load_store address_calculator
byte_pushed ins p user bits general passed inside =
    let f = get_bits-HasGroup ins push_bits bits in
    rw (f.kind, f.i_bit, f.p_bit, f.u_bit, f.b_bit, f.w_bit, f.l_bit)
      (bind_ok _ _ (pre_indexed_down ins (offset_of ins) p user general passed)
        (byte_stored (rd_of ins) _ _ (get_bits-lt ins 15 12) inside))

abbrev pub popped : ℕ → Core → Core
popped ins p =
    put_reg (put_reg p (rn_of ins) (add32 (p.reg.reg (rn_of ins)) (offset_of ins))) (rd_of ins)
      (p.mem.bytes (p.reg.reg (rn_of ins)))

pub byte_popped :
    (ins : ℕ) (p : Core)
    → InUser p
    → get_bits ins 27 20 ≡ pop_bits
    → rn_of ins ≢ 15
    → Passes p ins
    → p.reg.reg (rn_of ins) < p.mem.taille
    → arm_load_store ins p ≡ ok (0, popped ins p)
unfolding arm_load_store address_calculator
byte_popped ins p user bits general passed inside =
    let f = get_bits-HasGroup ins pop_bits bits in
    rw (f.kind, f.i_bit, f.p_bit, f.u_bit, f.b_bit, f.w_bit, f.l_bit)
      (bind_ok _ _ (post_indexed_up ins (offset_of ins) p user general passed)
        (byte_loaded (rd_of ins) _ _ user (get_bits-lt ins 15 12) inside))
