-- ===== src/LoadStore/Multiple.antt =====
-- `arm_load_store_multiple`: LDM and STM.
use uga_prog.Base.{
  ℕ, zero, suc, ◌+◌, ◌*◌, bit_and, ◌&&◌, Option, none, some, add32, sub32, ◌==◌, if◌then◌else◌,
}
use uga_prog.Base.Outcome.{Stop, pure, halt, gets, ◌>>=◌, ◌>>◌}
use uga_prog.Util.{get_bit, get_bits}
use uga_prog.Core.{
  Act, arm_read_register, arm_write_register, arm_read_word, arm_write_word, minus_one,
}
use uga_prog.Condition.{cond_verifier, nonzero}
use uga_prog.DataProcessing.Dispatch.{demand}

-- The bits from `i`, over the rounds left.
unfoldable pub count_loop : ℕ → ℕ → ℕ → ℕ → ℕ
count_loop zero i bitfield nb = nb
count_loop (suc left) i bitfield nb =
    count_loop left (i + 1) bitfield (if nonzero (get_bit bitfield i) then nb + 1 else nb)

-- Bits 0 to 30.
unfoldable pub number_of_set_bits_in : ℕ → ℕ
unfolding count_loop
number_of_set_bits_in bitfield = count_loop 31 0 bitfield 0

pub record Range : Type 0 where
  pub start_address : ℕ
  pub end_address : ℕ

-- `if(cond_verifier(p, cond) && W == 1)`
unfoldable pub write_base : ℕ → ℕ → ℕ → ℕ → Act (Unit {0})
write_base cond w rn value = do
  passed ← gets (λ p. cond_verifier p cond)
  if nonzero passed && (w == 1) then arm_write_register rn value else pure tt

unfoldable pub mult_address_calculator : ℕ → ℕ → ℕ → ℕ → ℕ → Act Range
mult_address_calculator type_modes rn cond register_list w =
    let size = number_of_set_bits_in register_list * 4 in
    if type_modes == 1
    then (do
      base ← arm_read_register rn
      write_base cond w rn (add32 base size)
      pure (record { start_address = base; end_address = sub32 (add32 base size) 4 }))
    else if type_modes == 3
    then (do
      base ← arm_read_register rn
      write_base cond w rn (add32 base size)
      pure (record { start_address = add32 base 4; end_address = add32 base size }))
    else if type_modes == 0
    then (do
      base ← arm_read_register rn
      write_base cond w rn (sub32 base size)
      pure (record { start_address = add32 (sub32 base size) 4; end_address = base }))
    else if type_modes == 2
    then (do
      base ← arm_read_register rn
      write_base cond w rn (sub32 base size)
      pure (record { start_address = sub32 base size; end_address = sub32 base 4 }))
    else pure (record { start_address = 0; end_address = 0 })

-- A failed read keeps the variable's value, which before the first read is none.
abbrev pub or_else : Option ℕ → Option ℕ → Option ℕ
or_else none old = old
or_else (some v) _ = some v

pub record Cursor : Type 0 where
  pub address : ℕ
  pub value : Option ℕ

unfoldable pub load_one : ℕ → Cursor → Act Cursor
load_one i c = do
  result ← arm_read_word c.address
  loaded ← demand (or_else result c.value)
  arm_write_register i loaded
  pure (record { address = add32 c.address 4; value = some loaded })

unfoldable pub load_loop : ℕ → ℕ → ℕ → Cursor → Act Cursor
load_loop zero i register_list c = pure c
load_loop (suc left) i register_list c =
    (if nonzero (get_bit register_list i) then load_one i c else pure c) >>= λ c'.
    load_loop left (i + 1) register_list c'

-- The result of `arm_read_word`.
abbrev pub result_of : Option ℕ → ℕ
result_of none = minus_one
result_of (some _) = 0

-- The pc is given the result of the read, not what was read.
unfoldable pub load_pc : ℕ → ℕ → Act (Unit {0})
load_pc ins address =
    if (get_bit ins 22 == 0) && nonzero (get_bit ins 20)
    then (if nonzero (get_bit (get_bits ins 15 0) 15)
        then (do
          result ← arm_read_word address
          arm_write_register 15 (bit_and (result_of result) 0xFFFF_FFFE))
        else pure tt)
    else pure tt

unfoldable pub store_one : ℕ → ℕ → Act ℕ
store_one i address = do
  value ← arm_read_register i
  arm_write_word address value
  pure (add32 address 4)

unfoldable pub store_loop : ℕ → ℕ → ℕ → ℕ → Act ℕ
store_loop zero i register_list address = pure address
store_loop (suc left) i register_list address =
    (if nonzero (get_bit register_list i) then store_one i address else pure address)
    >>= λ address'. store_loop left (i + 1) register_list address'

-- `assert(end_address == address - 4)`
unfoldable pub assert_end : ℕ → ℕ → Act (Unit {0})
assert_end end_address address =
    if end_address == sub32 address 4 then pure tt else halt Stop.assertion_failed

unfoldable pub load_multiple : ℕ → Range → Act (Unit {0})
load_multiple ins range = do
  c ← load_loop 15 0 (get_bits ins 15 0) (record { address = range.start_address; value = none })
  load_pc ins c.address
  assert_end range.end_address (add32 c.address 4)

unfoldable pub store_multiple : ℕ → Range → Act (Unit {0})
store_multiple ins range = do
  address ← store_loop 15 0 (get_bits ins 15 0) range.start_address
  assert_end range.end_address address

unfoldable pub transfer_multiple : ℕ → Act (Unit {0})
transfer_multiple ins = do
  range ←
      mult_address_calculator (get_bits ins 23 22) (get_bits ins 19 16) (get_bits ins 31 28)
        (get_bits ins 15 0) (get_bit ins 21)
  if nonzero (get_bit ins 20) then load_multiple ins range else store_multiple ins range

unfoldable pub arm_load_store_multiple : ℕ → Act ℕ
arm_load_store_multiple ins = do
  passed ← gets (λ p. cond_verifier p (get_bits ins 31 28))
  if nonzero passed then transfer_multiple ins else pure tt
  pure 0
