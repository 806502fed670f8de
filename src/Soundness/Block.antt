-- ===== src/Soundness/Block.antt =====
-- The invariant over LDM and STM.
use uga_prog.Base.{ℕ, zero, suc, ◌+◌, Bool}
use uga_prog.Base.Keeps.{Keeps, keeps_rules, Keeps-bind, Keeps-pure}
use uga_prog.Core.Sound.{IsSound, core_rules}
use uga_prog.Soundness.Dispatch.{Keeps-demand}
use uga_prog.LoadStore.Multiple.{
  write_base, mult_address_calculator, Range, Cursor, load_one, load_loop, load_pc, store_one,
  store_loop, assert_end, load_multiple, store_multiple, transfer_multiple, arm_load_store_multiple,
}

module _ {size : ℕ} {big : Bool} where
  pub Keeps-write_base : (a b c d : ℕ) → Keeps (IsSound size big) (write_base a b c d)
  unfolding write_base
  Keeps-write_base a b c d = search core_rules depth 12

  pub Keeps-mult_address_calculator :
      (a b c d e : ℕ) → Keeps (IsSound size big) (mult_address_calculator a b c d e)
  unfolding mult_address_calculator
  Keeps-mult_address_calculator a b c d e = search (core_rules, Keeps-write_base) depth 12

  Keeps-load_one : (i : ℕ) (c : Cursor) → Keeps (IsSound size big) (load_one i c)
  unfolding load_one
  Keeps-load_one i c = search (core_rules, Keeps-demand) depth 12

  Keeps-load_loop :
      (left i list : ℕ) (c : Cursor) → Keeps (IsSound size big) (load_loop left i list c)
  unfolding load_loop
  Keeps-load_loop zero i list c = Keeps-pure c
  Keeps-load_loop (suc left) i list c =
      Keeps-bind _ _ (search (keeps_rules, Keeps-load_one))
        (λ c'. Keeps-load_loop left (i + 1) list c')

  pub Keeps-load_pc : (a b : ℕ) → Keeps (IsSound size big) (load_pc a b)
  unfolding load_pc
  Keeps-load_pc a b = search core_rules depth 12

  pub Keeps-store_one : (a b : ℕ) → Keeps (IsSound size big) (store_one a b)
  unfolding store_one
  Keeps-store_one a b = search core_rules depth 12

  Keeps-store_loop : (left i list a : ℕ) → Keeps (IsSound size big) (store_loop left i list a)
  unfolding store_loop
  Keeps-store_loop zero i list a = Keeps-pure a
  Keeps-store_loop (suc left) i list a =
      Keeps-bind _ _ (search (keeps_rules, Keeps-store_one))
        (λ a'. Keeps-store_loop left (i + 1) list a')

  pub Keeps-assert_end : (a b : ℕ) → Keeps (IsSound size big) (assert_end a b)
  unfolding assert_end
  Keeps-assert_end a b = search core_rules depth 12

  Keeps-load_multiple :
      (ins : ℕ) (range : Range) → Keeps (IsSound size big) (load_multiple ins range)
  unfolding load_multiple
  Keeps-load_multiple ins range =
      search (keeps_rules, Keeps-load_loop, Keeps-load_pc, Keeps-assert_end) depth 12

  Keeps-store_multiple :
      (ins : ℕ) (range : Range) → Keeps (IsSound size big) (store_multiple ins range)
  unfolding store_multiple
  Keeps-store_multiple ins range = search (keeps_rules, Keeps-store_loop, Keeps-assert_end) depth 12

  pub Keeps-transfer_multiple : (a : ℕ) → Keeps (IsSound size big) (transfer_multiple a)
  unfolding transfer_multiple
  Keeps-transfer_multiple a =
      search (keeps_rules, Keeps-mult_address_calculator, Keeps-load_multiple, Keeps-store_multiple)
        depth 12

  pub Keeps-arm_load_store_multiple : (a : ℕ) → Keeps (IsSound size big) (arm_load_store_multiple a)
  unfolding arm_load_store_multiple
  Keeps-arm_load_store_multiple a = search (keeps_rules, Keeps-transfer_multiple) depth 12
