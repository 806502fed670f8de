-- ===== src/Soundness/Operations.antt =====
-- The invariant over the sixteen data-processing operations.
use uga_prog.Base.{ℕ, Bool}
use uga_prog.Base.Keeps.{Keeps}
use uga_prog.Core.{Act}
use uga_prog.Core.Sound.{IsSound, core_rules}
use uga_prog.DataProcessing.Flags.{update_flag, update_flags, restore_cpsr, after_write}
use uga_prog.DataProcessing.Operations.{
  logical_flags, sub_flags, rsb_flags, add_flags, adc_flags, sbc_flags, rsc_flags, teq_process,
  tst_process, and_process, eor_process, sub_process, rsb_process, add_process, adc_process,
  sbc_process, rsc_process, orr_process, mov_process, bic_process, mvn_process, cmp_process,
  cmn_process,
}

module _ {size : ℕ} {big : Bool} where
  pub Keeps-update_flag : (a b : ℕ) → Keeps (IsSound size big) (update_flag a b)
  unfolding update_flag
  Keeps-update_flag a b = search core_rules depth 12

  pub Keeps-update_flags : (a b c d : ℕ) → Keeps (IsSound size big) (update_flags a b c d)
  unfolding update_flags
  Keeps-update_flags a b c d = search (core_rules, Keeps-update_flag) depth 12

  pub Keeps-restore_cpsr : Keeps (IsSound size big) restore_cpsr
  unfolding restore_cpsr
  Keeps-restore_cpsr = search core_rules depth 12

  Keeps-after_write :
      (rd s : ℕ) (flags : Act (Unit {0}))
      → Keeps (IsSound size big) flags
      → Keeps (IsSound size big) (after_write rd s flags)
  unfolding after_write
  Keeps-after_write rd s flags k = search (core_rules, Keeps-restore_cpsr) depth 12

  ruleset flag_rules = (core_rules, Keeps-update_flags, Keeps-after_write)

  Keeps-logical_flags : (a b c : ℕ) → Keeps (IsSound size big) (logical_flags a b c)
  unfolding logical_flags
  Keeps-logical_flags a b c = search flag_rules depth 12

  Keeps-sub_flags : (a b c d : ℕ) → Keeps (IsSound size big) (sub_flags a b c d)
  unfolding sub_flags
  Keeps-sub_flags a b c d = search flag_rules depth 12

  Keeps-rsb_flags : (a b c d : ℕ) → Keeps (IsSound size big) (rsb_flags a b c d)
  unfolding rsb_flags
  Keeps-rsb_flags a b c d = search flag_rules depth 12

  Keeps-add_flags : (a b c d : ℕ) → Keeps (IsSound size big) (add_flags a b c d)
  unfolding add_flags
  Keeps-add_flags a b c d = search flag_rules depth 12

  Keeps-adc_flags : (a b c d : ℕ) → Keeps (IsSound size big) (adc_flags a b c d)
  unfolding adc_flags
  Keeps-adc_flags a b c d = search flag_rules depth 12

  Keeps-sbc_flags : (a b c d : ℕ) → Keeps (IsSound size big) (sbc_flags a b c d)
  unfolding sbc_flags
  Keeps-sbc_flags a b c d = search flag_rules depth 12

  Keeps-rsc_flags : (a b c d : ℕ) → Keeps (IsSound size big) (rsc_flags a b c d)
  unfolding rsc_flags
  Keeps-rsc_flags a b c d = search flag_rules depth 12

  ruleset result_rules = (
    flag_rules, Keeps-logical_flags, Keeps-sub_flags, Keeps-rsb_flags, Keeps-add_flags,
    Keeps-adc_flags, Keeps-sbc_flags, Keeps-rsc_flags,
  )

  pub Keeps-teq_process : (a b c d : ℕ) → Keeps (IsSound size big) (teq_process a b c d)
  unfolding teq_process
  Keeps-teq_process a b c d = search result_rules depth 12

  pub Keeps-tst_process : (a b c d : ℕ) → Keeps (IsSound size big) (tst_process a b c d)
  unfolding tst_process
  Keeps-tst_process a b c d = search result_rules depth 12

  pub Keeps-and_process : (a b c d e : ℕ) → Keeps (IsSound size big) (and_process a b c d e)
  unfolding and_process
  Keeps-and_process a b c d e = search result_rules depth 12

  pub Keeps-eor_process : (a b c d e : ℕ) → Keeps (IsSound size big) (eor_process a b c d e)
  unfolding eor_process
  Keeps-eor_process a b c d e = search result_rules depth 12

  pub Keeps-sub_process : (a b c d : ℕ) → Keeps (IsSound size big) (sub_process a b c d)
  unfolding sub_process
  Keeps-sub_process a b c d = search result_rules depth 12

  pub Keeps-rsb_process : (a b c d : ℕ) → Keeps (IsSound size big) (rsb_process a b c d)
  unfolding rsb_process
  Keeps-rsb_process a b c d = search result_rules depth 12

  pub Keeps-add_process : (a b c d : ℕ) → Keeps (IsSound size big) (add_process a b c d)
  unfolding add_process
  Keeps-add_process a b c d = search result_rules depth 12

  pub Keeps-adc_process : (a b c d : ℕ) → Keeps (IsSound size big) (adc_process a b c d)
  unfolding adc_process
  Keeps-adc_process a b c d = search result_rules depth 12

  pub Keeps-sbc_process : (a b c d : ℕ) → Keeps (IsSound size big) (sbc_process a b c d)
  unfolding sbc_process
  Keeps-sbc_process a b c d = search result_rules depth 12

  pub Keeps-rsc_process : (a b c d : ℕ) → Keeps (IsSound size big) (rsc_process a b c d)
  unfolding rsc_process
  Keeps-rsc_process a b c d = search result_rules depth 12

  pub Keeps-orr_process : (a b c d e : ℕ) → Keeps (IsSound size big) (orr_process a b c d e)
  unfolding orr_process
  Keeps-orr_process a b c d e = search result_rules depth 12

  pub Keeps-mov_process : (a b c d : ℕ) → Keeps (IsSound size big) (mov_process a b c d)
  unfolding mov_process
  Keeps-mov_process a b c d = search result_rules depth 12

  pub Keeps-bic_process : (a b c d e : ℕ) → Keeps (IsSound size big) (bic_process a b c d e)
  unfolding bic_process
  Keeps-bic_process a b c d e = search result_rules depth 12

  pub Keeps-mvn_process : (a b c d : ℕ) → Keeps (IsSound size big) (mvn_process a b c d)
  unfolding mvn_process
  Keeps-mvn_process a b c d = search result_rules depth 12

  pub Keeps-cmp_process : (a b : ℕ) → Keeps (IsSound size big) (cmp_process a b)
  unfolding cmp_process
  Keeps-cmp_process a b = search result_rules depth 12

  pub Keeps-cmn_process : (a b : ℕ) → Keeps (IsSound size big) (cmn_process a b)
  unfolding cmn_process
  Keeps-cmn_process a b = search result_rules depth 12

pub ruleset operation_rules = (
  core_rules, Keeps-teq_process, Keeps-tst_process, Keeps-and_process, Keeps-eor_process,
  Keeps-sub_process, Keeps-add_process, Keeps-adc_process, Keeps-sbc_process, Keeps-rsc_process,
  Keeps-orr_process, Keeps-mov_process, Keeps-bic_process, Keeps-mvn_process, Keeps-cmp_process,
  Keeps-cmn_process,
)
