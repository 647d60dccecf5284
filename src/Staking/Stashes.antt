-- ===== src/Staking/Stashes.antt =====
-- Ledgers in storage: writing one with its lock, withdrawing what is unlocked, and removing a stash
-- (pallets/energy-generation/src/pallet/impls.rs).
pub mod Paired
use power_plant.Prelude.{
  ℕ, ◌-◌, true, false, ◌&&◌, Option, none, some, ltb, if◌then◌else◌, ◌>>=◌, ◌>>◌, pure, gets,
  modify, ok_or, insert, remove, is_empty,
}
use power_plant.Slashing.Inspect.{clear_stash_metadata}
use power_plant.Ledger.{StakingLedger, consolidate_unlocked}
use power_plant.Staking.{
  Config, Storage, Call, amount_withdrawn, in_spans, on_others, deposit_event, not_controller,
  not_stash,
}
use power_plant.Staking.Roles.{update_active_stake, do_remove_validator, do_remove_cooperator}

abbrev pub consolidate_at : Option ℕ → StakingLedger → StakingLedger
consolidate_at none l = l
consolidate_at (some era) l = consolidate_unlocked era l

module _ (C : Config) where
  -- The ledger of the controller of a stash.
  unfoldable pub ledger_of : ℕ → Storage C → Option StakingLedger
  ledger_of stash s = elim (s.bonded stash) [ none ↦ none | some c ↦ s.ledger c ]

  unfoldable pub slashable_balance_of : ℕ → Storage C → ℕ
  slashable_balance_of stash s = elim (ledger_of stash s) [ none ↦ 0 | some l ↦ l.active ]

  unfoldable pub update_ledger : ℕ → StakingLedger → Storage C → Storage C
  update_ledger controller l s = update_active_stake C controller (record s {
    ledger = insert controller l s.ledger;
    others = C.set_lock l.stash l.total s.others;
  })

  -- What `kill_stash` removes besides the metadata of slashes.
  unfoldable pub forget_stash : ℕ → ℕ → Storage C → Storage C
  forget_stash stash controller s =
      let s₁ = record s {
        bonded = remove stash s.bonded;
        ledger = remove controller s.ledger;
        payee = remove stash s.payee;
      } in
      (do_remove_cooperator C stash (do_remove_validator C stash s₁).1).1

  unfoldable pub kill_stash : ℕ → ℕ → Call C (Unit {0})
  kill_stash stash num_slashing_spans = do
    found ← gets (λ s. s.bonded stash)
    controller ← ok_or found not_stash
    in_spans C (clear_stash_metadata stash num_slashing_spans)
    modify (forget_stash stash controller)
    on_others C (C.dec_consumers stash)

  unfoldable pub withdraw_to : ℕ → ℕ → StakingLedger → Call C (Unit {0})
  withdraw_to controller num_slashing_spans l =
      elim (is_empty l.unlocking && ltb l.active C.minimum_balance) [
        | true ↦ (do kill_stash l.stash num_slashing_spans; on_others C (C.remove_lock l.stash))
        | false ↦ modify (update_ledger controller l)
      ]

  -- The weight it answers is left out.
  unfoldable pub do_withdraw_unbonded : ℕ → ℕ → Call C (Unit {0})
  do_withdraw_unbonded controller num_slashing_spans = do
    found ← gets (λ s. s.ledger controller)
    old ← ok_or found not_controller
    current_era ← gets (λ s. s.eras.current_era)
    let l = consolidate_at current_era old
    withdraw_to controller num_slashing_spans l
    (if ltb l.total old.total
        then deposit_event C (amount_withdrawn old.stash (old.total - l.total))
        else pure tt)
