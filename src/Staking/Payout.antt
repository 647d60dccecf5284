-- ===== src/Staking/Payout.antt =====
-- `payout_stakers`, the rewards of one validator and its cooperators for one era
-- (pallets/energy-generation/src/pallet/impls.rs).
pub mod Frame
pub mod Once
use power_plant.Prelude.{
  ℕ, ◌-◌, ◌&&◌, Option, none, some, List, [], ◌∷◌, ltb, leb, ◌==◌, if◌then◌else◌, length, add128,
  Result, ok, err, gets, modify, lift, insert, unwrap_or, fold_state, sub128, ◌>>=◌, ◌>>◌,
}
use power_plant.Slashing.Compute.{Exposure, IndividualExposure}
use power_plant.Slashing.Disabling.{insert_missing}
use power_plant.Staking.{
  Error, StakingLedger, Config, Storage, Call, Origin, RewardDestination, to_stash, to_controller,
  to_account, to_none, ActiveEraInfo, emit, ensure_signed, rewarded, payout_started,
  invalid_era_to_reward, not_stash, not_controller, already_claimed, bound_not_met,
}
use power_plant.Staking.Roles.{no_prefs}

abbrev pub no_exposure : Exposure
no_exposure = record { total = 0; own = 0; others = [] }

abbrev pub index_or_zero : Option ActiveEraInfo → ℕ
index_or_zero none = 0
index_or_zero (some info) = info.index

-- `claimed_rewards.retain(…)`
unfoldable pub retain_from : ℕ → List ℕ → List ℕ
retain_from first [] = []
retain_from first (x ∷ xs) =
    let rest = retain_from first xs in if leb first x then x ∷ rest else rest

abbrev pub with_claimed : List ℕ → StakingLedger → StakingLedger
with_claimed claimed l = record l { claimed_rewards = claimed }

module _ (C : Config) where
  abbrev deposit_to : Option ℕ → ℕ → Storage C → Option (ℕ × Storage C)
  deposit_to none amount s = none
  deposit_to (some who) amount s = elim (C.deposit_energy who amount s.others) [
    | none ↦ none
    | some (debt, others) ↦ some (debt, record s { others = others })
  ]

  abbrev account_of : ℕ → RewardDestination → Storage C → Option ℕ
  account_of stash to_stash s = some stash
  account_of stash to_controller s = s.bonded stash
  account_of stash (to_account dest) s = some dest
  account_of stash to_none s = none

  -- A payee that is not set is the controller.
  unfoldable pub make_payout : ℕ → ℕ → Storage C → Option (ℕ × Storage C)
  make_payout stash amount s =
      deposit_to (account_of stash (unwrap_or (s.payee stash) to_controller) s) amount s

  -- A payout, its event, and the debts so far.
  unfoldable pub reward : ℕ → ℕ → ℕ × Storage C → ℕ × Storage C
  reward stash amount (total, s) = elim (make_payout stash amount s) [
    | none ↦ (total, s)
    | some (debt, s') ↦ (C.subsume_debt total debt, emit C (rewarded stash debt) s')
  ]

  unfoldable pub reward_cooperator : ℕ → ℕ → IndividualExposure → ℕ × Storage C → ℕ × Storage C
  reward_cooperator total leftover cooperator =
      reward cooperator.who
        (C.perbill.scale (C.perbill.from_rational cooperator.value total) leftover)

  -- The commission, and what is left to be shared.
  unfoldable pub shares_of : ℕ → ℕ → ℕ → ℕ × ℕ
  shares_of rate commission exposed =
      let payout = C.rate_mul_int rate exposed in
      let cut = C.perbill.scale commission payout in (cut, sub128 payout cut)

  unfoldable pub pay_stakers : ℕ → ℕ → ℕ → ℕ → Exposure → Storage C → Storage C
  pay_stakers era validator_stash stash rate exposure s =
      let prefs = unwrap_or (s.eras.eras_validator_prefs era validator_stash) no_prefs in
      let (cut, leftover) = shares_of rate prefs.commission exposure.total in
      let part = C.perbill.scale (C.perbill.from_rational exposure.own exposure.total) leftover in
      let paid = reward stash (add128 part cut) (0, emit C (payout_started era stash) s) in
      let (debt, s') =
        fold_state (reward_cooperator exposure.total leftover) exposure.others paid in
      record s' { others = C.on_reward debt s'.others }

  -- The ledger of the validator with the era claimed, where claims before the first era are dropped.
  unfoldable pub claim_in : ℕ → ℕ → StakingLedger → Result Error StakingLedger
  claim_in first era l =
      let retained = retain_from first l.claimed_rewards in
      elim (insert_missing era retained) [
        | none ↦ err already_claimed
        | some claimed ↦
            if ltb (length retained) C.history_depth
            then ok (with_claimed claimed l)
            else err bound_not_met
      ]

  -- The controller of a stash, its ledger with the era claimed, and the rate of the era.
  abbrev pub claimed_by : ℕ → ℕ → Option ℕ → ℕ → Storage C → Result Error (ℕ × StakingLedger × ℕ)
  claimed_by first era none rate s = err not_stash
  claimed_by first era (some controller) rate s = elim (s.ledger controller) [
    | none ↦ err not_controller
    | some l ↦ elim (claim_in first era l) [ err e ↦ err e | ok l' ↦ ok (controller, l', rate) ]
  ]

  -- The checks of `do_payout_stakers`, in their order.
  unfoldable pub check_payout : ℕ → ℕ → Storage C → Result Error (ℕ × StakingLedger × ℕ)
  check_payout validator_stash era s =
      if era == index_or_zero s.eras.active_era
      then err invalid_era_to_reward
      else elim s.eras.current_era [
        | none ↦ err invalid_era_to_reward
        | some current_era ↦
            let first = current_era - C.history_depth in
            if leb era current_era && leb first era
            then elim (s.eras.eras_energy_per_stake_currency era) [
              | none ↦ err invalid_era_to_reward
              | some rate ↦ claimed_by first era (s.bonded validator_stash) rate s
            ]
            else err invalid_era_to_reward
      ]

  unfoldable pub do_payout_stakers : ℕ → ℕ → Call C (Unit {0})
  do_payout_stakers validator_stash era = do
    checked ← gets (check_payout validator_stash era)
    (controller, l, rate) ← lift checked
    exposure ← gets (λ s. unwrap_or (s.eras.eras_stakers_clipped era l.stash) no_exposure)
    modify (λ s. record s { ledger = insert controller l s.ledger })
    modify (pay_stakers era validator_stash l.stash rate exposure)

  unfoldable pub payout_stakers : Origin → ℕ → ℕ → Call C (Unit {0})
  payout_stakers origin validator_stash era = do
    caller ← ensure_signed C origin
    do_payout_stakers validator_stash era
