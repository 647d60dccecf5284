-- ===== src/Staking/Genesis.antt =====
-- The genesis of pallets/energy-generation (src/pallet/mod.rs). A failed assertion is a failed call; an
-- account is its own address.
pub mod Sound
use power_plant.Prelude.{
  ℕ, Bool, not, ◌&&◌, Option, none, some, List, leb, pure, gets, modify, ensure, for_each, ◌>>=◌,
  ◌>>◌,
}
use power_plant.Staking.{
  Config, Call, signed, Settings, Forcing, to_controller, bad_state, set_settings,
}
use power_plant.Staking.Roles.{is_legit_for_collab, no_prefs}
use power_plant.Staking.Bonding.{bond}
use power_plant.Staking.Candidacy.{validate, cooperate}

pub data StakerStatus : Type 0 where
  idle validator : StakerStatus
  cooperator : List (ℕ × ℕ) → StakerStatus

pub record Staker : Type 0 where
  pub stash : ℕ
  pub controller : ℕ
  pub balance : ℕ
  pub status : StakerStatus

pub record GenesisConfig : Type 0 where
  pub validator_count : ℕ
  pub minimum_validator_count : ℕ
  pub invulnerables : List ℕ
  pub force_era : Forcing
  pub slash_reward_fraction : ℕ
  pub canceled_payout : ℕ
  pub stakers : List Staker
  pub disable_collaboration : Bool
  pub min_commission : ℕ
  pub min_cooperator_bond : ℕ
  pub min_common_validator_bond : ℕ
  pub min_trust_validator_bond : ℕ
  pub max_validator_count : Option ℕ
  pub max_cooperator_count : Option ℕ
  pub energy_per_stake_currency : ℕ
  pub block_authoring_reward : ℕ

abbrev or_kept : Option ℕ → Option ℕ → Option ℕ
or_kept none kept = kept
or_kept (some x) kept = some x

unfoldable pub genesis_settings : GenesisConfig → Settings → Settings
genesis_settings g t = record t {
  validator_count = g.validator_count;
  minimum_validator_count = g.minimum_validator_count;
  invulnerables = g.invulnerables;
  canceled_payout = g.canceled_payout;
  slash_reward_fraction = g.slash_reward_fraction;
  min_cooperator_bond = g.min_cooperator_bond;
  current_energy_per_stake_currency = some g.energy_per_stake_currency;
  block_authoring_reward = g.block_authoring_reward;
  min_commission = g.min_commission;
  min_common_validator_bond = g.min_common_validator_bond;
  min_trust_validator_bond = g.min_trust_validator_bond;
  max_validators_count = or_kept g.max_validator_count t.max_validators_count;
  max_cooperators_count = or_kept g.max_cooperator_count t.max_cooperators_count;
}

module _ (C : Config) where
  unfoldable pub take_role : GenesisConfig → Staker → Bool → Call C (Unit {0})
  take_role g staker collaborative = elim staker.status [
    | idle ↦ pure tt
    | validator ↦
        validate C (signed staker.controller)
          (record no_prefs { collaborative = collaborative; commission = g.min_commission })
    | cooperator votes ↦ cooperate C (signed staker.controller) votes
  ]

  unfoldable pub insert_staker : GenesisConfig → Staker → Call C (Unit {0})
  insert_staker g staker = do
    enough ← gets (λ s. leb staker.balance (C.free_balance staker.stash s.others))
    ensure enough bad_state
    bond C (signed staker.stash) staker.controller staker.balance to_controller
    legit ← gets (is_legit_for_collab C staker.stash)
    take_role g staker (not g.disable_collaboration && legit)

  -- `BuildGenesisConfig::build`
  unfoldable pub genesis_build : GenesisConfig → Call C (Unit {0})
  genesis_build g = do
    set_settings C (genesis_settings g)
    modify (λ s. record s { eras = record s.eras { force_era = g.force_era } })
    for_each (insert_staker g) g.stakers
