-- ===== src/Examples/Reports.antt =====
-- The genesis of the staking pallet, and reports of offences, with the accounts of the other examples.
use power_plant.Prelude.{ℕ, refl, true, none, some, List, [], ◌∷◌, ok, empty, insert, member}
use power_plant.Staking.{Storage, Call, not_forcing}
use power_plant.Staking.Roles.Exclusive.{IsExclusive}
use power_plant.Staking.Bonding.Paired.{HasPairs}
use power_plant.Staking.Genesis.{idle, validator, GenesisConfig, genesis_build}
use power_plant.Staking.Genesis.Sound.{genesis_build-IsSound}
use power_plant.Staking.Reports.{Offence, in_active_era, report_and_chill}
use power_plant.Staking.Reports.Chilled.{IsIdle, report_and_chill_lem}
use power_plant.Examples.Staking.{config, storage, paired, exclusive, with_validator}

abbrev genesis : GenesisConfig
genesis = record {
  validator_count = 2;
  minimum_validator_count = 1;
  invulnerables = [];
  force_era = not_forcing;
  slash_reward_fraction = 0;
  canceled_payout = 0;
  stakers =
      record { stash = 4; controller = 6; balance = 80; status = validator }
      ∷ record { stash = 7; controller = 8; balance = 70; status = idle }
      ∷ [];
  disable_collaboration = true;
  min_commission = 5;
  min_cooperator_bond = 1;
  min_common_validator_bond = 1;
  min_trust_validator_bond = 1;
  max_validator_count = none;
  max_cooperator_count = some 10;
  energy_per_stake_currency = 3;
  block_authoring_reward = 1;
}

genesis_build-IsSound_example :
    HasPairs config (genesis_build config genesis storage).1
    × IsExclusive config 1 (genesis_build config genesis storage).1
genesis_build-IsSound_example = genesis_build-IsSound config genesis 1 storage paired exclusive

abbrev passed_on : List ℕ → Offence → Call config (Unit {0})
passed_on reporters offence s = (ok tt, s)

abbrev offence : Offence
offence = record { session_index = 1000; offenders = 9 ∷ 1 ∷ [] }

abbrev in_era : Storage config
in_era = record with_validator {
  eras = record storage.eras {
    active_era = some (record { index = 5; start = none });
    eras_start_session_index = insert 5 990 empty;
  };
}

report_and_chill_lem_example :
    IsIdle config 1 (report_and_chill config passed_on [] offence in_era).1
unfolding member in_active_era
report_and_chill_lem_example =
    report_and_chill_lem config 1 passed_on [] offence in_era refl refl refl refl
