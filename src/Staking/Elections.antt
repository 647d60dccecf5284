-- ===== src/Staking/Elections.antt =====
-- The election of validators for a new era, and what is stored for it
-- (pallets/energy-generation/src/pallet/impls.rs).
pub mod Frame
use power_plant.Prelude.{
  ℕ, ◌+◌, ◌-◌, max, Bool, true, false, not, ◌&&◌, Option, none, some, List, [], ◌∷◌, map, ltb, leb,
  ◌==◌, if◌then◌else◌, length, take, u128_max, add32, saturating_add, insert, remove, unwrap_or,
  lookup, put_in, member, fold_state, filter, filter_map,
}
use power_plant.Slashing.Compute.{Exposure, IndividualExposure, insert₂}
use power_plant.Reputation.Order.{reputation_ltb}
use power_plant.Staking.{
  Config, Storage, ValidatorPrefs, Eras, emit, stakers_elected, election_failed,
}
use power_plant.Staking.Roles.{
  is_legit_for_validator, is_legit_for_collab, prefs_of, record_of, chill_stash,
}
use power_plant.Staking.Stashes.{ledger_of}

unfoldable pub total_value : ℕ → List IndividualExposure → ℕ
total_value acc [] = acc
total_value acc (x ∷ xs) = total_value (saturating_add u128_max acc x.value) xs

-- The stable `sort_by`, largest value first.
unfoldable pub insert_sorted :
    IndividualExposure → List IndividualExposure → List IndividualExposure
insert_sorted x [] = x ∷ []
insert_sorted x (y ∷ ys) =
    let rest = y ∷ insert_sorted x ys in if leb y.value x.value then x ∷ y ∷ ys else rest

unfoldable pub sort_by_value : List IndividualExposure → List IndividualExposure
sort_by_value [] = []
sort_by_value (x ∷ xs) = insert_sorted x (sort_by_value xs)

unfoldable pub clip : ℕ → Exposure → Exposure
clip most exposure =
    if ltb most (length exposure.others)
    then record exposure { others = take most (sort_by_value exposure.others) }
    else exposure

abbrev pub remove_prefix : {V : Type 0} → ℕ → (ℕ → ℕ → Option V) → ℕ → ℕ → Option V
remove_prefix era m e k = if e == era then none else m e k

unfoldable pub clear_era_information : ℕ → Eras → Eras
clear_era_information era e = record e {
  eras_stakers = remove_prefix era e.eras_stakers;
  eras_stakers_clipped = remove_prefix era e.eras_stakers_clipped;
  eras_validator_prefs = remove_prefix era e.eras_validator_prefs;
  eras_energy_per_stake_currency = remove era e.eras_energy_per_stake_currency;
  eras_total_stake = remove era e.eras_total_stake;
  eras_start_session_index = remove era e.eras_start_session_index;
}

-- The order of the election: invulnerable validators first, then by total stake.
unfoldable pub is_before : List ℕ → ℕ × Exposure → ℕ × Exposure → Bool
is_before invulnerables a b =
    let a_safe = member a.0 invulnerables in
    let b_safe = member b.0 invulnerables in
    if a_safe && not b_safe
    then true
    else if not a_safe && b_safe
    then false
    else leb b.1.total a.1.total

module _ (C : Config) where
  unfoldable pub demote : ℕ → Storage C → Storage C
  demote acc s = if is_legit_for_collab C acc s then s else record s {
    validators = put_in acc (record (prefs_of C acc s) { collaborative = false }) s.validators;
    collaborations = remove acc s.collaborations;
  }

  unfoldable pub ellect_validators : Storage C → Storage C
  ellect_validators s =
      let accounts = map (λ v. v.0) s.validators in
      let legit = filter (λ a. is_legit_for_validator C a s) accounts in
      let should_chill = filter (λ a. not (is_legit_for_validator C a s)) accounts in
      fold_state demote legit (fold_state (chill_stash C) should_chill s)

  -- What a collaborator of the validator exposes.
  unfoldable pub individual_exposure :
      Storage C → ℕ → ValidatorPrefs → ℕ → Option IndividualExposure
  individual_exposure s validator prefs who =
      if reputation_ltb (record_of C who s).reputation prefs.min_coop_reputation
      then none
      else elim (lookup who s.cooperators) [
        | none ↦ none
        | some c ↦ elim (lookup validator c.targets) [
          | none ↦ none
          | some stake ↦
              some (record { who = who; value = C.cooperator_exposure who stake s.others })
        ]
      ]

  unfoldable pub exposure_of : Storage C → ℕ × ValidatorPrefs → Option (ℕ × Exposure)
  exposure_of s (validator, prefs) = elim (ledger_of C validator s) [
    | none ↦ none
    | some l ↦
        let own = C.validator_exposure validator l.active s.others in
        let others =
          filter_map (individual_exposure s validator prefs)
            (unwrap_or (s.collaborations validator) []) in
        let total = saturating_add u128_max own (total_value 0 others) in
        some (validator, record { total = total; own = own; others = others })
  ]

  unfoldable pub ellect_and_collect_exposures : Storage C → List (ℕ × Exposure) × Storage C
  ellect_and_collect_exposures s =
      let s' = ellect_validators s in (filter_map (exposure_of s') s'.validators, s')

  unfoldable pub store_one : ℕ → ℕ × Exposure → ℕ × Storage C → ℕ × Storage C
  store_one era (stash, exposure) (total, s) = (
    saturating_add u128_max total exposure.total,
    record s {
      eras = record s.eras {
        eras_stakers = insert₂ era stash exposure s.eras.eras_stakers;
        eras_stakers_clipped =
            insert₂ era stash (clip C.max_cooperator_rewarded exposure) s.eras.eras_stakers_clipped;
        eras_validator_prefs = insert₂ era stash (prefs_of C stash s) s.eras.eras_validator_prefs;
      };
    },
  )

  unfoldable pub elect : List (ℕ × Exposure) → Storage C → List (ℕ × Exposure)
  elect exposures s =
      let most = max s.settings.validator_count 1 in
      if ltb most (length exposures)
      then C.select_nth_unstable_by most (is_before s.settings.invulnerables) exposures
      else exposures

  unfoldable pub store_stakers_info : List (ℕ × Exposure) → ℕ → Storage C → List ℕ × Storage C
  store_stakers_info exposures new_planned_era s =
      let ordered = elect exposures s in
      let (total_stake, s') = fold_state (store_one new_planned_era) ordered (0, s) in
      (
        map (λ e. e.0) (take (max s.settings.validator_count 1) ordered),
        record s' {
          eras = record s'.eras {
            eras_total_stake = insert new_planned_era total_stake s'.eras.eras_total_stake;
          };
        },
      )

  abbrev next_era : Option ℕ → ℕ
  next_era none = 0
  next_era (some era) = add32 era 1

  abbrev pub clear_old : ℕ → Eras → Eras
  clear_old era e =
      if leb (C.history_depth + 1) era
      then clear_era_information (era - (C.history_depth + 1)) e
      else e

  unfoldable pub trigger_new_era : ℕ → List (ℕ × Exposure) → Storage C → List ℕ × Storage C
  trigger_new_era start_session_index exposures s =
      let new_planned_era = next_era s.eras.current_era in
      let planned = record s.eras {
        current_era = some new_planned_era;
        eras_start_session_index =
            insert new_planned_era start_session_index s.eras.eras_start_session_index;
      } in
      store_stakers_info exposures new_planned_era
        (record s { eras = clear_old new_planned_era planned })

  -- A failed election leaves the era, but the initial one is planned without exposures.
  abbrev plan_initial : ℕ → Eras → Eras
  plan_initial start_session_index e = elim e.current_era [
    | some era ↦ e
    | none ↦ record e {
      current_era = some 0;
      eras_start_session_index = insert 0 start_session_index e.eras_start_session_index;
    }
  ]

  unfoldable pub try_trigger_new_era : ℕ → Storage C → Option (List ℕ) × Storage C
  try_trigger_new_era start_session_index s₀ =
      let (exposures, s) = ellect_and_collect_exposures s₀ in
      if ltb (length exposures) (max s.settings.minimum_validator_count 1)
      then (
        none,
        emit C election_failed (record s { eras = plan_initial start_session_index s.eras }),
      )
      else let (elected, s') =
          trigger_new_era start_session_index exposures (emit C stakers_elected s) in
        (some elected, s')
