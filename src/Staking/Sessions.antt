-- ===== src/Staking/Sessions.antt =====
-- Sessions and eras: the session manager, the lookup of eras by session, block authors and
-- `on_finalize` (pallets/energy-generation/src/pallet/impls.rs and mod.rs), with `clear_era_metadata`
-- of pallets/energy-generation/src/slashing.rs.
pub mod Lookup
pub mod Planning
use power_plant.Prelude.{
  ℕ, zero, suc, ◌-◌, Bool, true, false, ◌&&◌, Option, none, some, List, [], ◌∷◌, ◌++◌, ltb, leb,
  ◌==◌, if◌then◌else◌, length, u64_max, add32, saturating_add, Result, ok, err, pure, gets, modify,
  StorageMap, insert, is_some, unwrap_or, fold_state, saturating_mul, ◌>>=◌, ◌>>◌,
}
use power_plant.Slashing.Compute.{SlashStorage, Exposure}
use power_plant.Reputation.Pallet
use power_plant.Staking.{
  Config, Storage, Call, Eras, ActiveEraInfo, Forcing, not_forcing, force_new, force_none,
  force_always, emit, era_energy_set, in_reputation,
}
use power_plant.Staking.Admin.{set_force_era}
use power_plant.Staking.Payout.{no_exposure}
use power_plant.Staking.Offences.{apply_unapplied_slashes}
use power_plant.Staking.Elections.{remove_prefix, try_trigger_new_era}

unfoldable pub clear_era_metadata : ℕ → SlashStorage → SlashStorage
clear_era_metadata obsolete_era st = record st {
  validator_slash_in_era = remove_prefix obsolete_era st.validator_slash_in_era;
  cooperator_slash_in_era = remove_prefix obsolete_era st.cooperator_slash_in_era;
}

-- `take_while` and `drain`: the bonded eras before the first kept one, and the others.
unfoldable pub split_eras : ℕ → List (ℕ × ℕ) → List (ℕ × ℕ) × List (ℕ × ℕ)
split_eras first_kept [] = ([], [])
split_eras first_kept ((era, session) ∷ eras) =
    let (pruned, kept) = split_eras first_kept eras in
    if ltb era first_kept then ((era, session) ∷ pruned, kept) else ([], (era, session) ∷ eras)

-- Whether `new_session` goes on to the election.
unfoldable pub is_due : Forcing → Bool → Bool
is_due force_new long_enough = true
is_due force_always long_enough = true
is_due not_forcing long_enough = long_enough
is_due force_none long_enough = false

abbrev is_force_new : Forcing → Bool
is_force_new force_new = true
is_force_new not_forcing = false
is_force_new force_none = false
is_force_new force_always = false

abbrev next_index : Option ActiveEraInfo → ℕ
next_index none = 0
next_index (some info) = add32 info.index 1

-- The loop of `era_for_session`, from the given era down.
unfoldable pub era_down : ℕ → ℕ → StorageMap ℕ → Option ℕ
era_down session_index zero starts = elim (starts 0) [
  | none ↦ none
  | some start ↦ if leb start session_index then some 0 else none
]
era_down session_index (suc era) starts =
    let rest = era_down session_index era starts in
    elim (starts (suc era)) [
      | none ↦ none
      | some start ↦ if leb start session_index then some (suc era) else rest
    ]

unfoldable pub era_for_session : ℕ → Eras → Option ℕ
era_for_session session_index e =
    if leb session_index e.current_planned_session
    then elim e.current_era [
      | none ↦ none
      | some current ↦ era_down session_index current e.eras_start_session_index
    ]
    else none

unfoldable pub session_range_for_era : ℕ → Eras → Option (ℕ × ℕ)
session_range_for_era era_index e =
    let next = saturating_add 4_294_967_295 era_index 1 in
    let planned = saturating_add 4_294_967_295 e.current_planned_session 1 in
    elim (e.eras_start_session_index era_index) [
      | none ↦ none
      | some start ↦ some (start, unwrap_or (e.eras_start_session_index next) planned)
    ]

module _ (C : Config) where
  unfoldable pub store_energy_rate : ℕ → Storage C → Storage C
  store_energy_rate era_index s =
      let energy = unwrap_or (C.era_energy era_index s.others) 0 in
      let staked = unwrap_or (s.eras.eras_total_stake era_index) 0 in
      let energy_rate = unwrap_or (C.checked_rate energy staked) 0 in
      emit C (era_energy_set era_index energy_rate) (record s {
        eras = record s.eras {
          eras_energy_per_stake_currency =
              insert era_index energy_rate s.eras.eras_energy_per_stake_currency;
        };
      })

  unfoldable pub update_reputations : Storage C → Storage C
  update_reputations s = (in_reputation C (Pallet.update_points_for_time C.float) s).1

  -- A new era, after which a forced one is no longer forced.
  abbrev plan_era : ℕ → Storage C → Option (List ℕ) × Storage C
  plan_era session_index s =
      let (elected, s') =
        try_trigger_new_era C session_index (record s { others = C.vip_change_quarter s.others }) in
      (
        elected,
        if is_some elected && is_force_new s'.eras.force_era
            then set_force_era C not_forcing s'
            else s',
      )

  abbrev pub era_length : ℕ → ℕ → Storage C → ℕ
  era_length session_index current_era s =
      session_index - unwrap_or (s.eras.eras_start_session_index current_era) 0

  unfoldable pub new_session : ℕ → Storage C → Option (List ℕ) × Storage C
  new_session session_index s₀ =
      let s = update_reputations s₀ in
      elim s.eras.current_era [
        | none ↦ try_trigger_new_era C session_index s
        | some current_era ↦
            if is_due s.eras.force_era
              (leb C.sessions_per_era (era_length session_index current_era s))
            then plan_era session_index s
            else (none, s)
      ]

  abbrev prune_sessions : List (ℕ × ℕ) → C.State → C.State
  prune_sessions [] others = others
  prune_sessions ((_, first_session) ∷ eras) others = C.prune_historical_up_to first_session others

  -- The bonded eras with the new one, where those that are too old are forgotten.
  unfoldable pub bond_era : ℕ → ℕ → Storage C → Storage C
  bond_era active_era start_session s =
      let bonded = s.eras.bonded_eras ++ (active_era, start_session) ∷ [] in
      let (pruned, kept) = split_eras (active_era - C.bonding_duration) bonded in
      if ltb C.bonding_duration active_era
      then record s {
        eras = record s.eras { bonded_eras = kept };
        slashing = fold_state (λ e. clear_era_metadata e.0) pruned s.slashing;
        others = prune_sessions kept s.others;
      }
      else record s { eras = record s.eras { bonded_eras = bonded } }

  unfoldable pub start_era : ℕ → Call C (Unit {0})
  start_era start_session = do
    active_era ← gets (λ s. next_index s.eras.active_era)
    modify (λ s. record s {
      eras = record s.eras { active_era = some (record { index = active_era; start = none }) };
    })
    modify (bond_era active_era start_session)
    apply_unapplied_slashes C active_era

  abbrev start_if_reached : ℕ → Option ℕ → Call C (Unit {0})
  start_if_reached start_session none = pure tt
  start_if_reached start_session (some next_start) =
      if leb next_start start_session then start_era start_session else pure tt

  abbrev disable_all : SlashStorage → SlashStorage
  disable_all st = record st {
    disabled = record st.disabled {
      session_disabled = st.disabled.session_disabled ++ st.disabled.disabled_validators;
    };
  }

  unfoldable pub start_session : ℕ → Call C (Unit {0})
  start_session session = do
    next_start ← gets (λ s. s.eras.eras_start_session_index (next_index s.eras.active_era))
    start_if_reached session next_start
    modify (λ s. record s { slashing = disable_all s.slashing })
    modify (λ s. record s { others = C.on_new_session session s.others })

  unfoldable pub end_era : ActiveEraInfo → Storage C → Storage C
  end_era active_era s =
      let s' = store_energy_rate active_era.index s in
      record s' {
        slashing = record s'.slashing {
          disabled = record s'.slashing.disabled { disabled_validators = [] };
        };
      }

  abbrev end_if_last : ActiveEraInfo → ℕ → Option ℕ → Storage C → Storage C
  end_if_last active_era session_index none s = s
  end_if_last active_era session_index (some next_start) s =
      if next_start == add32 session_index 1 then end_era active_era s else s

  unfoldable pub end_session : ℕ → Storage C → Storage C
  end_session session_index s = elim s.eras.active_era [
    | none ↦ s
    | some active_era ↦
        end_if_last active_era session_index
          (s.eras.eras_start_session_index (add32 active_era.index 1)) s
  ]

  -- The session manager: an error of `start_session` is only logged, and what was written stays.
  unfoldable pub plan_session : ℕ → Storage C → Option (List ℕ) × Storage C
  plan_session new_index s =
      new_session new_index
        (record s { eras = record s.eras { current_planned_session = new_index } })

  unfoldable pub begin_session : ℕ → Storage C → Storage C
  begin_session start_index s = (start_session start_index s).1

  abbrev with_exposures : Storage C → List ℕ → List (ℕ × Exposure)
  with_exposures s [] = []
  with_exposures s (v ∷ validators) =
      (v, unwrap_or (s.eras.eras_stakers (unwrap_or s.eras.current_era 0) v) no_exposure)
      ∷ with_exposures s validators

  -- The historical session manager.
  unfoldable pub plan_historical_session : ℕ → Storage C → Option (List (ℕ × Exposure)) × Storage C
  plan_historical_session new_index s =
      let (validators, s') = plan_session new_index s in
      (elim validators [ none ↦ none | some vs ↦ some (with_exposures s' vs) ], s')

  unfoldable pub calculate_block_authoring_reward : Storage C → ℕ
  calculate_block_authoring_reward s =
      saturating_mul u64_max s.settings.block_authoring_reward
        (length (C.session_validators s.others))

  abbrev note_failure : ℕ → ℕ → Result Pallet.Error (Unit {0}) × Pallet.Storage → Pallet.Storage
  note_failure author reward (ok t, r) = r
  note_failure author reward (err e, r) = record r {
    events = Pallet.reputation_increase_failed author e reward ∷ r.events;
  }

  unfoldable pub note_author : ℕ → Storage C → Storage C
  note_author author s =
      let reward = calculate_block_authoring_reward s in
      record s {
        reputation =
            note_failure author reward
              (Pallet.do_increase_points C.float author reward s.reputation);
      }

  unfoldable pub on_finalize : Storage C → Storage C
  on_finalize s = elim s.eras.active_era [
    | none ↦ s
    | some info ↦ elim info.start [
      | some start ↦ s
      | none ↦ record s {
        eras = record s.eras {
          active_era = some (record info { start = some (C.now_millis s.others) });
        };
      }
    ]
  ]
