-- ===== src/Staking/Sessions/Planning.antt =====
-- When a session plans an era (pallets/energy-generation/src/pallet/impls.rs).
use power_plant.Prelude.{
  ℕ, suc, ◌<◌, ◌≡◌, ap, ◌∙◌, max, Bool, true, some, List, ◌∷◌, arith, leb, length, add32,
  add32-exact, insert, is_some,
}
use power_plant.Slashing.Compute.{Exposure}
use power_plant.Staking.{
  Config, Storage, Forcing, not_forcing, force_new, force_none, force_always, stakers_elected,
}
use power_plant.Staking.Admin.{set_force_era}
use power_plant.Staking.Elections
use power_plant.Staking.Elections.Frame.{ellect_validators_lem, store_stakers_info_lem}
use power_plant.Staking.Sessions

abbrev pub after_era : Forcing → Forcing
after_era force_new = not_forcing
after_era not_forcing = not_forcing
after_era force_none = force_none
after_era force_always = force_always

module _ (C : Config) where
  -- The state in which the election of a session is held, and whether it finds enough validators.
  abbrev pub before_election : Storage C → Storage C
  before_election s =
      let s' = Sessions.update_reputations C s in
      record s' { others = C.vip_change_quarter s'.others }

  abbrev pub has_candidates : Storage C → Bool
  has_candidates s =
      leb (max s.settings.minimum_validator_count 1)
        (length (Elections.ellect_and_collect_exposures C s).0)

  trigger_lem :
      (session current : ℕ) (exposures : List (ℕ × Exposure)) (s : Storage C)
      → s.eras.current_era ≡ some current
      → current < 4_294_967_295
      → let s' = (Elections.trigger_new_era C session exposures s).1 in
        (s'.eras.current_era ≡ some (suc current))
        × (s'.eras.eras_start_session_index (suc current) ≡ some session)
        × (s'.eras.force_era ≡ s.eras.force_era)
  unfolding Elections.trigger_new_era Elections.clear_era_information
  trigger_lem session current exposures s e lt =
      let next = add32-exact current 1 (omega arith) in
      let planned = record s.eras {
        current_era = some (add32 current 1);
        eras_start_session_index = insert (add32 current 1) session s.eras.eras_start_session_index;
      } in
      let s₁ : Storage C = record s { eras = Elections.clear_old C (add32 current 1) planned } in
      let stored = store_stakers_info_lem C exposures (add32 current 1) s₁ in ground arith

  try_trigger_lem :
      (session current : ℕ) (s : Storage C)
      → s.eras.current_era ≡ some current
      → current < 4_294_967_295
      → has_candidates s ≡ true
      → let (elected, s') = Elections.try_trigger_new_era C session s in
        (is_some elected ≡ true)
        × (s'.eras.current_era ≡ some (suc current))
        × (s'.eras.eras_start_session_index (suc current) ≡ some session)
        × (s'.eras.force_era ≡ s.eras.force_era)
  unfolding Elections.try_trigger_new_era Elections.ellect_and_collect_exposures
  try_trigger_lem session current s e lt h =
      let s₁ = Elections.ellect_validators C s in
      let kept = ellect_validators_lem C s in
      let exposures = (Elections.ellect_and_collect_exposures C s).0 in
      let s₂ : Storage C = record s₁ { events = stakers_elected ∷ s₁.events } in
      let triggered =
        trigger_lem session current exposures s₂ (ap (λ x. x.current_era) kept.0 ∙ e) lt in
      ground arith

  update_lem :
      (s : Storage C)
      → let s' = Sessions.update_reputations C s in (s'.eras ≡ s.eras) × (s'.settings ≡ s.settings)
  unfolding Sessions.update_reputations
  update_lem s = ground arith

  -- In a chain with a current era, before the last number of its type: if forcing or the length of the era makes
  -- a new era due, and the election finds enough validators, then the session plans the next era, which starts
  -- with this session, and an era that was forced once is no longer forced.
  pub new_session_plans :
      (session current : ℕ) (s : Storage C)
      → s.eras.current_era ≡ some current
      → current < 4_294_967_295
      → Sessions.is_due s.eras.force_era
          (leb C.sessions_per_era (Sessions.era_length C session current s))
        ≡ true
      → has_candidates (before_election s) ≡ true
      → let (elected, s') = Sessions.new_session C session s in
        (is_some elected ≡ true)
        × (s'.eras.current_era ≡ some (suc current))
        × (s'.eras.eras_start_session_index (suc current) ≡ some session)
        × (s'.eras.force_era ≡ after_era s.eras.force_era)
  unfolding Sessions.new_session set_force_era
  new_session_plans session current s e lt due enough =
      let updated = update_lem s in
      let s₁ = before_election s in
      let e₁ : s₁.eras.current_era ≡ some current = ap (λ x. x.current_era) updated.0 ∙ e in
      let triggered = try_trigger_lem session current s₁ e₁ lt enough in ground arith
