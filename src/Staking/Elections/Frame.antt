-- ===== src/Staking/Elections/Frame.antt =====
-- What an election and the stakers of an era leave as they are
-- (pallets/energy-generation/src/pallet/impls.rs).
use power_plant.Prelude.{ℕ, ◌≡◌, refl, ◌∙◌, not, List, [], ◌∷◌, map, arith, fold_state, filter}
use power_plant.Slashing.Compute.{Exposure}
use power_plant.Staking.{Config, Storage}
use power_plant.Staking.Roles
use power_plant.Staking.Elections

module _ (C : Config) where
  abbrev pub HasSameEras : Storage C → Storage C → Type 0
  HasSameEras s s' = (s'.eras ≡ s.eras) × (s'.settings ≡ s.settings)

  chill_stash_lem : (stash : ℕ) (s : Storage C) → HasSameEras s (Roles.chill_stash C stash s)
  unfolding Roles.chill_stash Roles.do_remove_validator Roles.do_remove_cooperator
  chill_stash_lem stash s = ground arith

  demote_lem : (acc : ℕ) (s : Storage C) → HasSameEras s (Elections.demote C acc s)
  unfolding Elections.demote
  demote_lem acc s = ground arith

  fold_lem :
      (f : ℕ → Storage C → Storage C)
      → ((a : ℕ) (s : Storage C) → HasSameEras s (f a s))
      → (xs : List ℕ) (s : Storage C) → HasSameEras s (fold_state f xs s)
  unfolding fold_state
  fold_lem f h [] s = (refl, refl)
  fold_lem f h (x ∷ xs) s =
      let one = h x s in let rest = fold_lem f h xs (f x s) in (rest.0 ∙ one.0, rest.1 ∙ one.1)

  pub ellect_validators_lem : (s : Storage C) → HasSameEras s (Elections.ellect_validators C s)
  unfolding Elections.ellect_validators
  ellect_validators_lem s =
      let accounts = map (λ v. v.0) s.validators in
      let legit = filter (λ a. Roles.is_legit_for_validator C a s) accounts in
      let should_chill = filter (λ a. not (Roles.is_legit_for_validator C a s)) accounts in
      let s' = fold_state (Roles.chill_stash C) should_chill s in
      let chilled = fold_lem (Roles.chill_stash C) chill_stash_lem should_chill s in
      let demoted = fold_lem (Elections.demote C) demote_lem legit s' in
      (demoted.0 ∙ chilled.0, demoted.1 ∙ chilled.1)

  -- The planned era, the starts of eras and the forcing.
  abbrev pub HasSamePlan : Storage C → Storage C → Type 0
  HasSamePlan s s' =
      (s'.eras.current_era ≡ s.eras.current_era)
      × (s'.eras.eras_start_session_index ≡ s.eras.eras_start_session_index)
      × (s'.eras.force_era ≡ s.eras.force_era)

  store_all_lem :
      (era total : ℕ) (exposures : List (ℕ × Exposure)) (s : Storage C)
      → HasSamePlan s (fold_state (Elections.store_one C era) exposures (total, s)).1
  unfolding fold_state Elections.store_one
  store_all_lem era total [] s = (refl, refl, refl)
  store_all_lem era total ((stash, exposure) ∷ exposures) s =
      let (total', s') = Elections.store_one C era (stash, exposure) (total, s) in
      let rest = store_all_lem era total' exposures s' in rest

  pub store_stakers_info_lem :
      (exposures : List (ℕ × Exposure)) (era : ℕ) (s : Storage C)
      → HasSamePlan s (Elections.store_stakers_info C exposures era s).1
  unfolding Elections.store_stakers_info
  store_stakers_info_lem exposures era s = store_all_lem era 0 (Elections.elect C exposures s) s
