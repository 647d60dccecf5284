-- ===== src/Staking/Offences/Abort.antt =====
-- The deferred slashes of an era when one of them fails
-- (pallets/energy-generation/src/pallet/impls.rs).
use power_plant.Prelude.{ℕ, ◌-◌, ◌≡◌, none, some, List, ◌∷◌, arith, err, remove, for_each}
use power_plant.Slashing.Compute.{UnappliedSlash}
use power_plant.Staking.{Config, Storage, not_controller}
use power_plant.Staking.Offences

module _ (C : Config) where
  -- A slash of a validator that is no longer bonded cannot be applied, and nothing changes.
  unbonded_lem :
      (slash : UnappliedSlash) (slash_era : ℕ) (s : Storage C)
      → s.bonded slash.validator ≡ none
      → Offences.apply_slash C slash slash_era s ≡ (err not_controller, s)
  unfolding Offences.apply_slash Offences.do_slash
  unbonded_lem slash slash_era s h = ground arith

  -- If the first slash deferred to an era is of a validator that is no longer bonded, then the start of the
  -- era applies none of the slashes of the era, whatever they are, and all of them are forgotten.
  pub apply_unapplied_slashes_lem :
      (era : ℕ) (slash : UnappliedSlash) (slashes : List UnappliedSlash) (s : Storage C)
      → s.unapplied_slashes era ≡ some (slash ∷ slashes)
      → s.bonded slash.validator ≡ none
      → Offences.apply_unapplied_slashes C era s
        ≡ (err not_controller, record s { unapplied_slashes = remove era s.unapplied_slashes })
  unfolding Offences.apply_unapplied_slashes for_each
  apply_unapplied_slashes_lem era slash slashes s found h =
      let s' : Storage C = record s { unapplied_slashes = remove era s.unapplied_slashes } in
      let first = unbonded_lem slash (era - C.slash_defer_duration) s' h in ground arith
