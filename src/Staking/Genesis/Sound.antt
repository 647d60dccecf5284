-- ===== src/Staking/Genesis/Sound.antt =====
-- The invariants of the calls hold from the genesis on (pallets/energy-generation/src/pallet/mod.rs).
use power_plant.Prelude.{
  ℕ, Bool, true, false, not, ◌&&◌, List, [], ◌∷◌, leb, Result, ok, err, ◌>>=◌, ◌>>◌, gets, ensure,
  for_each,
}
use power_plant.Staking.{Config, Storage, Call, Error, Origin, signed, to_controller, bad_state}
use power_plant.Staking.Roles.{no_prefs, is_legit_for_collab}
use power_plant.Staking.Roles.Exclusive.{IsExclusive}
use power_plant.Staking.Bonding.{bond}
use power_plant.Staking.Bonding.Paired.{HasPairs}
use power_plant.Staking.Dispatch
use power_plant.Staking.Dispatch.Paired as OfPairs
use power_plant.Staking.Dispatch.Exclusive as OfRoles
use power_plant.Staking.Genesis.{
  StakerStatus, idle, validator, cooperator, Staker, GenesisConfig, take_role, insert_staker,
  genesis_build, genesis_settings,
}

module _ (C : Config) where
  -- What a call keeps, the call that goes on with its answer keeps, and so does a loop of such calls.
  go_on-keeps :
      {A B : Type 0} (P : Storage C → Type 0) (f : A → Call C B) (r : Result Error A)
      (s : Storage C)
      → P s
      → ((a : A) → P (f a s).1)
      → P (elim r as (λ _. Result Error B × Storage C) [ ok a ↦ f a s | err e ↦ (err e, s) ]).1
  go_on-keeps P f (ok a) s h keep = keep a
  go_on-keeps P f (err e) s h keep = h

  for_each-keeps :
      {A : Type 0} (P : Storage C → Type 0) (f : A → Call C (Unit {0}))
      → ((x : A) (s : Storage C) → P s → P (f x s).1)
      → (xs : List A) (s : Storage C) → P s
      → P (for_each f xs s).1
  unfolding for_each
  for_each-keeps P f keep [] s h = h
  for_each-keeps P f keep (x ∷ xs) s h =
      let s' = (f x s).1 in
      let kept = keep x s h in
      go_on-keeps P (λ (_ : Unit {0}). for_each f xs) (f x s).0 s' kept
        (λ _. for_each-keeps P f keep xs s' kept)

  ensure-keeps :
      (P : Storage C → Type 0) (b : Bool) (e : Error) (s : Storage C) → P s → P (ensure b e s).1
  ensure-keeps P true e s h = h
  ensure-keeps P false e s h = h

  abbrev Keeps : (Storage C → Type 0) → Type 0
  Keeps P =
      (origin : Origin) (call : Dispatch.StakerCall) (s : Storage C)
      → P s
      → P (Dispatch.run_staker C origin call s).1

  module _ (P : Storage C → Type 0) (keep : Keeps P) where
    take_role-keeps :
        (g : GenesisConfig) (stash controller balance : ℕ) (status : StakerStatus)
        → (collaborative : Bool) (s : Storage C) → P s
        → let staker : Staker = record {
          stash = stash;
          controller = controller;
          balance = balance;
          status = status;
        } in
          P (take_role C g staker collaborative s).1
    unfolding take_role Dispatch.run_staker
    take_role-keeps g stash controller balance idle b s h = h
    take_role-keeps g stash controller balance validator b s h =
        keep (signed controller)
          (Dispatch.calls_validate
            (record no_prefs { collaborative = b; commission = g.min_commission }))
          s h
    take_role-keeps g stash controller balance (cooperator votes) b s h =
        keep (signed controller) (Dispatch.calls_cooperate votes) s h

    insert_staker-keeps :
        (g : GenesisConfig) (staker : Staker) (s : Storage C)
        → P s
        → P (insert_staker C g staker s).1
    unfolding insert_staker Dispatch.run_staker
    insert_staker-keeps g staker s h =
        let enough = leb staker.balance (C.free_balance staker.stash s.others) in
        let s₁ = (ensure {E = Error} enough bad_state s).1 in
        let kept = ensure-keeps P enough bad_state s h in
        let bonds = bond C (signed staker.stash) staker.controller staker.balance to_controller in
        let role = λ (legit : Bool). take_role C g staker (not g.disable_collaboration && legit) in
        go_on-keeps P
          (λ (_ : Unit {0}). bonds >> (gets (is_legit_for_collab C staker.stash) >>= role))
          (ensure {S = Storage C} enough bad_state s).0 s₁ kept
          (λ _.
            let s₂ = (bonds s₁).1 in
            let bonded =
              keep (signed staker.stash)
                (Dispatch.calls_bond staker.controller staker.balance to_controller) s₁ kept in
            go_on-keeps P (λ (_ : Unit {0}). gets (is_legit_for_collab C staker.stash) >>= role)
              (bonds s₁).0 s₂ bonded
              (λ _.
                take_role-keeps g staker.stash staker.controller staker.balance staker.status
                  (not g.disable_collaboration && is_legit_for_collab C staker.stash s₂) s₂ bonded))

  -- Whatever the configuration: if in the storage before the genesis the stashes and their controllers are paired,
  -- and an account is not both a validator and a cooperator, so it is behind the genesis build.
  pub genesis_build-IsSound :
      (g : GenesisConfig) (who : ℕ) (s : Storage C)
      → HasPairs C s
      → IsExclusive C who s
      → HasPairs C (genesis_build C g s).1 × IsExclusive C who (genesis_build C g s).1
  unfolding genesis_build
  genesis_build-IsSound g who s paired exclusive =
      let s₁ : Storage C = record s {
        settings = genesis_settings g s.settings;
        eras = record s.eras { force_era = g.force_era };
      } in
      (
        for_each-keeps (HasPairs C) (insert_staker C g)
            (insert_staker-keeps (HasPairs C) (OfPairs.staker_lem C) g) g.stakers s₁ paired,
        for_each-keeps (IsExclusive C who) (insert_staker C g)
            (insert_staker-keeps (IsExclusive C who) (OfRoles.staker_lem C who) g) g.stakers s₁
            exclusive,
      )
