-- ===== src/Reputation/Pallet.antt =====
-- The storage and the calls of the reputation pallet (pallets/reputation/src/pallet/mod.rs and
-- pallets/reputation/src/pallet/impls.rs). An extrinsic is run by `dispatch`, inside the storage layer of the
-- runtime; the other functions are called by other pallets.
pub mod Laws
use power_plant.Prelude.{
  ℕ, none, some, List, [], ◌∷◌, if◌then◌else◌, err, Action, ◌>>=◌, ◌>>◌, pure, raise, gets, modify,
  ok_or, with_storage_layer, StorageMap, insert, remove, is_some, unwrap_or,
}
use power_plant.Reputation.Points.{Float, from_rank}
use power_plant.Reputation.Tier.{vanguard, tier_rank}
use power_plant.Reputation.Record.{
  ReputationRecord, with_blocknumber, increase, decrease, from_points, update_with_block_number,
}

pub data Error : Type 0 where
  account_not_found bad_origin : Error

pub data Event : Type 0 where
  reputation_set_forcibly reputation_slashed reputation_updated : ℕ → ℕ → Event
  reputation_reset_forcibly : ℕ → Event
  reputation_increase_failed : ℕ → Error → ℕ → Event

pub data Origin : Type 0 where
  root : Origin
  signed : ℕ → Origin
  unsigned : Origin

-- `AccountReputation`, with the block number and the events of frame_system (last event first).
pub record Storage : Type 0 where
  pub account_reputation : StorageMap ReputationRecord
  pub block_number : ℕ
  pub events : List Event

abbrev pub Call : Type 0 → Type 0
Call A = Action Error Storage A

abbrev pub ensure_root : Origin → Call (Unit {0})
ensure_root root = pure tt
ensure_root (signed _) = raise bad_origin
ensure_root unsigned = raise bad_origin

abbrev pub ensure_signed : Origin → Call ℕ
ensure_signed root = raise bad_origin
ensure_signed (signed who) = pure who
ensure_signed unsigned = raise bad_origin

abbrev deposit_event : Event → Call (Unit {0})
deposit_event e = modify (λ s. record s { events = e ∷ s.events })

abbrev put : ℕ → ReputationRecord → Call (Unit {0})
put account r =
    modify (λ s. record s { account_reputation = insert account r s.account_reputation })

abbrev each :
    (ReputationRecord → ReputationRecord)
    → StorageMap ReputationRecord
    → StorageMap ReputationRecord
each g m k = elim (m k) [ none ↦ none | some r ↦ some (g r) ]

module _ (f : Float) where
  unfoldable pub update_points_for_time : Call (Unit {0})
  update_points_for_time = modify (λ s. record s {
    account_reputation = each (update_with_block_number f s.block_number) s.account_reputation;
  })

  unfoldable pub do_slash : ℕ → ℕ → Call (Unit {0})
  do_slash account points = do
    updated ← gets (λ s. s.block_number)
    found ← gets (λ s. s.account_reputation account)
    old ← ok_or found account_not_found
    put account (record { reputation = decrease f points old.reputation; updated = updated })
    deposit_event (reputation_slashed account points)

  unfoldable pub increase_creating : ℕ → ℕ → Call (Unit {0})
  increase_creating account points s = elim (s.account_reputation account) [
    | some r ↦ put account (record r { reputation = increase f points r.reputation }) s
    | none ↦ put account (record { reputation = from_points f points; updated = 0 }) s
  ]

  unfoldable pub do_increase_points : ℕ → ℕ → Call (Unit {0})
  do_increase_points account points s = elim (s.account_reputation account) [
    | some r ↦ put account (record r { reputation = increase f points r.reputation }) s
    | none ↦ (err account_not_found, s)
  ]

  unfoldable pub on_new_account : ℕ → Storage → Storage
  on_new_account who s = if is_some (s.account_reputation who) then s else record s {
    account_reputation = insert who (with_blocknumber s.block_number) s.account_reputation;
  }

  unfoldable pub on_killed_account : ℕ → Storage → Storage
  on_killed_account who s = record s { account_reputation = remove who s.account_reputation }

  unfoldable pub force_set_points : Origin → ℕ → ℕ → Call (Unit {0})
  force_set_points origin account points = do
    ensure_root origin
    updated ← gets (λ s. s.block_number)
    put account (record { reputation = from_points f points; updated = updated })
    deposit_event (reputation_set_forcibly account points)

  unfoldable pub increase_points : Origin → ℕ → ℕ → Call (Unit {0})
  increase_points origin account points = do ensure_root origin; do_increase_points account points

  unfoldable pub slash : Origin → ℕ → ℕ → Call (Unit {0})
  slash origin account points = do ensure_root origin; do_slash account points

  unfoldable pub update_points : Origin → ℕ → Call (Unit {0})
  update_points origin account = do
    ensure_signed origin
    now ← gets (λ s. s.block_number)
    found ← gets (λ s. s.account_reputation account)
    let r = update_with_block_number f now (unwrap_or found (with_blocknumber now))
    put account r
    deposit_event (reputation_updated account r.reputation.points)

  unfoldable pub force_reset_points : Origin → Call (Unit {0})
  force_reset_points origin = do
    ensure_root origin
    updated ← gets (λ s. s.block_number)
    let points = from_rank f (tier_rank (vanguard 1))
    modify (λ s. record s {
      account_reputation =
          each (λ _. record { reputation = from_points f points; updated = updated })
            s.account_reputation;
    })
    deposit_event (reputation_reset_forcibly points)

-- `GenesisConfig::build`
unfoldable pub genesis_build : List (ℕ × ReputationRecord) → Storage → Storage
genesis_build [] s = s
genesis_build ((account, reputation) ∷ accounts) s =
    genesis_build accounts
      (record s { account_reputation = insert account reputation s.account_reputation })

-- The extrinsics.
pub data Extrinsic : Type 0 where
  calls_force_set_points calls_increase_points calls_slash : ℕ → ℕ → Extrinsic
  calls_update_points : ℕ → Extrinsic
  calls_force_reset_points : Extrinsic

unfoldable pub dispatch : Float → Origin → Extrinsic → Call (Unit {0})
dispatch f origin (calls_force_set_points account points) =
    with_storage_layer (force_set_points f origin account points)
dispatch f origin (calls_increase_points account points) =
    with_storage_layer (increase_points f origin account points)
dispatch f origin (calls_slash account points) = with_storage_layer (slash f origin account points)
dispatch f origin (calls_update_points account) =
    with_storage_layer (update_points f origin account)
dispatch f origin calls_force_reset_points = with_storage_layer (force_reset_points f origin)
