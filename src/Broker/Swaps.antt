-- ===== src/Broker/Swaps.antt =====
-- The storage of the broker, its quotes and its swaps (pallets/energy-broker/src/lib.rs). An extrinsic is
-- run inside the storage layer of the runtime; the functions of the `Swap` trait are called by other
-- pallets.
pub mod Laws
pub mod Balances
use power_plant.Prelude.{
  ℕ, ◌-◌, min, max, Bool, true, false, not, Option, none, some, List, [], ◌∷◌, ltb, leb,
  if◌then◌else◌, Result, ok, err, Action, ◌>>=◌, ◌>>◌, pure, raise, gets, modify, ensure, ok_or,
  lift, StorageMap, unwrap_or,
}
use power_plant.Broker.Fees.{
  Error, zero_amount, below_minimum, insufficient_liquidity,
  provided_minimum_not_sufficient_for_swap, provided_maximum_not_sufficient_for_swap, invalid_path,
  not_expendable, assets_error, bad_origin, to_amount_with_fee_deducted,
  to_amount_with_fee_included,
}
use power_plant.Broker.Assets.{Assets, Converter, converter_of}

pub record Path2 : Type 0 where
  pub asset_in : ℕ
  pub asset_out : ℕ

pub data Event : Type 0 where
  liquidity_added : ℕ → ℕ → ℕ → Event
  swap_executed : ℕ → ℕ → Path2 → ℕ → ℕ → Event
  energy_burned : ℕ → Event
  energy_capacity_force_set : Option ℕ → Event
  energy_capacity_updated : ℕ → Event

-- The types and constants of the pallet's configuration. An origin is a number, that of the account it
-- is signed by, if any, and `can_manage` is `ManageOrigin`.
pub record Config : Type 1 where
  pub signer : ℕ → Option ℕ
  pub can_manage : ℕ → Bool
  pub assets : Assets
  pub converters : List (Converter assets)
  pub default_fee : ℕ
  pub is_feeless : ℕ → Bool
  pub energy_asset : ℕ
  pub account_id : ℕ
  pub burned_energy_sessions_count : ℕ

module _ (C : Config) where
  pub record Storage : Type 0 where
    pub energy_capacity : ℕ
    pub energy_capacity_override : Option ℕ
    pub session_energy_burn : ℕ
    pub energy_burn : StorageMap ℕ
    pub total_energy_burn : ℕ
    pub assets : C.assets.State
    pub events : List Event

  abbrev pub Call : Type 0 → Type 0
  Call A = Action Error Storage A

  abbrev deposit_event : Event → Call (Unit {0})
  deposit_event e = modify (λ s. record s { events = e ∷ s.events })

  -- A call of the assets that may fail.
  abbrev pub try_assets : (C.assets.State → Option C.assets.State) → Error → Call (Unit {0})
  try_assets f e s = elim (f s.assets) [
    | none ↦ (err e, s)
    | some a ↦ (ok tt, record s { assets = a })
  ]

  abbrev on_assets : (C.assets.State → C.assets.State) → Call (Unit {0})
  on_assets f = modify (λ s. record s { assets = f s.assets })

  abbrev pub path_converter : Path2 → Option (Converter C.assets)
  path_converter path = converter_of C.assets C.converters path.asset_in path.asset_out

  unfoldable pub swap_fee : Path2 → ℕ
  swap_fee path = elim (path_converter path) [
    | none ↦ C.default_fee
    | some c ↦ unwrap_or c.swap_fee C.default_fee
  ]

  abbrev pub converted_out : Path2 → ℕ → Option ℕ
  converted_out path amount_in = elim (path_converter path) [
    | none ↦ none
    | some c ↦ c.get_amount_out amount_in
  ]

  abbrev pub converted_in : Path2 → ℕ → Option ℕ
  converted_in path amount_out = elim (path_converter path) [
    | none ↦ none
    | some c ↦ c.get_amount_in amount_out
  ]

  abbrev priced_out : Path2 → ℕ → Result Error ℕ → Result Error (ℕ × ℕ)
  priced_out path amount_in (err e) = err e
  priced_out path amount_in (ok exchange_in) = elim (converted_out path exchange_in) [
    | none ↦ err invalid_path
    | some amount_out ↦
        if ltb 0 amount_out then ok (amount_out, amount_in - exchange_in) else err zero_amount
  ]

  unfoldable pub get_amount_out : ℕ → Path2 → Bool → Result Error (ℕ × ℕ)
  get_amount_out amount_in path include_fee =
      if ltb 0 amount_in
      then priced_out path amount_in (
          if include_fee
          then to_amount_with_fee_deducted amount_in (swap_fee path)
          else ok amount_in)
      else err zero_amount

  abbrev with_fee : ℕ → Result Error ℕ → Result Error (ℕ × ℕ)
  with_fee exchange_in (err e) = err e
  with_fee exchange_in (ok amount_in) = ok (amount_in, amount_in - exchange_in)

  unfoldable pub get_amount_in : ℕ → Path2 → Bool → Result Error (ℕ × ℕ)
  get_amount_in amount_out path include_fee =
      if ltb 0 amount_out
      then elim (converted_in path amount_out) [
        | none ↦ err invalid_path
        | some n ↦ with_fee (max n 1) (
            if include_fee
            then to_amount_with_fee_included (max n 1) (swap_fee path)
            else ok (max n 1))
      ]
      else err zero_amount

  unfoldable pub burn_surplus_energy : Storage → Storage
  burn_surplus_energy s =
      let burn_amount = C.assets.balance C.energy_asset C.account_id s.assets - s.energy_capacity in
      if ltb 0 burn_amount
      then elim (C.assets.burn_from C.energy_asset C.account_id burn_amount s.assets) [
        | none ↦ s
        | some (amount, a) ↦ record s { assets = a; events = energy_burned amount ∷ s.events }
      ]
      else s

  abbrev ensure_expendable : Bool → ℕ → ℕ → ℕ → Call (Unit {0})
  ensure_expendable false asset sender amount_in = pure tt
  ensure_expendable true asset sender amount_in = do
    free ← gets (λ s. C.assets.reducible_balance true asset sender s.assets)
    ensure (leb amount_in free) not_expendable

  abbrev broker_energy : Call ℕ
  broker_energy = gets (λ s. C.assets.balance C.energy_asset C.account_id s.assets)

  abbrev pub after_sale : ℕ → ℕ → Storage → Storage
  after_sale before after s =
      if ltb before after
      then (let s' = burn_surplus_energy s in
          record s' { assets = C.assets.on_energy_sell (after - before) s'.assets })
      else s

  -- `AssetConverter::withdraw` and `AssetConverter::resolve`; for an unknown path both fail.
  abbrev pub withdraw_path : Path2 → ℕ → C.assets.State → Option C.assets.State
  withdraw_path path value a = elim (path_converter path) [
    | none ↦ none
    | some c ↦ c.withdraw C.account_id value a
  ]

  abbrev pub resolve_path : Path2 → ℕ → C.assets.State → Option C.assets.State
  resolve_path path value a = elim (path_converter path) [
    | none ↦ none
    | some c ↦ c.resolve C.account_id value a
  ]

  unfoldable pub do_swap : ℕ → ℕ → Path2 → ℕ → ℕ → ℕ → Bool → Call (Unit {0})
  do_swap sender recipient path amount_in amount_out fee_part keep_alive = do
    ensure_expendable keep_alive path.asset_in sender amount_in
    energy_before_swap ← broker_energy
    try_assets (C.assets.withdraw keep_alive path.asset_in sender amount_in) assets_error
    -- The fee is a part of the amount: `extract` takes no more than there is.
    let fee = min amount_in fee_part
    on_assets (C.assets.on_unbalanced path.asset_in fee)
    try_assets (resolve_path path (amount_in - fee)) below_minimum
    try_assets (withdraw_path path amount_out) insufficient_liquidity
    try_assets (C.assets.resolve path.asset_out recipient amount_out) below_minimum
    energy_after_swap ← broker_energy
    modify (after_sale energy_before_swap energy_after_swap)

  -- `if let Some(limit) = limit { ensure!(..) }`
  abbrev ensure_limit : (ℕ → Bool) → Option ℕ → Error → Call (Unit {0})
  ensure_limit test none e = pure tt
  ensure_limit test (some limit) e = ensure (test limit) e

  unfoldable pub do_swap_exact_tokens_for_tokens : ℕ → ℕ → Path2 → ℕ → Option ℕ → Bool → Call ℕ
  do_swap_exact_tokens_for_tokens sender recipient path amount_in amount_out_min keep_alive = do
    ensure_limit (ltb 0) amount_out_min zero_amount
    (amount_out, fee) ← lift (get_amount_out amount_in path (not (C.is_feeless sender)))
    ensure_limit (λ limit. leb limit amount_out) amount_out_min
        provided_minimum_not_sufficient_for_swap
    do_swap sender recipient path amount_in amount_out fee keep_alive
    deposit_event (swap_executed sender recipient path amount_in amount_out)
    pure amount_out

  unfoldable pub do_swap_tokens_for_exact_tokens : ℕ → ℕ → Path2 → ℕ → Option ℕ → Bool → Call ℕ
  do_swap_tokens_for_exact_tokens sender recipient path amount_out amount_in_max keep_alive = do
    ensure_limit (ltb 0) amount_in_max zero_amount
    (amount_in, fee) ← lift (get_amount_in amount_out path (not (C.is_feeless sender)))
    ensure_limit (λ limit. leb amount_in limit) amount_in_max
        provided_maximum_not_sufficient_for_swap
    do_swap sender recipient path amount_in amount_out fee keep_alive
    deposit_event (swap_executed sender recipient path amount_in amount_out)
    pure amount_in

  unfoldable pub swap_exact_tokens_for_tokens :
      ℕ → ℕ → Path2 → ℕ → Option ℕ → Bool → Call (Unit {0})
  swap_exact_tokens_for_tokens origin recipient path amount_in amount_out_min keep_alive = do
    sender ← ok_or (C.signer origin) bad_origin
    do_swap_exact_tokens_for_tokens sender recipient path amount_in amount_out_min keep_alive
    pure tt

  unfoldable pub swap_tokens_for_exact_tokens :
      ℕ → ℕ → Path2 → ℕ → Option ℕ → Bool → Call (Unit {0})
  swap_tokens_for_exact_tokens origin recipient path amount_out amount_in_max keep_alive = do
    sender ← ok_or (C.signer origin) bad_origin
    do_swap_tokens_for_exact_tokens sender recipient path amount_out amount_in_max keep_alive
    pure tt

  unfoldable pub force_add_liquidity : ℕ → ℕ → ℕ → ℕ → Bool → Call (Unit {0})
  force_add_liquidity origin source asset amount keep_alive = do
    ensure (C.can_manage origin) bad_origin
    try_assets (C.assets.transfer keep_alive asset source C.account_id amount) assets_error
    deposit_event (liquidity_added source asset amount)

  unfoldable pub force_set_capacity : ℕ → Option ℕ → Call (Unit {0})
  force_set_capacity origin amount = do
    ensure (C.can_manage origin) bad_origin
    modify (λ s. record s { energy_capacity_override = amount })
    deposit_event (energy_capacity_force_set amount)

  unfoldable pub quote_price_exact_tokens_for_tokens : ℕ → ℕ → ℕ → Bool → Option ℕ
  quote_price_exact_tokens_for_tokens asset1 asset2 amount include_fee =
      elim (get_amount_out amount (record { asset_in = asset1; asset_out = asset2 }) include_fee) [
        | ok (amount_out, fee) ↦ some amount_out
        | err e ↦ none
      ]

  unfoldable pub quote_price_tokens_for_exact_tokens : ℕ → ℕ → ℕ → Bool → Option ℕ
  quote_price_tokens_for_exact_tokens asset1 asset2 amount include_fee =
      elim (get_amount_in amount (record { asset_in = asset1; asset_out = asset2 }) include_fee) [
        | ok (amount_in, fee) ↦ some amount_in
        | err e ↦ none
      ]

  -- The path of the `Swap` trait, a vector that has to have two assets.
  abbrev pub path_of : List ℕ → Option Path2
  path_of [] = none
  path_of (a ∷ []) = none
  path_of (a ∷ b ∷ []) = some (record { asset_in = a; asset_out = b })
  path_of (a ∷ b ∷ c ∷ path) = none

  -- `Swap::swap_exact_tokens_for_tokens`
  unfoldable pub swap_exact_along : ℕ → List ℕ → ℕ → Option ℕ → ℕ → Bool → Call ℕ
  swap_exact_along sender path amount_in amount_out_min send_to keep_alive = elim (path_of path) [
    | some p ↦ do_swap_exact_tokens_for_tokens sender send_to p amount_in amount_out_min keep_alive
    | none ↦ raise invalid_path
  ]

  -- `Swap::swap_tokens_for_exact_tokens`
  unfoldable pub swap_for_exact_along : ℕ → List ℕ → ℕ → Option ℕ → ℕ → Bool → Call ℕ
  swap_for_exact_along sender path amount_out amount_in_max send_to keep_alive =
      elim (path_of path) [
        | some p ↦
            do_swap_tokens_for_exact_tokens sender send_to p amount_out amount_in_max keep_alive
        | none ↦ raise invalid_path
      ]

  -- `GenesisConfig::build`
  unfoldable pub genesis_build : ℕ → Storage → Storage
  genesis_build capacity s = record s {
    energy_capacity = capacity;
    energy_capacity_override = some capacity;
  }
