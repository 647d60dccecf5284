-- ===== src/Broker/Assets.antt =====
-- What the broker asks of the assets, and its converters (pallets/energy-broker/src/converter.rs).
use power_plant.Prelude.{
  ℕ, Bool, true, ◌&&◌, Option, none, some, List, [], ◌∷◌, ◌==◌, if◌then◌else◌,
}

-- `T::Assets` and the two handlers that are called with a credit or an amount. The first argument of
-- `reducible_balance`, `withdraw` and `transfer` is `keep_alive`; assets and accounts are numbers, the
-- asset comes before the account.
pub record Assets : Type 1 where
  pub State : Type 0
  pub balance : ℕ → ℕ → State → ℕ
  pub reducible_balance : Bool → ℕ → ℕ → State → ℕ
  pub withdraw : Bool → ℕ → ℕ → ℕ → State → Option State
  pub resolve : ℕ → ℕ → ℕ → State → Option State
  pub burn_from : ℕ → ℕ → ℕ → State → Option (ℕ × State)
  pub transfer : Bool → ℕ → ℕ → ℕ → ℕ → State → Option State
  pub on_unbalanced : ℕ → ℕ → State → State
  pub on_energy_sell : ℕ → State → State

-- `FixedPathAssetConverter`: `withdraw` and `resolve` are given the broker account and an amount of
-- the target and the source asset.
pub record Converter (A : Assets) : Type 0 where
  pub source : ℕ
  pub target : ℕ
  pub swap_fee : Option ℕ
  pub get_amount_out : ℕ → Option ℕ
  pub get_amount_in : ℕ → Option ℕ
  pub withdraw : ℕ → ℕ → A.State → Option A.State
  pub resolve : ℕ → ℕ → A.State → Option A.State

module _ (A : Assets) where
  -- The default methods of a converter.
  abbrev pub default_withdraw : ℕ → ℕ → ℕ → A.State → Option A.State
  default_withdraw target broker value = A.withdraw true target broker value

  abbrev pub default_resolve : ℕ → ℕ → ℕ → A.State → Option A.State
  default_resolve source broker value = A.resolve source broker value

  -- The tuple of converters: the first with the path serves it.
  abbrev pub converter_of : List (Converter A) → ℕ → ℕ → Option (Converter A)
  converter_of [] asset_in asset_out = none
  converter_of (c ∷ cs) asset_in asset_out =
      if asset_in == c.source && asset_out == c.target
      then some c
      else converter_of cs asset_in asset_out
