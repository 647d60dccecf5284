-- ===== src/EnergyFee/Exchange.antt =====
-- Getting the energy for a fee: the other kinds of energy first, then the native currency
-- (pallets/energy-fee/src/lib.rs).
pub mod Sufficient
use power_plant.Prelude.{
  ℕ, ◌-◌, Option, none, some, ltb, ◌==◌, if◌then◌else◌, u128_max, saturating_add, ◌>>=◌, pure, gets,
  ◌>>◌,
}
use power_plant.EnergyFee.{
  Asset, Config, Storage, Call, exchange_error, asset_error, try_amount, try_others,
}

module _ (C : Config) where
  abbrev pub energy_of : ℕ → Storage C → ℕ
  energy_of who s = C.energy.reducible_balance who s.others

  unfoldable pub burn_and_mint : Asset C.State → ℕ → ℕ → Call C ℕ
  burn_and_mint asset who required = do
    amount ← try_amount C (asset.burn_from who required) asset_error
    try_amount C (C.energy.mint_into who amount) asset_error

  unfoldable pub exchange_energy : Asset C.State → ℕ → ℕ → Call C ℕ
  exchange_energy asset who required = do
    balance ← gets (λ s. asset.reducible_balance who s.others)
    if balance == 0 then pure 0 else burn_and_mint asset who required

  -- One kind of energy exchanged, if some is still required; what is then required.
  unfoldable pub reduce_by : Asset C.State → ℕ → ℕ → Call C ℕ
  reduce_by asset who required =
      if ltb 0 required
      then exchange_energy asset who required >>= (λ amount. pure (required - amount))
      else pure required

  unfoldable pub swap_rest : ℕ → ℕ → Call C (Unit {0})
  swap_rest who required =
      if ltb 0 required
      then try_others C (C.swap_tokens_for_exact_tokens who required) exchange_error
      else pure tt

  unfoldable pub ensure_sufficient_energy : ℕ → ℕ → Call C (Unit {0})
  ensure_sufficient_energy who required = do
    balance ← gets (energy_of who)
    r₁ ← reduce_by C.static_energy who (required - balance)
    r₂ ← reduce_by C.liquid_energy who r₁
    swap_rest who r₂

  -- The energy and the native currency that a fee takes.
  unfoldable pub calculate_fee_parts : ℕ → ℕ → Storage C → Option (ℕ × ℕ)
  calculate_fee_parts who required s =
      let t₀ = energy_of who s in
      let t₁ =
        if ltb t₀ required
        then saturating_add u128_max t₀ (C.static_energy.reducible_balance who s.others)
        else t₀ in
      let t₂ =
        if ltb t₁ required
        then saturating_add u128_max t₁ (C.liquid_energy.reducible_balance who s.others)
        else t₁ in
      if ltb t₂ required
      then elim (C.quote_price_tokens_for_exact_tokens (required - t₂) s.others) [
        | none ↦ none
        | some amount_in ↦ some (t₂, amount_in)
      ]
      else some (required, 0)
