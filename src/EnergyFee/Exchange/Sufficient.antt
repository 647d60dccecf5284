-- ===== src/EnergyFee/Exchange/Sufficient.antt =====
-- The energy behind the exchange covers what is required (pallets/energy-fee/src/lib.rs).
use power_plant.Prelude.{
  ℕ, ◌+◌, ◌-◌, ◌≤◌, ◌≡◌, inl, inr, some, arith, Option-cases, ok, Result-cases,
}
use power_plant.EnergyFee.{Asset, Config, Storage}
use power_plant.EnergyFee.Exchange.{
  energy_of, burn_and_mint, exchange_energy, reduce_by, swap_rest, ensure_sufficient_energy,
}

-- Burning another kind of energy takes no energy from the account, minting energy gives it what is answered,
-- and the exchange what is asked for.
pub record IsExchange (C : Config) : Type 0 where
  pub burn_static_le :
      {who amount burned : ℕ} {x y : C.State}
      → C.static_energy.burn_from who amount x ≡ some (burned, y)
      → C.energy.reducible_balance who x ≤ C.energy.reducible_balance who y
  pub burn_liquid_le :
      {who amount burned : ℕ} {x y : C.State}
      → C.liquid_energy.burn_from who amount x ≡ some (burned, y)
      → C.energy.reducible_balance who x ≤ C.energy.reducible_balance who y
  pub mint_le :
      {who amount minted : ℕ} {x y : C.State}
      → C.energy.mint_into who amount x ≡ some (minted, y)
      → C.energy.reducible_balance who x + minted ≤ C.energy.reducible_balance who y
  pub swap_le :
      {who amount : ℕ} {x y : C.State}
      → C.swap_tokens_for_exact_tokens who amount x ≡ some y
      → C.energy.reducible_balance who x + amount ≤ C.energy.reducible_balance who y

module _ (C : Config) (laws : IsExchange C) (who : ℕ) where
  -- Burning the asset takes no energy from the account.
  abbrev TakesNone : Asset C.State → Type 0
  TakesNone asset =
      (amount burned : ℕ) (x y : C.State)
      → asset.burn_from who amount x ≡ some (burned, y)
      → C.energy.reducible_balance who x ≤ C.energy.reducible_balance who y

  burn_and_mint_le :
      (asset : Asset C.State) (required minted : ℕ) (s : Storage C)
      → TakesNone asset
      → (burn_and_mint C asset who required s).0 ≡ ok minted
      → energy_of C who s + minted ≤ energy_of C who (burn_and_mint C asset who required s).1
  unfolding burn_and_mint
  burn_and_mint_le asset required minted s none_taken done =
      elim (Option-cases (asset.burn_from who required s.others)) [
        | inl e ↦ absurd (ground arith)
        | inr ((burned, x), e) ↦
            let first = none_taken required burned s.others x e in
            elim (Option-cases (C.energy.mint_into who burned x)) [
              | inl f ↦ absurd (ground arith)
              | inr ((m, y), f) ↦ let second = laws.mint_le f in ground arith
            ]
      ]

  -- What is required with the energy of the account does not grow.
  reduce_by_le :
      (asset : Asset C.State) (required rest : ℕ) (s : Storage C)
      → TakesNone asset
      → (reduce_by C asset who required s).0 ≡ ok rest
      → required + energy_of C who s ≤ rest + energy_of C who (reduce_by C asset who required s).1
  unfolding reduce_by exchange_energy
  reduce_by_le asset required rest s none_taken done =
      elim (Result-cases (burn_and_mint C asset who required s).0) [
        | inl (e, failed) ↦ ground arith
        | inr (minted, minted_eq) ↦
            let grown = burn_and_mint_le asset required minted s none_taken minted_eq in
            ground arith
      ]

  swap_rest_le :
      (required : ℕ) (s : Storage C)
      → (swap_rest C who required s).0 ≡ ok tt
      → required + energy_of C who s ≤ energy_of C who (swap_rest C who required s).1
  unfolding swap_rest
  swap_rest_le required s done =
      elim (Option-cases (C.swap_tokens_for_exact_tokens who required s.others)) [
        | inl e ↦ ground arith
        | inr (x, e) ↦ let grown = laws.swap_le e in ground arith
      ]

  -- If the assets and the exchange give what they answer: where ensuring the energy succeeds, the account
  -- has at least the energy that is required.
  pub ensure_sufficient_energy_le :
      (required : ℕ) (s : Storage C)
      → (ensure_sufficient_energy C who required s).0 ≡ ok tt
      → required ≤ energy_of C who (ensure_sufficient_energy C who required s).1
  unfolding ensure_sufficient_energy
  ensure_sufficient_energy_le required s done =
      let r₀ = required - energy_of C who s in
      let s₁ = (reduce_by C C.static_energy who r₀ s).1 in
      elim (Result-cases (reduce_by C C.static_energy who r₀ s).0) [
        | inl (e, f) ↦ absurd (ground arith)
        | inr (r₁, done₁) ↦
            let a =
              reduce_by_le C.static_energy r₀ r₁ s (λ n b x y h. laws.burn_static_le h) done₁ in
            let s₂ = (reduce_by C C.liquid_energy who r₁ s₁).1 in
            elim (Result-cases (reduce_by C C.liquid_energy who r₁ s₁).0) [
              | inl (e, f) ↦ absurd (ground arith)
              | inr (r₂, done₂) ↦
                  let b =
                    reduce_by_le C.liquid_energy r₁ r₂ s₁ (λ n b x y h. laws.burn_liquid_le h)
                      done₂ in
                  let c = swap_rest_le r₂ s₂ (ground arith) in ground arith
            ]
      ]
