-- ===== src/EnergyFee/Charge/Block/Within.antt =====
-- The limit of the energy burned in a block (pallets/energy-fee/src/lib.rs and src/extension.rs).
use power_plant.Prelude.{ℕ, ◌+◌, ◌≤◌, ◌≡◌}
use power_plant.EnergyFee.{Config, Storage}

module _ (C : Config) where
  -- The burned energy grew by no more than the amount, and its threshold is the same.
  abbrev GrewBy : ℕ → Storage C → Storage C → Type 0
  GrewBy amount s s' =
      (s'.burned_energy ≤ s.burned_energy + amount)
      × (s'.burned_energy_threshold ≡ s.burned_energy_threshold)
