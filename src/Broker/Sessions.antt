-- ===== src/Broker/Sessions.antt =====
-- The energy burned in the last sessions, and the capacity that follows it
-- (pallets/energy-broker/src/lib.rs, `OnEnergyBurn`, `OnSessionChange` and `Warehouse`).
pub mod Window
use power_plant.Prelude.{
  ℕ, zero, suc, ◌-◌, Option, none, some, ◌∷◌, leb, ◌==◌, if◌then◌else◌, u128_max, add32,
  saturating_add, insert, remove, unwrap_or,
}
use power_plant.Broker.Swaps.{Config, Storage, burn_surplus_energy, energy_capacity_updated}

module _ (C : Config) where
  unfoldable pub on_energy_burn : ℕ → Storage C → Storage C
  on_energy_burn amount s = record s {
    session_energy_burn = saturating_add u128_max s.session_energy_burn amount;
  }

  -- `checked_sub(1)`, `insert`, `mutate`
  abbrev pub record_session : ℕ → ℕ → Storage C → Storage C
  record_session zero burned s = s
  record_session (suc index) burned s = record s {
    energy_burn = insert index burned s.energy_burn;
    total_energy_burn = saturating_add u128_max s.total_energy_burn burned;
  }

  abbrev pub forget : ℕ → Option ℕ → Storage C → Storage C
  forget index none s = s
  forget index (some old_burned) s = record s {
    energy_burn = remove index s.energy_burn;
    total_energy_burn = s.total_energy_burn - old_burned;
  }

  abbrev pub forget_session : ℕ → Storage C → Storage C
  forget_session index s =
      let window = add32 C.burned_energy_sessions_count 1 in
      if leb window index then forget (index - window) (s.energy_burn (index - window)) s else s

  abbrev pub update_capacity : Storage C → Storage C
  update_capacity s =
      let capacity = unwrap_or s.energy_capacity_override s.total_energy_burn in
      if capacity == 0
      then s
      else burn_surplus_energy C (record s {
        energy_capacity = capacity;
        events = energy_capacity_updated capacity ∷ s.events;
      })

  unfoldable pub on_new_session : ℕ → Storage C → Storage C
  on_new_session index s =
      let burned = s.session_energy_burn in
      update_capacity
        (forget_session index (record_session index burned (record s { session_energy_burn = 0 })))

  abbrev current_amount : Storage C → ℕ
  current_amount s = C.assets.balance C.energy_asset C.account_id s.assets

  abbrev max_capacity : Storage C → ℕ
  max_capacity s = s.energy_capacity
