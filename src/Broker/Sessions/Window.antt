-- ===== src/Broker/Sessions/Window.antt =====
-- The total of burned energy is that of the last sessions (pallets/energy-broker/src/lib.rs).
use power_plant.Prelude.{
  ℕ, zero, suc, ◌+◌, ◌-◌, ◌≤◌, ◌<◌, ◌≡◌, List, [], ◌∷◌, arith, ◌==◌, if◌then◌else◌, length, take,
  get_elem?, sum, unwrap_or,
}
use power_plant.Broker.Swaps.{Config, Storage, burn_surplus_energy}
use power_plant.Broker.Sessions.{on_energy_burn, on_new_session}

module _ (C : Config) where
  -- The state after sessions that burned these amounts, the last one first.
  abbrev pub run : Storage C → List ℕ → Storage C
  run s [] = s
  run s (b ∷ bs) = on_new_session C (suc (length bs)) (on_energy_burn C b (run s bs))

  -- The burned energy of the sessions in the window is known, its total too.
  IsWindow : List ℕ → Storage C → Type 0
  IsWindow bs s =
      (s.session_energy_burn ≡ 0)
      × (s.total_energy_burn ≡ sum (take C.burned_energy_sessions_count bs))
      × ((k : ℕ)
          → k < length bs
          → length bs ≤ k + C.burned_energy_sessions_count
          → s.energy_burn k ≡ get_elem? bs (length bs - 1 - k))

  -- A new session sets the capacity to the override, or to the new total if there is none; a capacity of
  -- 0 is not stored, and the old one stays.
  pub on_new_session_capacity :
      (index : ℕ) (s : Storage C)
      → let s' = on_new_session C index s in
        let wanted = unwrap_or s.energy_capacity_override s'.total_energy_burn in
        (s'.energy_capacity_override ≡ s.energy_capacity_override)
        × (s'.energy_capacity ≡ (if wanted == 0 then s.energy_capacity else wanted))
  unfolding on_new_session burn_surplus_energy
  on_new_session_capacity zero s = ground arith
  on_new_session_capacity (suc index) s = ground arith
