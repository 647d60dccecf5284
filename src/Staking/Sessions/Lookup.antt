-- ===== src/Staking/Sessions/Lookup.antt =====
-- The eras of sessions and the sessions of eras (pallets/energy-generation/src/pallet/impls.rs).
use power_plant.Prelude.{
  ℕ, zero, suc, ◌≤◌, ◌<◌, ◌≡◌, ◌⊎◌, inl, inr, Bool, true, false, Option, none, some, arith, ltb,
  leb, Option-cases, StorageMap,
}
use power_plant.Staking.{Eras}
use power_plant.Staking.Sessions.{era_down, era_for_session, session_range_for_era}

-- A session is not before the start, if there is one, and before the next start, if there is one.
abbrev reached : ℕ → Option ℕ → Bool
reached session none = false
reached session (some start) = leb start session

abbrev passed : ℕ → Option ℕ → Bool
passed session none = false
passed session (some start) = ltb session start

era_down_lem :
    (session current era : ℕ) (starts : StorageMap ℕ)
    → era_down session current starts ≡ some era
    → (era ≤ current)
      × (reached session (starts era) ≡ true)
      × ((era ≡ current) ⊎ (passed session (starts (suc era)) ≡ true))
unfolding era_down
era_down_lem session zero era starts h = ground arith
era_down_lem session (suc current) era starts h =
    elim (Option-cases (era_down session current starts)) [
      | inl n ↦ ground arith
      | inr (e, f) ↦ ground (arith, era_down_lem session current e starts f)
    ]

-- If no era behind the current one has a start, and no number is at the end of its type, then the era
-- that is found for a session has a range of sessions, which has this session in it.
pub era_for_session_lem :
    (session era current : ℕ) (e : Eras)
    → e.current_era ≡ some current
    → e.eras_start_session_index (suc current) ≡ none
    → current < 4_294_967_295
    → e.current_planned_session < 4_294_967_295
    → era_for_session session e ≡ some era
    → (range : ℕ × ℕ) × (session_range_for_era era e ≡ some range)
      × (range.0 ≤ session)
      × (session < range.1)
unfolding era_for_session session_range_for_era
era_for_session_lem session era current e h none_later lt lt' found =
    let starts = e.eras_start_session_index in
    let down : era_down session current starts ≡ some era = ground arith in
    let facts = era_down_lem session current era starts down in
    elim (Option-cases (starts era)) [
      | inl n ↦ absurd (ground arith)
      | inr (start, f) ↦ elim (Option-cases (starts (suc era))) [
        | inl n ↦ ((start, suc e.current_planned_session), ground arith, ground arith, ground arith)
        | inr (next, g) ↦ ((start, next), ground arith, ground arith, ground arith)
      ]
    ]
