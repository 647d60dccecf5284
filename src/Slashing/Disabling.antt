-- ===== src/Slashing/Disabling.antt =====
-- Disabling of offending validators: `UpToLimitDisablingStrategy` of
-- pallets/energy-generation/src/lib.rs and `add_offending_validator` of
-- pallets/energy-generation/src/slashing.rs.
pub mod Laws
use power_plant.Prelude.{
  ℕ, ◌-◌, ◌/◌, Option, none, some, List, [], ◌∷◌, ◌++◌, leb, ltb, ◌==◌, if◌then◌else◌, length,
  position,
}

-- What the strategy reads: the validators of the session, the active era (0 if there is none), and
-- the factor of the limit, `DISABLING_LIMIT_FACTOR`.
pub record ActiveSet : Type 0 where
  pub validators : List ℕ
  pub active_era : ℕ
  pub limit_factor : ℕ

-- A factor of 0 gives the limit 0, like the source's `checked_div`.
unfoldable pub disable_limit : ℕ → ℕ → ℕ
disable_limit limit_factor validators_len = (validators_len - 1) / limit_factor

unfoldable pub decision : ActiveSet → ℕ → ℕ → List ℕ → Option ℕ
decision a offender_stash slash_era currently_disabled =
    if leb (disable_limit a.limit_factor (length a.validators)) (length currently_disabled)
    then none
    else if ltb slash_era a.active_era
    then none
    else position (λ i. i == offender_stash) a.validators

-- `DisabledValidators`, and the indices that were handed to `SessionInterface::disable_validator`.
pub record Disabled : Type 0 where
  pub disabled_validators : List ℕ
  pub session_disabled : List ℕ

abbrev put_behind : ℕ → Option (List ℕ) → Option (List ℕ)
put_behind z none = none
put_behind z (some zs) = some (z ∷ zs)

-- `binary_search_by_key` on a sorted list answers `Err` with the place of a missing index, where it
-- is then inserted; `none` is the answer `Ok`, for an index that is there.
unfoldable pub insert_missing : ℕ → List ℕ → Option (List ℕ)
insert_missing x [] = some (x ∷ [])
insert_missing x (y ∷ ys) =
    if x == y
    then none
    else if ltb x y
    then some (x ∷ y ∷ ys)
    else put_behind y (insert_missing x ys)

abbrev disable_at : ℕ → Option (List ℕ) → Disabled → Disabled
disable_at offender none d = d
disable_at offender (some disabled) d = record {
  disabled_validators = disabled;
  session_disabled = d.session_disabled ++ offender ∷ [];
}

abbrev disable : Option ℕ → Disabled → Disabled
disable none d = d
disable (some offender) d = disable_at offender (insert_missing offender d.disabled_validators) d

unfoldable pub add_offending_validator : ActiveSet → ℕ → ℕ → Disabled → Disabled
add_offending_validator a stash slash_era d =
    disable (decision a stash slash_era d.disabled_validators) d
