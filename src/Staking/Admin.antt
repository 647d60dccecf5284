-- ===== src/Staking/Admin.antt =====
-- The calls of root and of the administrators (pallets/energy-generation/src/pallet/mod.rs): settings,
-- forced eras, and the cancellation of deferred slashes.
pub mod Cancel
use power_plant.Prelude.{
  ℕ, zero, suc, ◌+◌, ◌-◌, Bool, true, not, ◌&&◌, Option, none, some, List, [], ◌∷◌, ltb, leb,
  length, ◌>>=◌, ◌>>◌, gets, modify, ensure, insert, unwrap_or, is_empty,
}
use power_plant.Staking.{
  Config, Storage, Call, Origin, Forcing, emit, era_forced, force_none, force_new, force_always,
  ensure_root, ensure_admin, set_settings, empty_targets, not_sorted_and_unique,
  invalid_slash_index, incorrect_validator_count, arithmetic_overflow,
}
use power_plant.Staking.Roles.{u32_max}

-- `ConfigOp`
pub data ConfigOp (A : Type 0) : Type 0 where
  noop : ConfigOp A
  set_to : A → ConfigOp A
  clear : ConfigOp A

-- On a `ValueQuery`, where removal leaves the default, and on an `OptionQuery`.
abbrev op_value : ConfigOp ℕ → ℕ → ℕ
op_value noop old = old
op_value (set_to v) old = v
op_value clear old = 0

abbrev op_option : ConfigOp ℕ → Option ℕ → Option ℕ
op_option noop old = old
op_option (set_to v) old = some v
op_option clear old = none

-- `is_sorted_and_unique`
unfoldable pub is_sorted_and_unique : List ℕ → Bool
is_sorted_and_unique [] = true
is_sorted_and_unique (x ∷ []) = true
is_sorted_and_unique (x ∷ y ∷ ys) = ltb x y && is_sorted_and_unique (y ∷ ys)

-- `Vec::remove`
unfoldable pub remove_at {ℓ} : {A : Type ℓ} → ℕ → List A → List A
remove_at i [] = []
remove_at zero (x ∷ xs) = xs
remove_at (suc i) (x ∷ xs) = x ∷ remove_at i xs

-- The loop of `cancel_deferred_slash`: each index is lowered by the number of those removed before.
unfoldable pub remove_indices {ℓ} : {A : Type ℓ} → ℕ → List ℕ → List A → List A
remove_indices removed [] xs = xs
remove_indices removed (i ∷ is) xs = remove_indices (suc removed) is (remove_at (i - removed) xs)

abbrev last_index : List ℕ → ℕ
last_index [] = 0
last_index (i ∷ []) = i
last_index (i ∷ j ∷ is) = last_index (j ∷ is)

module _ (C : Config) where
  unfoldable pub set_force_era : Forcing → Storage C → Storage C
  set_force_era mode s =
      emit C (era_forced mode) (record s { eras = record s.eras { force_era = mode } })

  abbrev put_validator_count : ℕ → Call C (Unit {0})
  put_validator_count new = do
    most ← gets (λ s. s.settings.max_validators_count)
    ensure (elim most [ none ↦ true | some m ↦ leb new m ]) incorrect_validator_count
    set_settings C (λ t. record t { validator_count = new })

  unfoldable pub set_validator_count : Origin → ℕ → Call C (Unit {0})
  set_validator_count origin new = do ensure_root C origin; put_validator_count new

  -- `old.checked_add(additional)` on `u32`
  abbrev add_validators : (ℕ → ℕ) → Call C (Unit {0})
  add_validators additional = do
    old ← gets (λ s. s.settings.validator_count)
    ensure (leb (old + additional old) u32_max) arithmetic_overflow
    put_validator_count (old + additional old)

  unfoldable pub increase_validator_count : Origin → ℕ → Call C (Unit {0})
  increase_validator_count origin additional = do
    ensure_root C origin
    add_validators (λ old. additional)

  unfoldable pub scale_validator_count : Origin → ℕ → Call C (Unit {0})
  scale_validator_count origin factor = do
    ensure_root C origin
    add_validators (λ old. C.percent_mul_floor factor old)

  unfoldable pub set_core_nodes_count : Origin → ℕ → Call C (Unit {0})
  set_core_nodes_count origin num = do
    ensure_root C origin
    set_settings C (λ t. record t { core_nodes_count = num })

  abbrev force : Forcing → Origin → Call C (Unit {0})
  force mode origin = do ensure_root C origin; modify (set_force_era mode)

  abbrev pub force_no_eras : Origin → Call C (Unit {0})
  force_no_eras = force force_none

  abbrev pub force_new_era : Origin → Call C (Unit {0})
  force_new_era = force force_new

  abbrev pub force_new_era_always : Origin → Call C (Unit {0})
  force_new_era_always = force force_always

  unfoldable pub set_invulnerables : Origin → List ℕ → Call C (Unit {0})
  set_invulnerables origin invulnerables = do
    ensure_root C origin
    set_settings C (λ t. record t { invulnerables = invulnerables })

  unfoldable pub cancel_deferred_slash : Origin → ℕ → List ℕ → Call C (Unit {0})
  cancel_deferred_slash origin era slash_indices = do
    ensure_admin C origin
    ensure (not (is_empty slash_indices)) empty_targets
    ensure (is_sorted_and_unique slash_indices) not_sorted_and_unique
    unapplied ← gets (λ s. unwrap_or (s.unapplied_slashes era) [])
    ensure (ltb (last_index slash_indices) (length unapplied)) invalid_slash_index
    modify (λ s. record s {
      unapplied_slashes = insert era (remove_indices 0 slash_indices unapplied) s.unapplied_slashes;
    })

  unfoldable pub set_staking_configs :
      Origin
      → ConfigOp ℕ
      → ConfigOp ℕ
      → ConfigOp ℕ
      → ConfigOp ℕ
      → ConfigOp ℕ
      → ConfigOp ℕ
      → ConfigOp ℕ
      → Call C (Unit {0})
  set_staking_configs origin min_cooperator_bond min_common_validator_bond min_trust_validator_bond
        max_cooperator_count max_validator_count chill_threshold min_commission =
      do
        ensure_root C origin
        set_settings C (λ t. record t {
          min_cooperator_bond = op_value min_cooperator_bond t.min_cooperator_bond;
          min_common_validator_bond =
              op_value min_common_validator_bond t.min_common_validator_bond;
          min_trust_validator_bond = op_value min_trust_validator_bond t.min_trust_validator_bond;
          max_cooperators_count = op_option max_cooperator_count t.max_cooperators_count;
          max_validators_count = op_option max_validator_count t.max_validators_count;
          chill_threshold = op_option chill_threshold t.chill_threshold;
          min_commission = op_value min_commission t.min_commission;
        })

  unfoldable pub set_min_commission : Origin → ℕ → Call C (Unit {0})
  set_min_commission origin new = do
    ensure_admin C origin
    set_settings C (λ t. record t { min_commission = new })

  unfoldable pub set_energy_per_stake_currency : Origin → ℕ → Call C (Unit {0})
  set_energy_per_stake_currency origin energy = do
    ensure_admin C origin
    set_settings C (λ t. record t { current_energy_per_stake_currency = some energy })

  unfoldable pub set_block_authoring_reward : Origin → ℕ → Call C (Unit {0})
  set_block_authoring_reward origin reward = do
    ensure_admin C origin
    set_settings C (λ t. record t { block_authoring_reward = reward })
