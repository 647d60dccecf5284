-- ===== src/EnergyFee/Charge.antt =====
-- Charging for a transaction, the limit of the energy burned in a block, and the calls of the managers
-- (pallets/energy-fee/src/lib.rs and src/extension.rs).
pub mod Limit
pub mod Block
use power_plant.Prelude.{
  ℕ, ◌+◌, ◌-◌, Option, none, some, leb, ◌==◌, if◌then◌else◌, u128_max, saturating_add, Result, ok,
  err, ◌>>◌, pure, gets, modify, ensure, ok_or, lift, ◌>>=◌,
}
use power_plant.EnergyFee.{
  Error, CallFee, regular, evm, Config, Storage, Call, payment, exhausts_resources, balance_low,
  bad_origin, overflow, exhausted, energy_fee_paid, burned_energy_threshold_updated,
  block_fullness_threshold_updated, upper_fee_multiplier_updated, deposit_event, try_amount,
  on_others, or_error,
}
use power_plant.EnergyFee.Exchange.{ensure_sufficient_energy}

module _ (C : Config) where
  unfoldable pub charge : ℕ → ℕ → Call C (Option ℕ)
  charge who fee = if fee == 0 then pure none else do
    or_error C payment (ensure_sufficient_energy C who fee)
    imbalance ← try_amount C (C.energy.withdraw who fee) payment
    on_others C (C.on_withdraw_fee who)
    pure (some imbalance)

  -- `withdraw_fee`, with what was withdrawn.
  unfoldable pub withdraw_fee : ℕ → C.RuntimeCall → ℕ → Call C (Option ℕ)
  withdraw_fee who call fee =
      if fee == 0 then pure none else elim (C.dispatch_info_to_fee call fee) [
        | regular custom ↦ charge who custom
        | evm custom ↦ or_error C payment (ensure_sufficient_energy C who custom) >> charge who 0
      ]

  unfoldable pub update_burned_energy : ℕ → Call C (Unit {0})
  update_burned_energy amount = modify (λ s. record s {
    burned_energy = saturating_add u128_max s.burned_energy amount;
    others = C.on_energy_burn amount s.others;
  })

  -- The refund of a call that pays no fee: `.ok()`.
  unfoldable pub refund : ℕ → ℕ → C.RuntimeCall → C.PostInfo → ℕ → Call C ℕ
  refund who tip call post paid s =
      if C.pays_no post call
      then elim (C.energy.deposit who (paid - tip) s.others) [
        | none ↦ (ok 0, s)
        | some (debt, x) ↦ (ok debt, record s { others = x })
      ]
      else (ok 0, s)

  -- The fee that is left, with the part of it recycled and the rest burned.
  unfoldable pub settle : ℕ → ℕ → ℕ → Call C (Unit {0})
  settle who actual_fee tip = do
    let shares = C.split actual_fee tip
    recycled_amount ← gets (λ s. C.recycled_part shares.1 s.others)
    let parts = C.split shares.1 recycled_amount
    on_others C (C.on_recycled parts.0)
    update_burned_energy parts.1
    update_burned_energy shares.0
    deposit_event C (energy_fee_paid who actual_fee)

  unfoldable pub correct_and_deposit_fee :
      ℕ → C.RuntimeCall → C.PostInfo → ℕ → Option ℕ → Call C (Unit {0})
  correct_and_deposit_fee who call post tip none = pure tt
  correct_and_deposit_fee who call post tip (some paid) = do
    refund_imbalance ← refund who tip call post paid
    actual_fee ← ok_or (C.offset paid refund_imbalance) payment
    settle who actual_fee tip

  -- The two of `OnChargeEVMTransaction`: the fee is the one of the runtime.
  unfoldable pub withdraw_evm_fee : ℕ → ℕ → Call C (Option ℕ)
  withdraw_evm_fee who fee = if fee == 0 then pure none else do
    let account_id = C.into_account_id who
    or_error C balance_low (ensure_sufficient_energy C account_id C.ethereum_fee)
    imbalance ← try_amount C (C.energy.withdraw account_id C.ethereum_fee) balance_low
    deposit_event C (energy_fee_paid account_id C.ethereum_fee)
    on_others C (C.on_withdraw_fee account_id)
    pure (some imbalance)

  unfoldable pub correct_and_deposit_evm_fee : Option ℕ → Call C (Unit {0})
  correct_and_deposit_evm_fee none = pure tt
  correct_and_deposit_evm_fee (some credit) = do
    recycled_amount ← gets (λ s. C.recycled_part credit s.others)
    let parts = C.split credit recycled_amount
    on_others C (C.on_recycled parts.0)
    update_burned_energy parts.1

  unfoldable pub validate_call_fee : ℕ → Storage C → Result Error (Unit {0})
  validate_call_fee fee_amount s =
      if leb (s.burned_energy + fee_amount) u128_max
      then elim s.burned_energy_threshold [
        | none ↦ ok tt
        | some threshold ↦
            if leb (s.burned_energy + fee_amount) threshold then ok tt else err exhausted
      ]
      else err overflow

  abbrev pub into_inner : CallFee → ℕ
  into_inner (regular fee) = fee
  into_inner (evm fee) = fee

  -- `CheckEnergyFee::pre_dispatch`
  unfoldable pub pre_dispatch : C.RuntimeCall → ℕ → Call C (Unit {0})
  pre_dispatch call len = do
    let fee = into_inner (C.dispatch_info_to_fee call (C.compute_fee call len 0))
    valid ← gets (validate_call_fee fee)
    or_error C exhausts_resources (lift valid)

  -- `Hooks::on_initialize`
  unfoldable pub on_initialize : Storage C → Storage C
  on_initialize s = record s { burned_energy = 0 }

  abbrev ensure_manager : ℕ → Call C (Unit {0})
  ensure_manager origin = ensure (C.is_manager origin) bad_origin

  unfoldable pub update_burned_energy_threshold : ℕ → ℕ → Call C (Unit {0})
  update_burned_energy_threshold origin new_threshold = do
    ensure_manager origin
    modify (λ s. record s { burned_energy_threshold = some new_threshold })
    deposit_event C (burned_energy_threshold_updated new_threshold)

  unfoldable pub update_block_fullness_threshold : ℕ → ℕ → Call C (Unit {0})
  update_block_fullness_threshold origin new_threshold = do
    ensure_manager origin
    modify (λ s. record s { block_fullness_threshold = some new_threshold })
    deposit_event C (block_fullness_threshold_updated new_threshold)

  unfoldable pub update_upper_fee_multiplier : ℕ → ℕ → Call C (Unit {0})
  update_upper_fee_multiplier origin new_multiplier = do
    ensure_manager origin
    modify (λ s. record s { upper_fee_multiplier = some new_multiplier })
    deposit_event C (upper_fee_multiplier_updated new_multiplier)

  unfoldable pub update_base_fee : ℕ → ℕ → Call C (Unit {0})
  update_base_fee origin new_base_fee = do
    ensure_manager origin
    modify (λ s. record s { base_fee = some new_base_fee })
