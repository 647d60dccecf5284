-- ===== src/EnergyFee.antt =====
-- The storage of pallets/energy-fee/src/lib.rs, and what the pallet asks of the assets, of the exchange
-- and of its handlers. Balances are `u128`.
pub mod Exchange
pub mod Charge
pub mod Multiplier
use power_plant.Prelude.{ℕ, Bool, Option, none, some, List, ◌∷◌, ok, err, Action, modify}

-- An asset with its balances in the state: what is burned, minted, withdrawn or deposited, with the
-- state, or nothing where it fails. A credit is its amount.
pub record Asset (State : Type 0) : Type 0 where
  pub reducible_balance : ℕ → State → ℕ
  pub burn_from : ℕ → ℕ → State → Option (ℕ × State)
  pub mint_into : ℕ → ℕ → State → Option (ℕ × State)
  pub withdraw : ℕ → ℕ → State → Option (ℕ × State)
  pub deposit : ℕ → ℕ → State → Option (ℕ × State)

pub data CallFee : Type 0 where
  regular evm : ℕ → CallFee

-- `offset` is that of a credit and a debt, with `same`, `split` that of a credit. `RuntimeCall` has the
-- call with its dispatch info, `PostInfo` what dispatching it answered; `compute_fee` is that of the pallet
-- transaction-payment, by length and tip.
pub record Config : Type 1 where
  pub State : Type 0
  pub RuntimeCall : Type 0
  pub PostInfo : Type 0
  pub compute_fee : RuntimeCall → ℕ → ℕ → ℕ
  pub pays_no : PostInfo → RuntimeCall → Bool
  pub dispatch_info_to_fee : RuntimeCall → ℕ → CallFee
  pub ethereum_fee : ℕ
  pub energy : Asset State
  pub static_energy : Asset State
  pub liquid_energy : Asset State
  pub quote_price_tokens_for_exact_tokens : ℕ → State → Option ℕ
  pub swap_tokens_for_exact_tokens : ℕ → ℕ → State → Option State
  pub on_withdraw_fee : ℕ → State → State
  pub on_energy_burn : ℕ → State → State
  pub recycled_part : ℕ → State → ℕ
  pub on_recycled : ℕ → State → State
  pub offset : ℕ → ℕ → Option ℕ
  pub split : ℕ → ℕ → ℕ × ℕ
  pub into_account_id : ℕ → ℕ
  pub constant_fee : ℕ
  pub full_block : ℕ
  pub one_multiplier : ℕ
  pub is_manager : ℕ → Bool

pub data Event : Type 0 where
  energy_fee_paid : ℕ → ℕ → Event
  burned_energy_threshold_updated block_fullness_threshold_updated : ℕ → Event
  upper_fee_multiplier_updated : ℕ → Event

pub data Error : Type 0 where
  payment exhausts_resources balance_low : Error
  bad_origin overflow exhausted exchange_error asset_error : Error

module _ (C : Config) where
  pub record Storage : Type 0 where
    pub burned_energy : ℕ
    pub burned_energy_threshold : Option ℕ
    pub block_fullness_threshold : Option ℕ
    pub upper_fee_multiplier : Option ℕ
    pub base_fee : Option ℕ
    pub events : List Event
    pub others : C.State

  abbrev pub Call : Type 0 → Type 0
  Call A = Action Error Storage A

  abbrev pub deposit_event : Event → Call (Unit {0})
  deposit_event e = modify (λ s. record s { events = e ∷ s.events })

  -- A change of the state of others that answers an amount.
  abbrev pub try_amount : (C.State → Option (ℕ × C.State)) → Error → Call ℕ
  try_amount f e s = elim (f s.others) [
    | none ↦ (err e, s)
    | some (amount, x) ↦ (ok amount, record s { others = x })
  ]

  abbrev pub try_others : (C.State → Option C.State) → Error → Call (Unit {0})
  try_others f e s = elim (f s.others) [
    | none ↦ (err e, s)
    | some x ↦ (ok tt, record s { others = x })
  ]

  abbrev pub on_others : (C.State → C.State) → Call (Unit {0})
  on_others f = modify (λ s. record s { others = f s.others })

  -- `map_err`
  abbrev pub or_error : {A : Type 0} → Error → Call A → Call A
  or_error e m s = let (r, s') = m s in elim r [ ok a ↦ (ok a, s') | err x ↦ (err e, s') ]
