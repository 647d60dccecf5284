-- ===== src/EnergyFee/Charge/Block.antt =====
-- The transactions of a block, in the order in which they call pallets/energy-fee/src/lib.rs and src/extension.rs.
pub mod Within
use power_plant.Prelude.{
  ℕ, ◌+◌, ◌-◌, ◌≤◌, ◌≡◌, Option, some, List, [], ◌∷◌, ◌>>=◌, ◌>>◌, modify, with_storage_layer,
}
use power_plant.EnergyFee.{CallFee, regular, evm, Config, Storage, Call, on_others}
use power_plant.EnergyFee.Charge.{
  withdraw_fee, correct_and_deposit_fee, withdraw_evm_fee, correct_and_deposit_evm_fee,
  pre_dispatch,
}

-- A call of the EVM, with the fee that the EVM asks for and what it does to the other pallets.
pub record EvmCall (C : Config) : Type 0 where
  pub source : ℕ
  pub fee : ℕ
  pub effect : C.State → C.State

-- What a dispatch does: it changes other pallets, or calls the EVM, which charges for itself.
pub data Step (C : Config) : Type 0 where
  other : (C.State → C.State) → Step C
  evm_call : EvmCall C → Step C

-- A signed transaction without a tip, with what dispatching its call does and answers.
pub record Extrinsic (C : Config) : Type 0 where
  pub who : ℕ
  pub call : C.RuntimeCall
  pub length : ℕ
  pub post : C.PostInfo
  pub steps : List (Step C)

-- A signed transaction, or a self-contained one of Ethereum, which skips the signed extensions.
pub data Transaction (C : Config) : Type 0 where
  signed : Extrinsic C → Transaction C
  ethereum : EvmCall C → Transaction C

module _ (C : Config) where
  -- The runner of the EVM: a call that fails leaves the storage as it was.
  unfoldable pub run_evm : EvmCall C → Call C (Unit {0})
  run_evm e = with_storage_layer do
    liquidity ← withdraw_evm_fee C e.source e.fee
    on_others C e.effect
    correct_and_deposit_evm_fee C liquidity

  unfoldable pub run_steps : List (Step C) → Storage C → Storage C
  run_steps [] s = s
  run_steps (other effect ∷ steps) s = run_steps steps (record s { others = effect s.others })
  run_steps (evm_call e ∷ steps) s = run_steps steps (run_evm e s).1

  -- The check of the extension, the fee withdrawn, the dispatch, and the fee settled.
  unfoldable pub apply_signed : Extrinsic C → Call C (Unit {0})
  apply_signed t = with_storage_layer do
    pre_dispatch C t.call t.length
    paid ← withdraw_fee C t.who t.call (C.compute_fee t.call t.length 0)
    modify (run_steps t.steps)
    correct_and_deposit_fee C t.who t.call t.post 0 paid

  unfoldable pub transact : Transaction C → Storage C → Storage C
  transact (signed t) s = (apply_signed t s).1
  transact (ethereum e) s = (run_evm e s).1

  unfoldable pub transact_all : List (Transaction C) → Storage C → Storage C
  transact_all [] s = s
  transact_all (t ∷ ts) s = transact_all ts (transact t s)

  -- The fees of the calls of the EVM among the steps.
  abbrev pub evm_energy : List (Step C) → ℕ
  evm_energy [] = 0
  evm_energy (other effect ∷ steps) = evm_energy steps
  evm_energy (evm_call e ∷ steps) = C.ethereum_fee + evm_energy steps

  abbrev pub checked : CallFee → ℕ
  checked (regular fee) = 0
  checked (evm fee) = fee

  -- The fees of those calls of the EVM that no check of the extension counted: the check of a signed transaction
  -- counts one EVM fee if its call is one of the EVM, and that of an Ethereum transaction is skipped.
  abbrev pub unchecked : Transaction C → ℕ
  unchecked (signed t) =
      evm_energy t.steps - checked (C.dispatch_info_to_fee t.call (C.compute_fee t.call t.length 0))
  unchecked (ethereum e) = C.ethereum_fee

  abbrev pub unchecked_all : List (Transaction C) → ℕ
  unchecked_all [] = 0
  unchecked_all (t ∷ ts) = unchecked t + unchecked_all ts

  -- The burned energy is within the threshold and what is allowed on top.
  abbrev pub IsWithin : ℕ → ℕ → Storage C → Type 0
  IsWithin threshold extra s =
      (s.burned_energy_threshold ≡ some threshold) × (s.burned_energy ≤ threshold + extra)
