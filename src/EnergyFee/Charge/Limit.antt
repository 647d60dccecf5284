-- ===== src/EnergyFee/Charge/Limit.antt =====
-- What becomes of a fee (pallets/energy-fee/src/lib.rs).
use power_plant.Prelude.{
  ℕ, ◌+◌, ◌-◌, ◌≤◌, ◌≡◌, ◌⊎◌, refl, inl, inr, Option, none, some, arith, Option-cases, ok,
  Result-cases,
}
use power_plant.EnergyFee.{Asset, CallFee, regular, evm, Config, Storage}
use power_plant.EnergyFee.Exchange.{
  burn_and_mint, exchange_energy, reduce_by, swap_rest, ensure_sufficient_energy,
}
use power_plant.EnergyFee.Charge.{
  charge, withdraw_fee, update_burned_energy, refund, settle, correct_and_deposit_fee,
}

-- A credit is split into parts that sum to it, a debt is offset against it, and exactly the fee is withdrawn.
pub record IsCredit (C : Config) : Type 0 where
  pub split_sum : (credit n : ℕ) → (C.split credit n).0 + (C.split credit n).1 ≡ credit
  pub offset_eq : {paid debt rest : ℕ} → C.offset paid debt ≡ some rest → rest + debt ≡ paid
  pub withdraw_eq :
      {who fee taken : ℕ} {x y : C.State}
      → C.energy.withdraw who fee x ≡ some (taken, y)
      → taken ≡ fee

pub CallFee-cases : (f : CallFee) → ((n : ℕ) × (f ≡ regular n)) ⊎ ((n : ℕ) × (f ≡ evm n))
CallFee-cases (regular n) = inl (n, refl)
CallFee-cases (evm n) = inr (n, refl)

-- What is withdrawn at once: the fee of a call of the EVM is left to the EVM.
abbrev pub charged : CallFee → ℕ
charged (regular fee) = fee
charged (evm fee) = 0

module _ (C : Config) where
  -- The burned energy and its threshold are the same.
  abbrev pub SameBurned : Storage C → Storage C → Type 0
  SameBurned s s' =
      (s'.burned_energy ≡ s.burned_energy)
      × (s'.burned_energy_threshold ≡ s.burned_energy_threshold)

  reduce_by-SameBurned :
      (asset : Asset C.State) (who required : ℕ) (s : Storage C)
      → SameBurned s (reduce_by C asset who required s).1
  unfolding reduce_by exchange_energy burn_and_mint
  reduce_by-SameBurned asset who required s = ground arith

  pub ensure_sufficient_energy-SameBurned :
      (who required : ℕ) (s : Storage C)
      → SameBurned s (ensure_sufficient_energy C who required s).1
  unfolding ensure_sufficient_energy swap_rest
  ensure_sufficient_energy-SameBurned who required s =
      let r₀ = required - C.energy.reducible_balance who s.others in
      let s₁ = (reduce_by C C.static_energy who r₀ s).1 in
      let a = reduce_by-SameBurned C.static_energy who r₀ s in
      elim (Result-cases (reduce_by C C.static_energy who r₀ s).0) [
        | inl (e, f) ↦ ground arith
        | inr (r₁, done) ↦ let b = reduce_by-SameBurned C.liquid_energy who r₁ s₁ in ground arith
      ]

  unfoldable pub paid_of : Option ℕ → ℕ
  paid_of none = 0
  paid_of (some paid) = paid

  charge-SameBurned :
      (who fee : ℕ) (paid : Option ℕ) (s : Storage C)
      → IsCredit C
      → (charge C who fee s).0 ≡ ok paid
      → (paid_of paid ≤ fee) × SameBurned s (charge C who fee s).1
  unfolding charge paid_of
  charge-SameBurned who fee paid s laws done =
      let s₁ = (ensure_sufficient_energy C who fee s).1 in
      let same = ensure_sufficient_energy-SameBurned who fee s in
      elim (Option-cases (C.energy.withdraw who fee s₁.others)) [
        | inl e ↦ ground arith
        | inr ((taken, x), e) ↦ let exact = laws.withdraw_eq e in ground arith
      ]

  pub withdraw_fee-SameBurned :
      (who fee : ℕ) (call : C.RuntimeCall) (paid : Option ℕ) (s : Storage C)
      → IsCredit C
      → (withdraw_fee C who call fee s).0 ≡ ok paid
      → (paid_of paid ≤ charged (C.dispatch_info_to_fee call fee))
        × SameBurned s (withdraw_fee C who call fee s).1
  unfolding withdraw_fee paid_of
  withdraw_fee-SameBurned who fee call paid s laws done =
      elim (CallFee-cases (C.dispatch_info_to_fee call fee)) [
        | inl (custom, e) ↦ let paid_le = charge-SameBurned who custom paid s laws in ground arith
        | inr (custom, e) ↦
            let s₁ = (ensure_sufficient_energy C who custom s).1 in
            let same = ensure_sufficient_energy-SameBurned who custom s in
            let paid_le = charge-SameBurned who 0 paid s₁ laws in ground arith
      ]

  refund-SameBurned :
      (who tip paid : ℕ) (call : C.RuntimeCall) (post : C.PostInfo) (s : Storage C)
      → SameBurned s (refund C who tip call post paid s).1
  unfolding refund
  refund-SameBurned who tip paid call post s = ground arith

  -- The burned energy grows by what is left of a fee at most.
  settle-le :
      (who actual_fee tip : ℕ) (s : Storage C)
      → IsCredit C
      → let s' = (settle C who actual_fee tip s).1 in
        (s'.burned_energy ≤ s.burned_energy + actual_fee)
        × (s'.burned_energy_threshold ≡ s.burned_energy_threshold)
  unfolding settle update_burned_energy
  settle-le who actual_fee tip s laws =
      let fee = (C.split actual_fee tip).1 in
      let a = laws.split_sum actual_fee tip in
      let b = laws.split_sum fee (C.recycled_part fee s.others) in ground arith

  pub correct_and_deposit_fee-le :
      (who tip : ℕ) (call : C.RuntimeCall) (post : C.PostInfo) (paid : Option ℕ) (s : Storage C)
      → IsCredit C
      → let s' = (correct_and_deposit_fee C who call post tip paid s).1 in
        (s'.burned_energy ≤ s.burned_energy + paid_of paid)
        × (s'.burned_energy_threshold ≡ s.burned_energy_threshold)
  unfolding correct_and_deposit_fee paid_of
  correct_and_deposit_fee-le who tip call post none s laws = ground arith
  correct_and_deposit_fee-le who tip call post (some paid) s laws =
      let same = refund-SameBurned who tip paid call post s in
      let (r, s₁) = refund C who tip call post paid s in
      elim (Result-cases (refund C who tip call post paid s).0) [
        | inl (e, f) ↦ ground arith
        | inr (debt, done) ↦ elim (Option-cases (C.offset paid debt)) [
          | inl e ↦ ground arith
          | inr (rest, e) ↦
              let offset = laws.offset_eq e in
              let left = settle-le who rest tip s₁ laws in ground arith
        ]
      ]
