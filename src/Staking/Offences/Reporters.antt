-- ===== src/Staking/Offences/Reporters.antt =====
-- The payment of reporters out of what was slashed (pallets/energy-generation/src/slashing.rs).
use power_plant.Prelude.{
  ℕ, ◌+◌, ◌≤◌, ◌≡◌, refl, min, List, [], ◌∷◌, arith, length, sum, u128_max, ok,
}
use power_plant.Slashing.Entity.{SlashEntity}
use power_plant.Reputation.Pallet
use power_plant.Staking.{Config, Storage, in_reputation}
use power_plant.Staking.Offences

-- The documented behaviour of imbalances: a split loses nothing, and the parts merge to their sum. What
-- reporters and the handler of slashes were given is counted by `given`.
pub record Imbalances (C : Config) : Type 0 where
  pub given : C.State → ℕ
  pub split_at_most : (i a : ℕ) → (C.split i a).0 ≤ a
  pub split_sum : (i a : ℕ) → (C.split i a).0 + (C.split i a).1 ≡ i
  pub subsume_sum : (a b : ℕ) → a + b ≤ u128_max → C.subsume a b ≡ a + b
  pub resolve_given : (who a : ℕ) (o : C.State) → given (C.resolve_creating who a o) ≡ given o + a
  pub on_slash_given : (a : ℕ) (o : C.State) → given (C.on_slash a o) ≡ given o + a

module _ (C : Config) (I : Imbalances C) where
  increase_lem :
      (reporter reputation : ℕ) (s : Storage C)
      → let (r, s') = in_reputation C (Pallet.increase_creating C.float reporter reputation) s in
        (r ≡ ok tt) × (s'.others ≡ s.others)
  unfolding Pallet.increase_creating
  increase_lem reporter reputation s = ground arith

  pay_each_lem :
      (reputation stake : ℕ) (reporters : List ℕ) (left : ℕ) (s : Storage C)
      → let (r, s') = Offences.pay_each C reputation stake reporters left s in
        (rest : ℕ) × (r ≡ ok rest)
        × (rest + I.given s'.others ≡ left + I.given s.others)
        × (rest ≤ left)
  unfolding Offences.pay_each
  pay_each_lem reputation stake [] left s = (left, refl, refl, omega arith)
  pay_each_lem reputation stake (reporter ∷ reporters) left s =
      let (reward, rest) = C.split left stake in
      let raised = Pallet.increase_creating C.float reporter reputation s.reputation in
      let s' : Storage C = record s {
        reputation = raised.1;
        others = C.resolve_creating reporter reward s.others;
      } in
      let increased = increase_lem reporter reputation s in
      let (left', e, sum, le) = pay_each_lem reputation stake reporters rest s' in
      let given = I.resolve_given reporter reward s.others in
      let whole = I.split_sum left stake in (left', ground arith, ground arith, omega arith)

  -- If the slashed amount fits a balance and imbalances behave as documented: paying the reporters always
  -- succeeds, and the reporters and the handler of slashes together are given exactly the slashed amount.
  pub pay_reporters_lem :
      (reward : SlashEntity) (imbalance : ℕ) (reporters : List ℕ) (s : Storage C)
      → imbalance ≤ u128_max
      → let (r, s') = Offences.pay_reporters C reward imbalance reporters s in
        (r ≡ ok tt) × (I.given s'.others ≡ I.given s.others + imbalance)
  unfolding Offences.pay_reporters
  pay_reporters_lem reward imbalance reporters s fits =
      let (stake_reward, value_slashed) = C.split imbalance (min reward.stake imbalance) in
      let whole = I.split_sum imbalance (min reward.stake imbalance) in
      let prop = C.perbill.from_rational 1 (length reporters) in
      let reputation = C.perbill.scale prop reward.reputation in
      let stake = C.perbill.scale prop stake_reward in
      let s' = (Offences.pay_each C reputation stake reporters stake_reward s).1 in
      let (left, e, sum, le) = pay_each_lem reputation stake reporters stake_reward s in
      let merged = I.subsume_sum value_slashed left (omega arith) in
      let given = I.on_slash_given (C.subsume value_slashed left) s'.others in
      let given' = I.on_slash_given imbalance s.others in ground arith
