-- ===== src/Staking/Payout/Frame.antt =====
-- What the payment of rewards leaves as it is (pallets/energy-generation/src/pallet/impls.rs).
use power_plant.Prelude.{
  ℕ, ◌≡◌, inl, inr, some, List, [], ◌∷◌, arith, Option-cases, add128, unwrap_or, fold_state,
}
use power_plant.Slashing.Compute.{Exposure, IndividualExposure}
use power_plant.Staking.{Config, Storage, emit, payout_started}
use power_plant.Staking.Roles.{no_prefs}
use power_plant.Staking.Payout

module _ (C : Config) where
  -- The stashes, their ledgers, the two roles, and the eras.
  abbrev pub HasSameStakers : Storage C → Storage C → Type 0
  HasSameStakers s s' =
      (s'.bonded ≡ s.bonded)
      × (s'.ledger ≡ s.ledger)
      × (s'.validators ≡ s.validators)
      × (s'.cooperators ≡ s.cooperators)
      × (s'.eras ≡ s.eras)

  make_payout_lem :
      (stash amount debt : ℕ) (s s' : Storage C)
      → Payout.make_payout C stash amount s ≡ some (debt, s')
      → HasSameStakers s s'
  unfolding Payout.make_payout
  make_payout_lem stash amount debt s s' e = ground arith

  reward_lem :
      (stash amount total : ℕ) (s : Storage C)
      → HasSameStakers s (Payout.reward C stash amount (total, s)).1
  unfolding Payout.reward
  reward_lem stash amount total s = elim (Option-cases (Payout.make_payout C stash amount s)) [
    | inl n ↦ ground arith
    | inr ((debt, s'), e) ↦ let same = make_payout_lem stash amount debt s s' e in ground arith
  ]

  rewards_lem :
      (exposed leftover total : ℕ) (others : List IndividualExposure) (s : Storage C)
      → HasSameStakers s
          (fold_state (Payout.reward_cooperator C exposed leftover) others (total, s)).1
  unfolding fold_state Payout.reward_cooperator
  rewards_lem exposed leftover total [] s = ground arith
  rewards_lem exposed leftover total (x ∷ others) s =
      let amount = C.perbill.scale (C.perbill.from_rational x.value exposed) leftover in
      let (total', s') = Payout.reward C x.who amount (total, s) in
      let one = reward_lem x.who amount total s in
      let rest = rewards_lem exposed leftover total' others s' in ground arith

  pub pay_stakers_lem :
      (era validator_stash stash rate : ℕ) (exposure : Exposure) (s : Storage C)
      → HasSameStakers s (Payout.pay_stakers C era validator_stash stash rate exposure s)
  unfolding Payout.pay_stakers
  pay_stakers_lem era validator_stash stash rate exposure s =
      let prefs = unwrap_or (s.eras.eras_validator_prefs era validator_stash) no_prefs in
      let (cut, leftover) = Payout.shares_of C rate prefs.commission exposure.total in
      let amount =
        add128 (C.perbill.scale (C.perbill.from_rational exposure.own exposure.total) leftover)
          cut in
      let s₁ = emit C (payout_started era stash) s in
      let (total, s₂) = Payout.reward C stash amount (0, s₁) in
      let own = reward_lem stash amount 0 s₁ in
      let others = rewards_lem exposure.total leftover total exposure.others s₂ in ground arith
