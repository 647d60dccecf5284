-- ===== src/Staking/Payout/Once.antt =====
-- The rewards of an era are paid once (pallets/energy-generation/src/pallet/impls.rs).
use power_plant.Prelude.{
  ℕ, ◌-◌, ◌≤◌, ◌≡◌, inl, inr, Option, none, some, List, [], ◌∷◌, arith, Option-cases, ok, err,
  insert, unwrap_or, Result-cases,
}
use power_plant.Slashing.Disabling.{insert_missing}
use power_plant.Ledger.{StakingLedger}
use power_plant.Staking.{Config, Storage, signed, already_claimed}
use power_plant.Staking.Payout
use power_plant.Staking.Payout.Frame.{pay_stakers_lem}

inserted_lem : (e : ℕ) (xs ys : List ℕ) → insert_missing e xs ≡ some ys → insert_missing e ys ≡ none
unfolding insert_missing
inserted_lem e [] ys h = ground arith
inserted_lem e (x ∷ xs) ys h = elim (Option-cases (insert_missing e xs)) [
  | inl n ↦ ground arith
  | inr (zs, f) ↦ ground (arith, inserted_lem e xs zs f)
]

retained_lem :
    (first e : ℕ) (ys : List ℕ)
    → first ≤ e
    → insert_missing e ys ≡ none
    → insert_missing e (Payout.retain_from first ys) ≡ none
unfolding insert_missing Payout.retain_from
retained_lem first e [] le h = ground arith
retained_lem first e (y ∷ ys) le h = elim (Option-cases (insert_missing e ys)) [
  | inl n ↦ ground (arith, retained_lem first e ys le n)
  | inr (zs, f) ↦ ground arith
]

module _ (C : Config) where
  claim_in_lem :
      (first first' era : ℕ) (l l' : StakingLedger)
      → first' ≤ era
      → Payout.claim_in C first era l ≡ ok l'
      → Payout.claim_in C first' era l' ≡ err already_claimed
  unfolding Payout.claim_in
  claim_in_lem first first' era l l' le h =
      elim (Option-cases (insert_missing era (Payout.retain_from first l.claimed_rewards))) [
        | inl n ↦ ground arith
        | inr (claimed, f) ↦
            let there = inserted_lem era (Payout.retain_from first l.claimed_rewards) claimed f in
            let kept = retained_lem first' era claimed le there in ground arith
      ]

  -- What a payout that passes its checks is from: the ledger that the controller had.
  claimed_by_lem :
      (first first' era rate rate' c : ℕ) (b : Option ℕ) (l' : StakingLedger) (s s' : Storage C)
      → first' ≤ era
      → Payout.claimed_by C first era b rate s ≡ ok (c, l', rate')
      → s'.ledger ≡ insert c l' s.ledger
      → Payout.claimed_by C first' era b rate s' ≡ err already_claimed
  claimed_by_lem first first' era rate rate' c none l' s s' le h e = ground arith
  claimed_by_lem first first' era rate rate' c (some controller) l' s s' le h e =
      elim (Option-cases (s.ledger controller)) [
        | inl n ↦ ground arith
        | inr (l, f) ↦ elim (Result-cases (Payout.claim_in C first era l)) [
          | inl g ↦ ground arith
          | inr (l'', g) ↦
              let at : s'.ledger controller ≡ some l' = ground arith in
              let again = claim_in_lem first first' era l l'' le g in ground arith
        ]
      ]

  -- The state behind a payout that passes its checks passes them no more.
  check_payout_lem :
      (stash era c rate : ℕ) (l' : StakingLedger) (s s' : Storage C)
      → Payout.check_payout C stash era s ≡ ok (c, l', rate)
      → s'.bonded ≡ s.bonded
      → s'.eras ≡ s.eras
      → s'.ledger ≡ insert c l' s.ledger
      → Payout.check_payout C stash era s' ≡ err already_claimed
  unfolding Payout.check_payout
  check_payout_lem stash era c rate l' s s' h same_bonded same_eras e =
      elim (Option-cases s.eras.current_era) [
        | inl n ↦ absurd (ground arith)
        | inr (current, g) ↦ elim (Option-cases (s.eras.eras_energy_per_stake_currency era)) [
          | inl n ↦ absurd (ground arith)
          | inr (r, k) ↦
              let first = current - C.history_depth in
              let in_range : first ≤ era = ground arith in
              let claimed : Payout.claimed_by C first era (s.bonded stash) r s ≡ ok (c, l', rate) =
                ground arith in
              let again =
                claimed_by_lem first first era r rate c (s.bonded stash) l' s s' in_range claimed
                  e in
              ground arith
        ]
      ]

  -- After a payout of a validator and an era that succeeded, by whomever, the same payout fails for the
  -- claimed rewards and changes nothing.
  pub payout_once :
      (caller caller' stash era : ℕ) (s : Storage C)
      → (Payout.payout_stakers C (signed caller) stash era s).0 ≡ ok tt
      → let s' = (Payout.payout_stakers C (signed caller) stash era s).1 in
        Payout.payout_stakers C (signed caller') stash era s' ≡ (err already_claimed, s')
  unfolding Payout.payout_stakers Payout.do_payout_stakers
  payout_once caller caller' stash era s h =
      elim (Result-cases (Payout.check_payout C stash era s)) [
        | inl f ↦ absurd (ground arith)
        | inr ((c, l, rate), f) ↦
            let exposure = unwrap_or (s.eras.eras_stakers_clipped era l.stash) Payout.no_exposure in
            let s₁ : Storage C = record s { ledger = insert c l s.ledger } in
            let s₂ = Payout.pay_stakers C era stash l.stash rate exposure s₁ in
            let paid = pay_stakers_lem C era stash l.stash rate exposure s₁ in
            let again = check_payout_lem stash era c rate l s s₂ f paid.0 paid.4 paid.1 in
            ground arith
      ]
