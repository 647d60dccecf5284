-- ===== src/Slashing/Compute/Eras.antt =====
-- The largest slash of an era, and who is slashed with the validator
-- (pallets/energy-generation/src/slashing.rs).
use power_plant.Prelude.{
  ==_refl, ℕ, ◌≤◌, ◌≡◌, refl, ap, true, false, Option, none, some, List, [], ◌∷◌, map, arith,
  unwrap_or, u64_max, u128_max,
}
use power_plant.Slashing.Entity.{
  Perbill, SlashEntity, SlashEntityPerbill, IsAtMost, zero_entity, is_any_zero, compare_with,
  from_rational,
}
use power_plant.Reputation.Points.{Float}
use power_plant.Slashing.Compute.{
  insert₂, slash_cooperator, IndividualExposure, UnappliedSlash, SlashParams, SlashStorage,
  SlashContext, cooperator_era_slash, slash_cooperators, own_slash, prior_slash, slash_validator,
  compute_slash,
}

abbrev pub slash_at : (ℕ → ℕ → Option SlashEntity) → ℕ → ℕ → SlashEntity
slash_at m era stash = unwrap_or (m era stash) zero_entity

-- Every record of a cooperator fits its type.
pub record FitsAll (m : ℕ → ℕ → Option SlashEntity) : Type 0 where
  pub reputation_fits : (era stash : ℕ) → (slash_at m era stash).reputation ≤ u64_max
  pub stake_fits : (era stash : ℕ) → (slash_at m era stash).stake ≤ u128_max

module _ (P : Perbill) (f : Float) (context : SlashContext) where
  cooperators-slash_cooperators :
      (params : SlashParams) (loss prior : SlashEntityPerbill) (others : List IndividualExposure)
      (reward : SlashEntity) (st : SlashStorage)
      → map (λ s. s.0) (slash_cooperators P f context params loss prior others reward st).1
        ≡ map (λ c. c.who) others
  unfolding slash_cooperators slash_cooperator
  cooperators-slash_cooperators params loss prior [] reward st = refl
  cooperators-slash_cooperators params loss prior (c ∷ rest) reward st =
      ap (λ l. c.who ∷ l) (cooperators-slash_cooperators params loss prior rest _ _)

  validator_slash-slash_cooperators :
      (params : SlashParams) (loss prior : SlashEntityPerbill) (others : List IndividualExposure)
      (reward : SlashEntity) (st : SlashStorage)
      → (slash_cooperators P f context params loss prior others reward st).2.validator_slash_in_era
        ≡ st.validator_slash_in_era
  unfolding slash_cooperators slash_cooperator
  validator_slash-slash_cooperators params loss prior [] reward st = refl
  validator_slash-slash_cooperators params loss prior (c ∷ rest) reward st =
      validator_slash-slash_cooperators params loss prior rest _ _

  abbrev pub loss_of : SlashParams → SlashEntityPerbill
  loss_of params = from_rational P (own_slash P f context params).0 (own_slash P f context params).1

  slash_validator_lem :
      (params : SlashParams) (loss prior : SlashEntityPerbill) (own : SlashEntity)
      (st : SlashStorage)
      → let (slash, st') = slash_validator P f context params loss prior own st in
        (slash.validator ≡ params.stash)
        × (map (λ s. s.0) slash.others ≡ map (λ c. c.who) params.exposure.others)
        × (slash.reporters ≡ [])
        × (prior_slash P f context params st' ≡ loss)
  unfolding slash_validator prior_slash
  slash_validator_lem params loss prior own st = (
    refl,
    cooperators-slash_cooperators params loss prior params.exposure.others _ _,
    refl,
    rw (
      validator_slash-slash_cooperators params loss prior params.exposure.others _ _,
      ==_refl params.slash_era,
      ==_refl params.stash,
    ),
  )

  compute_slash-eq_slash_validator :
      (params : SlashParams) (st : SlashStorage) {slash : UnappliedSlash}
      → (compute_slash P f context params st).0 ≡ some slash
      → let loss = loss_of params in
        let own = (own_slash P f context params).0 in
        let prior = prior_slash P f context params st in
        (is_any_zero own ≡ false)
        × (compare_with loss prior ≡ true)
        × (slash ≡ (slash_validator P f context params loss prior own st).0)
        × ((compute_slash P f context params st).1
            ≡ (slash_validator P f context params loss prior own st).1)
  unfolding compute_slash
  compute_slash-eq_slash_validator params st e = ground arith

  -- A computed slash names the validator and every cooperator of its exposure, in order, and no
  -- reporter; and it raises the recorded proportion of the era in one part at least.
  pub compute_slash-eq-some :
      (params : SlashParams) (st : SlashStorage) (slash : UnappliedSlash)
      → (compute_slash P f context params st).0 ≡ some slash
      → let st' = (compute_slash P f context params st).1 in
        (slash.validator ≡ params.stash)
        × (map (λ s. s.0) slash.others ≡ map (λ c. c.who) params.exposure.others)
        × (slash.reporters ≡ [])
        × (compare_with (prior_slash P f context params st') (prior_slash P f context params st)
            ≡ true)
  compute_slash-eq-some params st slash e =
      let (nonzero, larger, same, left) = compute_slash-eq_slash_validator params st e in
      let own = (own_slash P f context params).0 in
      let facts =
        slash_validator_lem params (loss_of params) (prior_slash P f context params st) own st in
      rw (same, left, facts.3) (facts.0, facts.1, facts.2, larger)

  -- Without a larger proportion the offence leaves no trace: nobody is slashed and storage stays.
  pub compute_slash_smaller :
      (params : SlashParams) (st : SlashStorage)
      → is_any_zero (own_slash P f context params).0 ≡ false
      → compare_with (loss_of params) (prior_slash P f context params st) ≡ false
      → compute_slash P f context params st ≡ (none, st)
  unfolding compute_slash
  compute_slash_smaller params st nonzero smaller = ground arith

  era_slash_grows :
      (params : SlashParams) (loss prior : SlashEntityPerbill) (c : IndividualExposure)
      (st : SlashStorage)
      → FitsAll st.cooperator_slash_in_era
      → let m = st.cooperator_slash_in_era in
        let new = cooperator_era_slash P f context params loss prior c st in
        let m' = insert₂ params.slash_era c.who new m in
        FitsAll m' × ((era stash : ℕ) → IsAtMost (slash_at m era stash) (slash_at m' era stash))
  unfolding cooperator_era_slash
  era_slash_grows params loss prior c st fits = (
    record {
      reputation_fits = λ era stash. ground (arith, fits.reputation_fits era stash);
      stake_fits = λ era stash. ground (arith, fits.stake_fits era stash);
    },
    λ era stash. record {
      reputation_le = ground (arith, fits.reputation_fits era stash);
      stake_le = ground (arith, fits.stake_fits era stash);
    },
  )

  -- The slash of a cooperator in an era never falls: after the cooperators of an offence have been
  -- slashed, each record is at least what it was, if all fit their types before.
  pub cooperator_slash_grows :
      (params : SlashParams) (loss prior : SlashEntityPerbill) (others : List IndividualExposure)
      (reward : SlashEntity) (st : SlashStorage) (era stash : ℕ)
      → FitsAll st.cooperator_slash_in_era
      → let st' = (slash_cooperators P f context params loss prior others reward st).2 in
        IsAtMost
          (slash_at st.cooperator_slash_in_era era stash)
          (slash_at st'.cooperator_slash_in_era era stash)
  unfolding slash_cooperators slash_cooperator
  cooperator_slash_grows params loss prior [] reward st era stash fits = omega arith
  cooperator_slash_grows params loss prior (c ∷ rest) reward st era stash fits =
      let grown = era_slash_grows params loss prior c st fits in
      let step = grown.1 era stash in
      let (paid_out, _, st₁) = slash_cooperator P f context params loss prior c reward st in
      let later = cooperator_slash_grows params loss prior rest paid_out st₁ era stash grown.0 in
      omega (arith, step, later)
