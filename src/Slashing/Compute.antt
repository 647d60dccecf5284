-- ===== src/Slashing/Compute.antt =====
-- `compute_slash` and what it calls (pallets/energy-generation/src/slashing.rs), with the exposure
-- and the slash record of pallets/energy-generation/src/lib.rs. The slash is only computed here, and
-- metadata is written; it is applied later.
pub mod Eras
use power_plant.Prelude.{
  ℕ, ◌+◌, ◌-◌, Option, none, some, List, [], ◌∷◌, if◌then◌else◌, ◌==◌, ◌&&◌, StorageMap, unwrap_or,
}
use power_plant.Reputation.Points.{Float, ranks_per_tier, from_rank}
use power_plant.Reputation.Tier.{ReputationTier, tier_rank}
use power_plant.Reputation.Record.{Reputation, ReputationRecord, with_blocknumber}
use power_plant.Slashing.Entity.{
  Perbill, SlashEntity, SlashEntityPerbill, zero_entity, zero_perbill, is_any_zero, add,
  entity_saturating_add, entity_saturating_sub, compare_with, mul, mul_each, from_rational,
}
use power_plant.Slashing.Inspect.{SpanStorage, slash_in_spans, kick_out_in_spans}
use power_plant.Slashing.Disabling.{ActiveSet, Disabled, add_offending_validator}

pub record IndividualExposure : Type 0 where
  pub who : ℕ
  pub value : ℕ

pub record Exposure : Type 0 where
  pub total : ℕ
  pub own : ℕ
  pub others : List IndividualExposure

pub record UnappliedSlash : Type 0 where
  pub validator : ℕ
  pub own : SlashEntity
  pub others : List (ℕ × SlashEntity)
  pub reporters : List ℕ
  pub payout : SlashEntity

pub record SlashParams : Type 0 where
  pub stash : ℕ
  pub slash : ℕ  -- a Perbill
  pub exposure : Exposure
  pub slash_era : ℕ
  pub window_start : ℕ
  pub now : ℕ
  pub reward_proportion : ℕ  -- a Perbill

-- `ValidatorSlashInEra` and `CooperatorSlashInEra` by era and stash, with the rest of the metadata.
pub record SlashStorage : Type 0 where
  pub spans : SpanStorage
  pub validator_slash_in_era : ℕ → ℕ → Option (SlashEntityPerbill × SlashEntity)
  pub cooperator_slash_in_era : ℕ → ℕ → Option SlashEntity
  pub disabled : Disabled

-- What is only read: the reputation of accounts, the block number, and the active set.
pub record SlashContext : Type 0 where
  pub account_reputation : StorageMap ReputationRecord
  pub block_number : ℕ
  pub active_set : ActiveSet

abbrev pub insert₂ {ℓ} : {V : Type ℓ} → ℕ → ℕ → V → (ℕ → ℕ → Option V) → ℕ → ℕ → Option V
insert₂ era stash v m e k = if e == era && k == stash then some v else m e k

abbrev rank_or_zero : Option ReputationTier → ℕ
rank_or_zero none = 0
rank_or_zero (some t) = tier_rank t

-- `SlashEntity::max_slash_amount`; one more than the ranks of a tier, to count rank 0.
unfoldable pub max_slash_amount : Float → Reputation → ℕ → SlashEntity
max_slash_amount f r stake = record {
  reputation = r.points - from_rank f (rank_or_zero r.tier - (ranks_per_tier + 1));
  stake = stake;
}

abbrev points_or_default : Option ReputationRecord → ℕ
points_or_default none = 0
points_or_default (some r) = r.reputation.points

abbrev prior_proportion : Option (SlashEntityPerbill × SlashEntity) → SlashEntityPerbill
prior_proportion none = zero_perbill
prior_proportion (some (p, _)) = p

module _ (P : Perbill) (f : Float) (context : SlashContext) where
  unfoldable pub kick_out_if_recent : SlashParams → SlashStorage → SlashStorage
  kick_out_if_recent params st = record st {
    spans =
        kick_out_in_spans params.stash params.window_start params.reward_proportion params.slash_era
          params.now st.spans;
    disabled = add_offending_validator context.active_set params.stash params.slash_era st.disabled;
  }

  -- The era slash of a cooperator, which is written to storage: it grows by the difference of the
  -- two proportions of what is exposed.
  unfoldable pub cooperator_era_slash :
      SlashParams
      → SlashEntityPerbill
      → SlashEntityPerbill
      → IndividualExposure
      → SlashStorage
      → SlashEntity
  cooperator_era_slash params validator_loss prior_slash_p cooperator st =
      let exposed : SlashEntity = record {
        reputation = points_or_default (context.account_reputation cooperator.who);
        stake = cooperator.value;
      } in
      entity_saturating_add
        (unwrap_or (st.cooperator_slash_in_era params.slash_era cooperator.who) zero_entity)
        (entity_saturating_sub (mul_each P exposed validator_loss)
          (mul_each P exposed prior_slash_p))

  -- The body of the loop over the cooperators: the reward paid so far, the amount slashed.
  unfoldable pub slash_cooperator :
      SlashParams
      → SlashEntityPerbill
      → SlashEntityPerbill
      → IndividualExposure
      → SlashEntity
      → SlashStorage
      → SlashEntity × SlashEntity × SlashStorage
  slash_cooperator params validator_loss prior_slash_p cooperator reward_payout st =
      let era_slash = cooperator_era_slash params validator_loss prior_slash_p cooperator st in
      let (paid_out, coop_slashed, spans) =
        slash_in_spans P cooperator.who params.window_start params.reward_proportion
          params.slash_era params.now era_slash reward_payout st.spans in
      (
        paid_out,
        coop_slashed,
        record st {
          spans = spans;
          cooperator_slash_in_era =
              insert₂ params.slash_era cooperator.who era_slash st.cooperator_slash_in_era;
        },
      )

  -- `slash_cooperators`: the reward so far is passed along; the answer has the slashed cooperators
  -- in the order of the exposure.
  unfoldable pub slash_cooperators :
      SlashParams
      → SlashEntityPerbill
      → SlashEntityPerbill
      → List IndividualExposure
      → SlashEntity
      → SlashStorage
      → SlashEntity × List (ℕ × SlashEntity) × SlashStorage
  slash_cooperators params validator_loss prior_slash_p [] reward_payout st =
      (reward_payout, [], st)
  slash_cooperators params validator_loss prior_slash_p (cooperator ∷ rest) reward_payout st =
      let (paid_out, coop_slashed, st₁) =
        slash_cooperator params validator_loss prior_slash_p cooperator reward_payout st in
      let (reward, slashed, st₂) =
        slash_cooperators params validator_loss prior_slash_p rest paid_out st₁ in
      (reward, (cooperator.who, coop_slashed) ∷ slashed, st₂)

  -- The two amounts from which everything is computed: the slash of the validator, and what the
  -- loss is measured against.
  unfoldable pub own_slash : SlashParams → SlashEntity × SlashEntity
  own_slash params =
      let r =
        unwrap_or (context.account_reputation params.stash)
          (with_blocknumber context.block_number) in
      (
        mul P (max_slash_amount f r.reputation params.exposure.own) params.slash,
        record { reputation = r.reputation.points; stake = params.exposure.own },
      )

  unfoldable pub prior_slash : SlashParams → SlashStorage → SlashEntityPerbill
  prior_slash params st = prior_proportion (st.validator_slash_in_era params.slash_era params.stash)

  -- The part of `compute_slash` behind `UpdateDecision::Update`.
  unfoldable pub slash_validator :
      SlashParams
      → SlashEntityPerbill
      → SlashEntityPerbill
      → SlashEntity
      → SlashStorage
      → UnappliedSlash × SlashStorage
  slash_validator params validator_loss prior_slash_p own st =
      let (paid_out, val_slashed, spans) =
        slash_in_spans P params.stash params.window_start params.reward_proportion params.slash_era
          params.now own zero_entity st.spans in
      let (reward, cooperators_slashed, st') =
        slash_cooperators params validator_loss prior_slash_p params.exposure.others zero_entity
          (record st {
            spans = spans;
            validator_slash_in_era =
                insert₂ params.slash_era params.stash (validator_loss, own)
                  st.validator_slash_in_era;
            disabled =
                add_offending_validator context.active_set params.stash params.slash_era
                  st.disabled;
          }) in
      (
        record {
          validator = params.stash;
          own = val_slashed;
          others = cooperators_slashed;
          reporters = [];
          payout = add paid_out reward;
        },
        st',
      )

  abbrev slashed_with : UnappliedSlash × SlashStorage → Option UnappliedSlash × SlashStorage
  slashed_with (slash, st) = (some slash, st)

  unfoldable pub compute_slash : SlashParams → SlashStorage → Option UnappliedSlash × SlashStorage
  compute_slash params st =
      let (own, current_values) = own_slash params in
      let prior_slash_p = prior_slash params st in
      let validator_loss = from_rational P own current_values in
      if is_any_zero own
      then (none, kick_out_if_recent params st)
      else if compare_with validator_loss prior_slash_p
      then slashed_with (slash_validator params validator_loss prior_slash_p own st)
      else (none, st)
