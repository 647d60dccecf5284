-- ===== src/Reputation/Tier.antt =====
-- Reputation tiers, `ReputationTier` of pallets/reputation/src/lib.rs. A tier carries its relative
-- rank, a `u8`.
pub mod Laws
use power_plant.Prelude.{
  ℕ, ◌+◌, ◌-◌, ◌*◌, ◌%◌, ◌&&◌, Option, none, some, leb, ltb, ◌==◌, if◌then◌else◌, u8_max,
  saturating_add, saturating_mul, wrapping_add,
}
use power_plant.Reputation.Points.{Float, ranks_per_tier, from_rank, rank}

pub data ReputationTier : Type 0 where
  vanguard trailblazer ultramodern : ℕ → ReputationTier

unfoldable pub try_from_rank : ℕ → Option ReputationTier
try_from_rank r =
    if r == 0
    then none
    else if leb r ranks_per_tier
    then some (vanguard r)
    else if ltb ranks_per_tier r && leb r (ranks_per_tier * 2)
    then some (trailblazer (r - ranks_per_tier))
    else some (ultramodern (r - ranks_per_tier * 2))

abbrev pub relative_rank : ReputationTier → ℕ
relative_rank (vanguard r) = r
relative_rank (trailblazer r) = r
relative_rank (ultramodern r) = r

abbrev pub tier_index : ReputationTier → ℕ
tier_index (vanguard _) = 0
tier_index (trailblazer _) = 1
tier_index (ultramodern _) = 2

-- `ReputationTier::rank`
unfoldable pub tier_rank : ReputationTier → ℕ
tier_rank t =
    saturating_add u8_max (relative_rank t) (saturating_mul u8_max (tier_index t) ranks_per_tier)

-- The argument is a tier index, so at most 2: the `unreachable!` arm behind it is not modelled.
abbrev pub with_zero_rank : ℕ → ReputationTier
with_zero_rank i = if i == 0 then vanguard 0 else if i == 1 then trailblazer 0 else ultramodern 0

module _ (f : Float) where
  unfoldable pub middle_rank : ℕ
  middle_rank = f.as_u8 (f.ceil (f.div (f.of_nat ranks_per_tier) f.normal))

  abbrev lower_index : ReputationTier → ℕ
  lower_index t = tier_index t - 1

  unfoldable pub zero_threshold : ReputationTier → ℕ
  zero_threshold t = from_rank f (wrapping_add u8_max (lower_index t) (middle_rank))

  unfoldable pub first_rank_points : ReputationTier → ℕ
  first_rank_points t =
      from_rank f (wrapping_add u8_max (tier_index t * ranks_per_tier % (u8_max + 1)) 1)

  -- The part of `with_rank_relative_to` behind the early returns.
  unfoldable pub move_from : ReputationTier → ℕ → Option ReputationTier
  move_from t new_points =
      if relative_rank t == 0 && leb new_points (zero_threshold t)
      then (if lower_index t == 0 && lower_index t == tier_index t
          then none
          else try_from_rank (wrapping_add u8_max (lower_index t) middle_rank))
      else if ltb (rank f new_points) (tier_rank t)
          && ltb new_points (first_rank_points t)
          && ltb (zero_threshold t) new_points
      then some (with_zero_rank (tier_index t))
      else try_from_rank (rank f new_points)

  unfoldable pub with_rank_relative_to : Option ReputationTier → ℕ → Option ReputationTier
  with_rank_relative_to relative_to new_points =
      if rank f new_points == 0 then none else elim relative_to [
        | none ↦ try_from_rank (rank f new_points)
        | some t ↦ if rank f new_points == tier_rank t then some t else move_from t new_points
      ]
