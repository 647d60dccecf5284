-- ===== src/Reputation/Record.antt =====
-- `Reputation` and `ReputationRecord` of pallets/reputation/src/lib.rs: points with their tier, and
-- the block at which the time in the network was last rewarded.
pub mod Laws
use power_plant.Prelude.{
  ℕ, ◌-◌, Option, none, leb, if◌then◌else◌, u64_max, saturating_add, saturating_mul,
}
use power_plant.Reputation.Points.{Float, reputation_points_per_block, rank}
use power_plant.Reputation.Tier.{ReputationTier, try_from_rank, with_rank_relative_to}

pub record Reputation : Type 0 where
  pub tier : Option ReputationTier
  pub points : ℕ

-- `Default::default()`
abbrev pub no_reputation : Reputation
no_reputation = record { tier = none; points = 0 }

pub record ReputationRecord : Type 0 where
  pub reputation : Reputation
  pub updated : ℕ

abbrev pub with_blocknumber : ℕ → ReputationRecord
with_blocknumber updated = record { reputation = no_reputation; updated = updated }

-- `ReputationRecord::calculate`
unfoldable pub calculate : ℕ → ℕ → ℕ
calculate start end =
    if leb end start then 0 else saturating_mul u64_max reputation_points_per_block (end - start)

module _ (f : Float) where
  -- `Reputation::update`
  unfoldable pub update : ℕ → Reputation → Reputation
  update new_points r = record {
    tier = with_rank_relative_to f r.tier new_points;
    points = new_points;
  }

  unfoldable pub increase : ℕ → Reputation → Reputation
  increase points r = update (saturating_add u64_max r.points points) r

  -- `saturating_sub` stops at 0, as the truncated difference does.
  unfoldable pub decrease : ℕ → Reputation → Reputation
  decrease points r = update (r.points - points) r

  -- `From<ReputationPoint>`
  abbrev pub from_points : ℕ → Reputation
  from_points points = record { tier = try_from_rank (rank f points); points = points }

  unfoldable pub update_with_block_number : ℕ → ReputationRecord → ReputationRecord
  update_with_block_number block_number r = record {
    reputation = increase (calculate r.updated block_number) r.reputation;
    updated = block_number;
  }
