-- ===== src/Examples/Reputation.antt =====
-- Two accounts with points, under a linear formula: rank 1 takes 27,648,000 points.
use power_plant.Prelude.{ℕ, ◌≡◌, refl, none, some, [], ◌∷◌, arith, empty, insert}
use power_plant.Examples.Toolbox.{linear_float}
use power_plant.Reputation.Points.{from_rank, rank, resulting_rank, ultramodern_3_points}
use power_plant.Reputation.Tier.{
  vanguard, trailblazer, ultramodern, with_rank_relative_to, move_from, middle_rank, tier_rank,
  try_from_rank, first_rank_points, zero_threshold,
}
use power_plant.Reputation.Tier.Laws.{
  IsRising, IsTrailblazer, updates, zero_rank_updates, ultramodern_zero_kept,
}
use power_plant.Reputation.Record.{ReputationRecord}
use power_plant.Reputation.Pallet.{Storage}

abbrev with_points : ℕ → ReputationRecord
with_points n = record { reputation = record { tier = none; points = n }; updated = 50 }

abbrev storage : Storage
storage = record {
  account_reputation = insert 3 (with_points 1000) empty;
  block_number = 80;
  events = [];
}

relative_follows :
    with_rank_relative_to linear_float (some (trailblazer 2)) 100_000_000 ≡ some (trailblazer 0)
unfolding with_rank_relative_to move_from rank resulting_rank from_rank middle_rank tier_rank
    try_from_rank first_rank_points zero_threshold ultramodern_3_points
relative_follows = refl

middle : middle_rank linear_float ≡ 2
unfolding middle_rank
middle = refl

rank_one : rank linear_float 30_000_000 ≡ 1
unfolding rank resulting_rank from_rank ultramodern_3_points
rank_one = refl

rank_four : rank linear_float 120_000_000 ≡ 4
unfolding rank resulting_rank from_rank ultramodern_3_points
rank_four = refl

zero_rank_updates_example :
    (with_rank_relative_to linear_float (some (trailblazer 0)) 30_000_000 ≡ some (vanguard 2))
    × (with_rank_relative_to linear_float (some (vanguard 2)) 30_000_000 ≡ some (vanguard 1))
unfolding from_rank ultramodern_3_points
zero_rank_updates_example =
    zero_rank_updates linear_float 30_000_000 middle rank_one (ground arith) (ground arith)

rank_six : rank linear_float 190_000_000 ≡ 6
unfolding rank resulting_rank from_rank ultramodern_3_points
rank_six = refl

rises : IsRising linear_float
unfolding from_rank ultramodern_3_points
rises = ground arith

four_placed : IsTrailblazer linear_float 120_000_000
unfolding from_rank ultramodern_3_points
four_placed = rw rank_four (ground arith)

six_placed : IsTrailblazer linear_float 190_000_000
unfolding from_rank ultramodern_3_points
six_placed = rw rank_six (ground arith)

ultramodern_zero_kept_example :
    updates linear_float (some (ultramodern 0)) (190_000_000 ∷ 120_000_000 ∷ [])
    ≡ some (ultramodern 0)
ultramodern_zero_kept_example =
    ultramodern_zero_kept linear_float (190_000_000 ∷ 120_000_000 ∷ []) middle rises
      (six_placed, (four_placed, tt))
