-- ===== src/Reputation/Tier/Laws.antt =====
-- How tiers follow the rank of the points (pallets/reputation/src/lib.rs).
use mathlib.Core.Path.{subst}
use power_plant.Prelude.{
  ℕ, ◌≤◌, ◌<◌, ◌≡◌, ◌≢◌, ◌⊎◌, inl, inr, refl, Option, none, some, List, [], ◌∷◌, ◌+◌, ◌-◌, arith,
  Option-cases, u8_max,
}
use power_plant.Reputation.Points.{Float, from_rank, rank}
use power_plant.Reputation.Tier.{
  ReputationTier, vanguard, trailblazer, ultramodern, try_from_rank, tier_rank, relative_rank,
  tier_index, with_zero_rank, middle_rank, zero_threshold, first_rank_points, move_from,
  with_rank_relative_to,
}

-- Every rank but 0 names a tier of that rank, with a relative rank above 0.
pub tier_rank-try_from_rank :
    (r : ℕ)
    → r ≤ u8_max
    → r ≢ 0
    → (t : ReputationTier) × (try_from_rank r ≡ some t) × (tier_rank t ≡ r) × (0 < relative_rank t)
unfolding try_from_rank tier_rank
tier_rank-try_from_rank r h n = elim (Option-cases (try_from_rank r)) [
  | inl none_eq ↦ absurd (ground arith)
  | inr (t, e) ↦ (t, e, ground arith, ground arith)
]

module _ (f : Float) where
  -- The tier is at relative rank 0 and the points do not pass its threshold, or not so.
  abbrev pub IsHeldBack : ReputationTier → ℕ → Type 0
  IsHeldBack t points = (relative_rank t ≡ 0) × (points ≤ zero_threshold f t)

  abbrev pub IsFree : ReputationTier → ℕ → Type 0
  IsFree t points = (relative_rank t ≢ 0) ⊎ (zero_threshold f t < points)

  -- The rank falls, below the first rank of the tier and above its threshold, or not so.
  abbrev pub FallsToZero : ReputationTier → ℕ → Type 0
  FallsToZero t points =
      (rank f points < tier_rank t)
      × (points < first_rank_points f t)
      × (zero_threshold f t < points)

  abbrev pub FallsFreely : ReputationTier → ℕ → Type 0
  FallsFreely t points =
      (tier_rank t ≤ rank f points)
      ⊎ (first_rank_points f t ≤ points)
      ⊎ (points ≤ zero_threshold f t)

  -- What an update may answer from a tier.
  abbrev pub Answers : ReputationTier → ℕ → Option ReputationTier → Type 0
  Answers t points none = (rank f points ≡ 0) ⊎ ((t ≡ vanguard 0) × IsHeldBack t points)
  Answers t points (some u) =
      (rank f points ≢ 0)
      × (((tier_rank u ≡ rank f points)
            × ((rank f points ≡ tier_rank t) ⊎ (IsFree t points × FallsFreely t points)))
          ⊎ ((u ≡ with_zero_rank (tier_index t)) × IsFree t points × FallsToZero t points)
          ⊎ ((tier_rank u ≡ tier_index t - 1 + middle_rank f)
              × (0 < tier_index t)
              × IsHeldBack t points))

  -- From relative rank 0 the answer need not be the tier of the points: with points of rank 1, when the
  -- middle rank is 2, the first update of Trailblazer 0 answers Vanguard 2, and a second one with the
  -- same points Vanguard 1.
  pub zero_rank_updates :
      (points : ℕ)
      → middle_rank f ≡ 2
      → rank f points ≡ 1
      → points ≤ from_rank f 2
      → from_rank f 1 ≤ points
      → (with_rank_relative_to f (some (trailblazer 0)) points ≡ some (vanguard 2))
        × (with_rank_relative_to f (some (vanguard 2)) points ≡ some (vanguard 1))
  unfolding with_rank_relative_to move_from try_from_rank tier_rank zero_threshold first_rank_points
  zero_rank_updates points m r low reached = (ground arith, ground arith)

  -- The updates of a tier by several points, one after the other.
  unfoldable pub updates : Option ReputationTier → List ℕ → Option ReputationTier
  updates tier [] = tier
  updates tier (points ∷ history) = updates (with_rank_relative_to f tier points) history

  -- The points are of a Trailblazer rank, reach the points of their rank, and not those of the next.
  abbrev pub IsTrailblazer : ℕ → Type 0
  IsTrailblazer points =
      (3 < rank f points)
      × (rank f points < 7)
      × (from_rank f (rank f points) ≤ points)
      × (points < from_rank f (rank f points + 1))

  abbrev pub AllTrailblazer : List ℕ → Type 0
  AllTrailblazer [] = Unit
  AllTrailblazer (points ∷ history) = IsTrailblazer points × AllTrailblazer history

  -- The higher ranks take more points, from rank 3 to rank 7.
  abbrev pub IsRising : Type 0
  IsRising =
      (from_rank f 3 < from_rank f 4)
      × (from_rank f 4 < from_rank f 5)
      × (from_rank f 5 < from_rank f 6)
      × (from_rank f 6 < from_rank f 7)

  -- The cases of a number between two.
  from_four_to_six : (r : ℕ) → 3 < r → r < 7 → (r ≡ 4) ⊎ (r ≡ 5) ⊎ (r ≡ 6)
  from_four_to_six r low high = ground arith

  trailblazer_bounds :
      (points : ℕ)
      → IsRising
      → IsTrailblazer points
      → (from_rank f 3 < points) × (points < from_rank f 7)
  trailblazer_bounds points rising (low, high, reached, below) =
      elim (from_four_to_six (rank f points) low high) [
        | inl e ↦
            let a : from_rank f 4 ≤ points = rw (← e) reached in
            let b : points < from_rank f 5 = subst (λ r. points < from_rank f (r + 1)) e below in
            omega arith
        | inr (inl e) ↦
            let a : from_rank f 5 ≤ points = rw (← e) reached in
            let b : points < from_rank f 6 = subst (λ r. points < from_rank f (r + 1)) e below in
            omega arith
        | inr (inr e) ↦
            let a : from_rank f 6 ≤ points = rw (← e) reached in
            let b : points < from_rank f 7 = subst (λ r. points < from_rank f (r + 1)) e below in
            omega arith
      ]

  trailblazer_kept :
      (points : ℕ)
      → middle_rank f ≡ 2
      → 3 < rank f points
      → rank f points < 7
      → (from_rank f 3 < points) × (points < from_rank f 7)
      → with_rank_relative_to f (some (ultramodern 0)) points ≡ some (ultramodern 0)
  unfolding with_rank_relative_to move_from try_from_rank tier_rank zero_threshold first_rank_points
  trailblazer_kept points m low high between = ground arith

  -- If the middle rank is 2 and the ranks from 3 to 7 take more and more points: Ultramodern 0 is kept through any series of updates
  -- with points of Trailblazer ranks (4 to 6) that lie between those of their rank and those of the next.
  pub ultramodern_zero_kept :
      (history : List ℕ)
      → middle_rank f ≡ 2
      → IsRising
      → AllTrailblazer history
      → updates (some (ultramodern 0)) history ≡ some (ultramodern 0)
  unfolding updates
  ultramodern_zero_kept [] m rising all = refl
  ultramodern_zero_kept (points ∷ history) m rising (here, all) =
      let bounds = trailblazer_bounds points rising here in
      let kept = trailblazer_kept points m here.0 here.1 bounds in
      rw kept (ultramodern_zero_kept history m rising all)
