-- ===== src/Reputation/Points.antt =====
-- Reputation points (`u64`) and their ranks (`u8`), `ReputationPoint` of
-- pallets/reputation/src/lib.rs. The ranking formula is written over `f64` and libm, which are the
-- parameter `Float`.
use power_plant.Prelude.{ℕ, ◌-◌, ◌*◌, ltb, if◌then◌else◌}

-- Double-precision numbers: the casts from and to integers, `*`, `/`, and libm's `pow` and `ceil`.
pub record Float : Type 1 where
  pub F : Type 0
  pub of_nat : ℕ → F
  pub as_u8 : F → ℕ
  pub as_u64 : F → ℕ
  pub mul : F → F → F
  pub div : F → F → F
  pub pow : F → F → F
  pub ceil : F → F
  pub curvature : F  -- 1.6
  pub normal : F  -- 2.0

abbrev pub reputation_points_per_block : ℕ
reputation_points_per_block = 24

abbrev pub reputation_points_per_day : ℕ
reputation_points_per_day = reputation_points_per_block * 10 * 60 * 24

abbrev pub reputation_points_per_month : ℕ
reputation_points_per_month = reputation_points_per_day * 30

abbrev pub reputation_points_per_year : ℕ
reputation_points_per_year = reputation_points_per_month * 12

abbrev pub ranks_per_u3 : ℕ
ranks_per_u3 = 9

abbrev pub ranks_per_tier : ℕ
ranks_per_tier = 3

module _ (f : Float) where
  unfoldable pub ultramodern_3_points : ℕ
  ultramodern_3_points = f.as_u64 (f.mul (f.of_nat reputation_points_per_year) f.normal)

  -- `ReputationPoint::from_rank`
  unfoldable pub from_rank : ℕ → ℕ
  from_rank r = f.as_u64 (
      f.mul (f.of_nat ultramodern_3_points)
        (f.pow (f.div (f.of_nat r) (f.of_nat ranks_per_u3)) f.curvature))

  -- The formula's answer, before the correction at the edge of a rank.
  unfoldable pub resulting_rank : ℕ → ℕ
  resulting_rank points = f.as_u8 (
      f.ceil (
        f.mul
          (f.pow (f.div (f.of_nat points) (f.of_nat ultramodern_3_points))
            (f.div (f.of_nat 1) f.curvature))
          (f.of_nat ranks_per_u3)))

  -- `ReputationPoint::rank`; `saturating_sub(1)` is the truncated difference.
  unfoldable pub rank : ℕ → ℕ
  rank points = let r = resulting_rank points in if ltb points (from_rank r) then r - 1 else r
