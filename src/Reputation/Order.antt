-- ===== src/Reputation/Order.antt =====
-- The derived orders of `ReputationTier` and `Reputation` (pallets/reputation/src/lib.rs): variants
-- in order of their declaration, then their ranks; no tier before any tier; tiers before points.
use power_plant.Prelude.{
  Bool, true, false, ◌&&◌, ◌||◌, Option, none, some, ltb, leb, ◌==◌, if◌then◌else◌,
}
use power_plant.Reputation.Tier.{ReputationTier, relative_rank, tier_index}
use power_plant.Reputation.Record.{Reputation}

unfoldable pub tier_leb : ReputationTier → ReputationTier → Bool
tier_leb a b =
    ltb (tier_index a) (tier_index b)
    || (tier_index a == tier_index b && leb (relative_rank a) (relative_rank b))

abbrev option_tier_leb : Option ReputationTier → Option ReputationTier → Bool
option_tier_leb none b = true
option_tier_leb (some a) none = false
option_tier_leb (some a) (some b) = tier_leb a b

unfoldable pub reputation_ltb : Reputation → Reputation → Bool
reputation_ltb r r' =
    if option_tier_leb r'.tier r.tier
    then option_tier_leb r.tier r'.tier && ltb r.points r'.points
    else true
