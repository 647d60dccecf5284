-- ===== src/Slashing/Entity.antt =====
-- `SlashEntity` and `SlashEntityPerbill` of pallets/energy-generation/src/slashing.rs: a pair of
-- reputation points (`u64`) and stake (`u128`), and a pair of proportions.
use power_plant.Prelude.{
  ℕ, ◌-◌, ◌≤◌, Bool, ◌&&◌, ◌||◌, ltb, ◌==◌, wrapping_add, saturating_add, u64_max, u128_max,
}

abbrev pub billion : ℕ
billion = 1_000_000_000

-- `Perbill` of sp_arithmetic, whose values are numbers of parts: its product with an integer rounds
-- in a way that the code does not rely on, and a proportion of at most one takes at most everything.
pub record Perbill : Type 0 where
  pub scale : ℕ → ℕ → ℕ
  pub from_rational : ℕ → ℕ → ℕ
  pub scale_le : (p x : ℕ) → p ≤ billion → scale p x ≤ x

-- `REWARD_F1`, `Perbill::from_percent(50)`.
abbrev pub reward_f1 : ℕ
reward_f1 = 500_000_000

pub record SlashEntity : Type 0 where
  pub reputation : ℕ
  pub stake : ℕ

pub record SlashEntityPerbill : Type 0 where
  pub reputation : ℕ
  pub stake : ℕ

abbrev pub zero_entity : SlashEntity
zero_entity = record { reputation = 0; stake = 0 }

abbrev pub one_entity : SlashEntity
one_entity = record { reputation = 1; stake = 1 }

abbrev pub zero_perbill : SlashEntityPerbill
zero_perbill = record { reputation = 0; stake = 0 }

abbrev pub is_zero : SlashEntity → Bool
is_zero e = e.reputation == 0 && e.stake == 0

abbrev pub is_any_zero : SlashEntity → Bool
is_any_zero e = e.reputation == 0 || e.stake == 0

abbrev pub add : SlashEntity → SlashEntity → SlashEntity
add a b = record {
  reputation = wrapping_add u64_max a.reputation b.reputation;
  stake = wrapping_add u128_max a.stake b.stake;
}

abbrev pub entity_saturating_add : SlashEntity → SlashEntity → SlashEntity
entity_saturating_add a b = record {
  reputation = saturating_add u64_max a.reputation b.reputation;
  stake = saturating_add u128_max a.stake b.stake;
}

abbrev pub entity_saturating_sub : SlashEntity → SlashEntity → SlashEntity
entity_saturating_sub a b = record {
  reputation = a.reputation - b.reputation;
  stake = a.stake - b.stake;
}

-- `prior` against the new proportions: `true` is `UpdateDecision::Update`.
abbrev pub compare_with : SlashEntityPerbill → SlashEntityPerbill → Bool
compare_with new prior = ltb prior.reputation new.reputation || ltb prior.stake new.stake

module _ (P : Perbill) where
  -- `SlashEntity * Perbill`
  abbrev pub mul : SlashEntity → ℕ → SlashEntity
  mul e p = record { reputation = P.scale p e.reputation; stake = P.scale p e.stake }

  -- `SlashEntity * SlashEntityPerbill`
  abbrev pub mul_each : SlashEntity → SlashEntityPerbill → SlashEntity
  mul_each e p = record {
    reputation = P.scale p.reputation e.reputation;
    stake = P.scale p.stake e.stake;
  }

  abbrev pub from_rational : SlashEntity → SlashEntity → SlashEntityPerbill
  from_rational p q = record {
    reputation = P.from_rational p.reputation q.reputation;
    stake = P.from_rational p.stake q.stake;
  }

-- `a` is at most `b` in both parts.
pub record IsAtMost (a b : SlashEntity) : Type 0 where
  pub reputation_le : a.reputation ≤ b.reputation
  pub stake_le : a.stake ≤ b.stake
