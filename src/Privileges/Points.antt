-- ===== src/Privileges/Points.antt =====
-- The points of the VIP and VIPP members for a day, and those kept for a year
-- (pallets/privileges/src/lib.rs).
use power_plant.Prelude.{
  ℕ, ◌+◌, ◌≡◌, refl, sym, ap, inl, inr, Option, none, some, [], ◌∷◌, arith, leb, ◌==◌,
  if◌then◌else◌, Bool-cases, u128_max, add128, saturating_add, Assoc, lookup, put_in,
}
use power_plant.Privileges.{VipMemberInfo, VippMemberInfo, Config, Storage, set_year}

-- `StorageMap::translate` with a function that keeps each entry.
unfoldable pub translate : {V : Type 0} → (ℕ → V → V) → Assoc V → Assoc V
translate f [] = []
translate f ((k, v) ∷ m) = (k, f k v) ∷ translate f m

pub lookup-translate :
    {V : Type 0} (f : ℕ → V → V) (k : ℕ) (m : Assoc V)
    → lookup k (translate f m) ≡ elim (lookup k m) [ none ↦ none | some v ↦ some (f k v) ]
unfolding lookup translate
lookup-translate f k [] = refl
lookup-translate f k ((j, v) ∷ m) = elim (Bool-cases (k == j)) [
  | inl t ↦ let same : k ≡ j = ground arith in rw t (ap (λ i. some (f i v)) (sym same))
  | inr t ↦ rw t (lookup-translate f k m)
]

-- The points that the members have, written into the year's.
unfoldable pub insert_points : {V : Type 0} → (V → ℕ) → Assoc V → Assoc ℕ → Assoc ℕ
insert_points points_of [] year_points = year_points
insert_points points_of ((k, v) ∷ m) year_points =
    insert_points points_of m (put_in k (points_of v) year_points)

unfoldable pub total_threshold : ℕ → Assoc ℕ → ℕ
total_threshold acc [] = acc
total_threshold acc ((_, balance) ∷ thresholds) = total_threshold (add128 acc balance) thresholds

abbrev pub stake_or_zero : Option VipMemberInfo → ℕ
stake_or_zero none = 0
stake_or_zero (some info) = info.active_stake

abbrev pub add_points : ℕ → VipMemberInfo → VipMemberInfo
add_points points info = record info { points = saturating_add u128_max info.points points }

abbrev pub add_vipp_points : ℕ → VippMemberInfo → VippMemberInfo
add_vipp_points points info = record info { points = saturating_add u128_max info.points points }

abbrev pub clear_points : VipMemberInfo → VipMemberInfo
clear_points info = record info { points = 0 }

abbrev pub clear_vipp_points : VippMemberInfo → VippMemberInfo
clear_vipp_points info = record info { points = 0 }

module _ (C : Config) where
  unfoldable pub calculate_multiplier : ℕ → C.Ratio
  calculate_multiplier elapsed_day = C.from_rational 1 (50 + elapsed_day)

  unfoldable pub calculate_points : ℕ → C.Ratio → ℕ
  calculate_points active_stake multiplier = C.ratio_mul multiplier active_stake

  unfoldable pub day_points : ℕ → VipMemberInfo → ℕ
  day_points elapsed_day info =
      calculate_points info.active_stake (calculate_multiplier elapsed_day)

  unfoldable pub update_points_for_time : ℕ → Storage C → Storage C
  update_points_for_time elapsed_day s = if elapsed_day == 0 then s else record s {
    vip_members = translate (λ _ info. add_points (day_points elapsed_day info) info) s.vip_members;
  }

  -- The smaller one of the thresholds and the active stake.
  unfoldable pub day_vipp_points : Option VipMemberInfo → VippMemberInfo → ℕ
  day_vipp_points vip info =
      let threshold = total_threshold 0 info.active_vipp_threshold in
      if leb (stake_or_zero vip) threshold then stake_or_zero vip else threshold

  unfoldable pub update_vipp_points_for_time : ℕ → Storage C → Storage C
  update_vipp_points_for_time elapsed_day s = if elapsed_day == 0 then s else record s {
    vipp_members =
        translate
          (λ who info. add_vipp_points (day_vipp_points (lookup who s.vip_members) info) info)
          s.vipp_members;
  }

  unfoldable pub save_year_info : ℕ → Storage C → Storage C
  save_year_info year s = record s {
    vip_points =
        set_year year
          (insert_points (λ (info : VipMemberInfo). info.points) s.vip_members (s.vip_points year))
          s.vip_points;
    vip_members = translate (λ _ info. clear_points info) s.vip_members;
    vipp_points =
        set_year year
          (insert_points (λ (info : VippMemberInfo). info.points) s.vipp_members
            (s.vipp_points year))
          s.vipp_points;
    vipp_members = translate (λ _ info. clear_vipp_points info) s.vipp_members;
  }
