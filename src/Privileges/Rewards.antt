-- ===== src/Privileges/Rewards.antt =====
-- The rewards of a year (pallets/privileges/src/lib.rs): they are set once, and each account claims its
-- share of them.
use power_plant.Prelude.{
  ℕ, Bool, not, Option, none, some, [], ◌∷◌, ltb, leb, ◌==◌, if◌then◌else◌, u128_max,
  saturating_add, ok, err, ◌>>=◌, ◌>>◌, gets, modify, ensure, ok_or, insert, is_some, Assoc, lookup,
  put_in, delete,
}
use power_plant.Privileges.{
  RewardsInfo, Config, Storage, Call, Origin, set_year, deposit_event, ensure_root, ensure_signed,
  rewards_paid, vip_points_forced, vipp_points_forced, not_correct_date, year_rewards_already_set,
  no_rewards_for_account, account_has_not_vip_status, not_enough_tokens_for_claim,
}

-- The sum of the points of a year.
unfoldable pub total_points : ℕ → Assoc ℕ → ℕ
total_points acc [] = acc
total_points acc ((_, points) ∷ m) = total_points (saturating_add u128_max acc points) m

module _ (C : Config) where
  unfoldable pub are_rewards_not_set : ℕ → Storage C → Bool
  are_rewards_not_set year s = not (is_some (s.rewards year))

  unfoldable pub set_member_points : ℕ → ℕ → Call C (Unit {0})
  set_member_points account points = do
    found ← gets (λ s. lookup account s.vip_members)
    info ← ok_or found account_has_not_vip_status
    modify (λ s. record s {
      vip_members = put_in account (record info { points = points }) s.vip_members;
    })

  unfoldable pub force_set_vip_points : Origin → ℕ → ℕ → ℕ → Call C (Unit {0})
  force_set_vip_points origin year account points = do
    ensure_root C origin
    current_year ← gets (λ s. s.current_date.current_year)
    ensure (leb year current_year) not_correct_date
    not_set ← gets (are_rewards_not_set year)
    ensure not_set year_rewards_already_set
    if year == current_year
        then set_member_points account points
        else modify (λ s. record s {
          vip_points = set_year year (put_in account points (s.vip_points year)) s.vip_points;
        })
    deposit_event C (vip_points_forced year account points)

  unfoldable pub set_vipp_member_points : ℕ → ℕ → Call C (Unit {0})
  set_vipp_member_points account points = do
    found ← gets (λ s. lookup account s.vipp_members)
    info ← ok_or found account_has_not_vip_status
    modify (λ s. record s {
      vipp_members = put_in account (record info { points = points }) s.vipp_members;
    })

  unfoldable pub force_set_vipp_points : Origin → ℕ → ℕ → ℕ → Call C (Unit {0})
  force_set_vipp_points origin year account points = do
    ensure_root C origin
    current_year ← gets (λ s. s.current_date.current_year)
    ensure (leb year current_year) not_correct_date
    not_set ← gets (are_rewards_not_set year)
    ensure not_set year_rewards_already_set
    if year == current_year
        then set_vipp_member_points account points
        else modify (λ s. record s {
          vipp_points = set_year year (put_in account points (s.vipp_points year)) s.vipp_points;
        })
    deposit_event C (vipp_points_forced year account points)

  unfoldable pub set_rewards : Origin → ℕ → ℕ → ℕ → Call C (Unit {0})
  set_rewards origin year vip_rewards vipp_rewards = do
    ensure_root C origin
    current_year ← gets (λ s. s.current_date.current_year)
    ensure (ltb year current_year) not_correct_date
    not_set ← gets (are_rewards_not_set year)
    ensure not_set year_rewards_already_set
    modify (λ s. record s {
      rewards =
          insert year
            (record {
              vip_points = total_points 0 (s.vip_points year);
              vip_rewards = vip_rewards;
              vipp_points = total_points 0 (s.vipp_points year);
              vipp_rewards = vipp_rewards;
            })
            s.rewards;
    })

  -- The part of the rewards that some of the points get.
  unfoldable pub share : ℕ → ℕ → ℕ → ℕ
  share points total rewards = C.ratio_mul (C.from_rational points total) rewards

  -- `VipPoints::take`
  abbrev pub take_vip_points : ℕ → ℕ → Storage C → Storage C
  take_vip_points year who s = record s {
    vip_points = set_year year (delete who (s.vip_points year)) s.vip_points;
  }

  abbrev pub take_vipp_points : ℕ → ℕ → Storage C → Storage C
  take_vipp_points year who s = record s {
    vipp_points = set_year year (delete who (s.vipp_points year)) s.vipp_points;
  }

  abbrev vipp_share : RewardsInfo → Option ℕ → ℕ
  vipp_share r none = 0
  vipp_share r (some points) = share points r.vipp_points r.vipp_rewards

  unfoldable pub pay : ℕ → ℕ → Call C (Unit {0})
  pay who amount s = elim (C.transfer C.account_id who amount s.others) [
    | none ↦ (err not_enough_tokens_for_claim, s)
    | some others ↦ (ok tt, record s { others = others })
  ]

  unfoldable pub claim_rewards : Origin → ℕ → Call C (Unit {0})
  claim_rewards origin year = do
    who ← ensure_signed C origin
    found ← gets (λ s. s.rewards year)
    r ← ok_or found no_rewards_for_account
    vip_found ← gets (λ s. lookup who (s.vip_points year))
    modify (take_vip_points year who)
    vip_points ← ok_or vip_found no_rewards_for_account
    let vip_rewards = share vip_points r.vip_points r.vip_rewards
    vipp_found ← gets (λ s. lookup who (s.vipp_points year))
    modify (take_vipp_points year who)
    let vipp_rewards = vipp_share r vipp_found
    pay who (saturating_add u128_max vip_rewards vipp_rewards)
    deposit_event C (rewards_paid who vip_rewards vipp_rewards)
