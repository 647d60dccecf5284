-- ===== src/Examples/Privileges.antt =====
-- VIP members 3 and 4 in the year 2024, with the rewards of 2023 set; and account 3 with VIPP items.
use power_plant.Prelude.{
  ℕ, ◌-◌, ◌*◌, ◌/◌, ◌≡◌, ◌≢◌, refl, inr, min, false, none, some, List, [], ◌∷◌, arith, leb, ◌==◌,
  if◌then◌else◌, ok, err, empty, lookup, delete,
}
use power_plant.Privileges.{
  VipMemberInfo, VippMemberInfo, declining, Config, Storage, Origin, root, signed,
  no_rewards_for_account,
}
use power_plant.Privileges.Points.{save_year_info, clear_points, clear_vipp_points}
use power_plant.Privileges.Membership.{do_exit_vip, slash_member, is_penalty_free_period}
use power_plant.Privileges.Rewards.{
  claim_rewards, share, pay, force_set_vip_points, are_rewards_not_set,
}
use power_plant.Privileges.Pallet.{
  Extrinsic, time_updates, claims, sets_rewards, forces_vip_points, dispatch, call,
}
use power_plant.Privileges.Pallet.Kept.{Kept, YearIsOver}
use power_plant.Privileges.Pallet.Frozen.{run, run-Kept, claim_rewards_once}
use power_plant.Privileges.Pallet.Laws.{save_year_info_lem, points_or, points_at, changed}
use power_plant.Privileges.Exit.{together, do_exit_vip_ends, Exited, slash_both, NacState}
use power_plant.Examples.Toolbox.{floor_perbill}
use power_plant.Examples.Calendar.{gregorian, gregorian-IsCalendar}
use power_plant.Examples.Registry.{registry-IsRegistry}
use power_plant.Examples.NacManaging as Nac

-- The state is the account of the rewards; fractions are pairs.
abbrev config : Config
config = record {
  State = ℕ;
  calendar = gregorian;
  perbill = floor_perbill;
  from_percent = λ percent. min percent 100 * 10_000_000;
  Ratio = ℕ × ℕ;
  from_rational = λ p q. (p, q);
  ratio_mul = λ r x. r.0 * x / r.1;
  now_millis = λ x. 1_710_000_000_000;
  get_active_stake = λ who x. 500;
  is_user_validator = λ who x. who == 5;
  cooperator_targets = λ who x. none;
  slash_vip_account = λ who percent x. some x;
  can_mint_vipp = λ who x. (none, x);
  burn_vipp_nft = λ who x. (false, x.0, x.1);
  owned_vipps = λ who x. 0;
  transfer = λ source dest amount x. if leb amount x then some (x - amount) else none;
  account_id = 99;
}

abbrev member_with : ℕ → ℕ → VipMemberInfo
member_with points stake = record {
  start = 0;
  tax_type = declining;
  points = points;
  active_stake = stake;
}

abbrev storage : Storage config
storage = record {
  vip_members = (3, member_with 40 1000) ∷ (4, member_with 60 2000) ∷ [];
  vipp_members = (3, record { points = 7; active_vipp_threshold = (7, 300) ∷ [] }) ∷ [];
  vip_points = λ year. if year == 2023 then (3, 30) ∷ (4, 10) ∷ [] else [];
  vipp_points = λ year. [];
  rewards = λ year.
      if year == 2023
      then some (record { vip_points = 40; vip_rewards = 1000; vipp_points = 0; vipp_rewards = 0 })
      else none;
  current_date = record {
    current_year = 2024;
    current_month = 3;
    current_day = 9;
    current_quarter = 1;
    days_since_new_year = 68;
  };
  events = [];
  others = 5000;
}

abbrev calls : List (Origin × Extrinsic)
calls =
    (root, sets_rewards 2023 9 9)
    ∷ (root, time_updates 2025 1 2)
    ∷ (root, forces_vip_points 2023 3 1000)
    ∷ (signed 4, claims 2023)
    ∷ []

set_2023 : storage.rewards 2023 ≢ none
set_2023 e = absurd (ground arith)

run-Kept_example :
    Kept config 2023 3 storage (run config 2023 3 calls storage)
    × YearIsOver config 2023 3 (run config 2023 3 calls storage)
run-Kept_example = run-Kept config 2023 3 calls storage gregorian-IsCalendar set_2023 (omega arith)

abbrev earlier_calls : List (Origin × Extrinsic)
earlier_calls = (signed 4, claims 2023) ∷ (root, forces_vip_points 2023 3 1000) ∷ []

claim_rewards_once_example :
    let s = run config 2023 3 earlier_calls storage in
    let s' = run config 2023 3 calls (dispatch config (signed 3) (claims 2023) s).1 in
    dispatch config (signed 3) (claims 2023) s' ≡ (err no_rewards_for_account, s')
unfolding dispatch call claim_rewards lookup pay share run force_set_vip_points delete
    are_rewards_not_set
claim_rewards_once_example =
    claim_rewards_once config 2023 3 earlier_calls calls storage gregorian-IsCalendar
      (inr (omega arith)) refl

save_year_info_lem_example :
    let s' = save_year_info config 2024 storage in
    (lookup 3 (s'.vip_points 2024)
      ≡ points_or
          (points_at (λ (v : VipMemberInfo). v.points) (lookup 3 storage.vip_members))
          (lookup 3 (storage.vip_points 2024)))
    × (lookup 3 (s'.vipp_points 2024)
        ≡ points_or
            (points_at (λ (v : VippMemberInfo). v.points) (lookup 3 storage.vipp_members))
            (lookup 3 (storage.vipp_points 2024)))
    × (s'.vip_points 2023 ≡ storage.vip_points 2023)
    × (s'.vipp_points 2023 ≡ storage.vipp_points 2023)
    × (lookup 3 s'.vip_members ≡ changed clear_points (lookup 3 storage.vip_members))
    × (lookup 3 s'.vipp_members ≡ changed clear_vipp_points (lookup 3 storage.vipp_members))
unfolding lookup
save_year_info_lem_example =
    save_year_info_lem config 2024 2023 3 storage (refl, (refl, tt)) (refl, tt)
      (λ e. absurd (omega arith))

abbrev nac_state : NacState Nac.config
nac_state = record {
  users_nft = empty;
  registry = Nac.items;
  members = [];
  balances = 300;
  reputation = (Nac.storage 300).reputation;
  events = [];
}

-- Account 3 with the NAC pallet of the other examples.
abbrev both_storage : Storage (together Nac.config config)
both_storage = record {
  vip_members = storage.vip_members;
  vipp_members = storage.vipp_members;
  vip_points = storage.vip_points;
  vipp_points = storage.vipp_points;
  rewards = storage.rewards;
  current_date = storage.current_date;
  events = [];
  others = (nac_state, 5000);
}

do_exit_vip_ends_example :
    let (r, s') = do_exit_vip (together Nac.config config) 3 both_storage in
    (r ≡ ok tt)
    × (lookup 3 s'.vip_members ≡ none)
    × Exited Nac.config 3 config registry-IsRegistry Nac.apart both_storage s'
unfolding slash_member lookup is_penalty_free_period slash_both
do_exit_vip_ends_example =
    do_exit_vip_ends Nac.config 3 config registry-IsRegistry Nac.apart (member_with 40 1000)
      both_storage refl refl
