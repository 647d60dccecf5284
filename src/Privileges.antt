-- ===== src/Privileges.antt =====
-- The storage of pallets/privileges/src/lib.rs, its data (also of src/contribution_info.rs), and what
-- the pallet asks of the calendar and of the other pallets. Years are those of the common era.
pub mod Dates
pub mod Points
pub mod Membership
pub mod Rewards
pub mod Pallet
pub mod Exit
use power_plant.Prelude.{
  ℕ, suc, ◌≤◌, ◌≡◌, ◌≢◌, ◌⊎◌, Bool, Option, some, List, ◌∷◌, ◌==◌, if◌then◌else◌, Action, pure,
  raise, modify, StorageMap, Assoc,
}
use power_plant.Slashing.Entity.{Perbill}

-- What the code uses of the crate `chrono`. `num_days a b` are the days from `b` to `a`.
pub record Calendar : Type 1 where
  pub NaiveDate : Type 0
  pub from_ymd_opt : ℕ → ℕ → ℕ → Option NaiveDate
  pub checked_add_days : ℕ → NaiveDate → Option NaiveDate
  pub num_days : NaiveDate → NaiveDate → ℕ
  pub year : NaiveDate → ℕ
  pub month : NaiveDate → ℕ
  pub day : NaiveDate → ℕ
  pub from_timestamp : ℕ → Option NaiveDate

-- The day after a date is in the same year and not its first, or the first of the next year; the years of the
-- calendar fit 32 bits.
pub record IsCalendar (K : Calendar) : Type 0 where
  pub next_day :
      {y m d : ℕ} {a b : K.NaiveDate}
      → K.from_ymd_opt y m d ≡ some a
      → K.checked_add_days 1 a ≡ some b
      → ((K.year b ≡ y) × ((K.month b ≢ 1) ⊎ (K.day b ≢ 1)))
        ⊎ ((K.year b ≡ suc y) × (K.month b ≡ 1) × (K.day b ≡ 1))
  pub year_le : (a : K.NaiveDate) → K.year a ≤ 262_142

pub record CurrentDateInfo : Type 0 where
  pub current_year : ℕ
  pub current_month : ℕ
  pub current_day : ℕ
  pub current_quarter : ℕ
  pub days_since_new_year : ℕ

pub data PenaltyType : Type 0 where
  declining flat : PenaltyType

pub record VipMemberInfo : Type 0 where
  pub start : ℕ
  pub tax_type : PenaltyType
  pub points : ℕ
  pub active_stake : ℕ

pub record VippMemberInfo : Type 0 where
  pub points : ℕ
  pub active_vipp_threshold : Assoc ℕ

pub record RewardsInfo : Type 0 where
  pub vip_points : ℕ
  pub vip_rewards : ℕ
  pub vipp_points : ℕ
  pub vipp_rewards : ℕ

pub data Event : Type 0 where
  new_vip_member : ℕ → Event
  penalty_type_changed : ℕ → PenaltyType → Event
  left_vip : ℕ → ℕ → Event
  rewards_paid : ℕ → ℕ → ℕ → Event
  vip_points_forced vipp_points_forced : ℕ → ℕ → ℕ → Event

-- The last ones: what slashing answers, a loop that has not ended, and an `unwrap` of nothing.
pub data Error : Type 0 where
  account_not_legit_for_vip already_vip_member account_has_not_vip_status : Error
  is_not_penalty_free_period not_correct_date no_rewards_for_account : Error
  year_rewards_already_set not_enough_tokens_for_claim : Error
  bad_origin slash_error out_of_fuel panicked : Error

pub data Origin : Type 0 where
  root : Origin
  signed : ℕ → Origin
  unsigned : Origin

-- `from_rational` and `ratio_mul` are those of `Perquintill`, the functions on `State` those of the
-- pallets energy-generation, nac-managing and balances. Slashing calls back for the active stake of
-- the VIP member, and the burning of a VIPP item for the VIPP members, so these are handed over.
-- `owned_vipps` is the number of the VIPP items of an account.
pub record Config : Type 1 where
  pub State : Type 0
  pub calendar : Calendar
  pub perbill : Perbill
  pub from_percent : ℕ → ℕ
  pub Ratio : Type 0
  pub from_rational : ℕ → ℕ → Ratio
  pub ratio_mul : Ratio → ℕ → ℕ
  pub now_millis : State → ℕ
  pub get_active_stake : ℕ → State → ℕ
  pub is_user_validator : ℕ → State → Bool
  pub cooperator_targets : ℕ → State → Option (Assoc ℕ)
  pub slash_vip_account : ℕ → ℕ → Assoc VipMemberInfo × State → Option (Assoc VipMemberInfo × State)
  pub can_mint_vipp : ℕ → State → Option (ℕ × ℕ) × State
  pub burn_vipp_nft : ℕ → Assoc VippMemberInfo × State → Bool × Assoc VippMemberInfo × State
  pub owned_vipps : ℕ → State → ℕ
  pub transfer : ℕ → ℕ → ℕ → State → Option State
  pub account_id : ℕ

module _ (C : Config) where
  pub record Storage : Type 0 where
    pub vip_members : Assoc VipMemberInfo
    pub vipp_members : Assoc VippMemberInfo
    pub vip_points : ℕ → Assoc ℕ
    pub vipp_points : ℕ → Assoc ℕ
    pub rewards : StorageMap RewardsInfo
    pub current_date : CurrentDateInfo
    pub events : List Event
    pub others : C.State

  abbrev pub Call : Type 0 → Type 0
  Call A = Action Error Storage A

  abbrev pub deposit_event : Event → Call (Unit {0})
  deposit_event e = modify (λ s. record s { events = e ∷ s.events })

  abbrev pub ensure_root : Origin → Call (Unit {0})
  ensure_root root = pure tt
  ensure_root (signed who) = raise bad_origin
  ensure_root unsigned = raise bad_origin

  abbrev pub ensure_signed : Origin → Call ℕ
  ensure_signed root = raise bad_origin
  ensure_signed (signed who) = pure who
  ensure_signed unsigned = raise bad_origin

-- A double map with one entry written, or taken out.
abbrev pub set_year : {V : Type 0} → ℕ → V → (ℕ → V) → ℕ → V
set_year year v m y = if y == year then v else m y
