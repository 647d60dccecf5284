-- ===== src/Vesting/Pallet.antt =====
-- The storage and the calls of the vesting pallet (pallets/simple-vesting/src/lib.rs).
pub mod Reserved
pub mod Histories
use power_plant.Prelude.{
  ℕ, ◌-◌, ◌/◌, max, not, ◌||◌, Option, none, some, List, [], ◌∷◌, ◌==◌, if◌then◌else◌, length, ok,
  err, Action, ◌>>=◌, ◌>>◌, pure, raise, gets, modify, ensure, ok_or, with_storage_layer,
  StorageMap, insert, remove, is_some,
}
use power_plant.Vesting.Schedule.{VestingInfo, is_valid, locked_at}

pub data Event : Type 0 where
  vesting_created vesting_updated vesting_removed : ℕ → ℕ → Event
  vesting_completed : ℕ → Event

pub data Error : Type 0 where
  not_vesting already_vesting invalid_schedule_params bad_origin currency_error providers_error :
      Error

pub data Origin : Type 0 where
  root : Origin
  signed : ℕ → Origin

-- The currency, with the reserves named for vesting only, the handler of slashed funds, and the
-- provider references of frame_system, all in one state. `slash_reserved_named` answers the imbalance,
-- what could not be slashed, and the state.
pub record Currency : Type 1 where
  pub State : Type 0
  pub free_balance : ℕ → State → ℕ
  pub transfer : ℕ → ℕ → ℕ → State → Option State
  pub reserve_named : ℕ → ℕ → State → Option State
  pub ensure_reserved_named : ℕ → ℕ → State → Option State
  pub slash_reserved_named : ℕ → ℕ → State → ℕ × ℕ × State
  pub on_unbalanced : ℕ → State → State
  pub inc_providers : ℕ → State → State
  pub dec_providers : ℕ → State → Option State

module _ (C : Currency) where
  pub record Storage : Type 0 where
    pub vesting : StorageMap VestingInfo
    pub block_number : ℕ
    pub events : List Event
    pub others : C.State

  abbrev pub Call : Type 0 → Type 0
  Call A = Action Error Storage A

  abbrev deposit_event : Event → Call (Unit {0})
  deposit_event e = modify (λ s. record s { events = e ∷ s.events })

  abbrev try_others : (C.State → Option C.State) → Error → Call (Unit {0})
  try_others f e s = elim (f s.others) [
    | none ↦ (err e, s)
    | some a ↦ (ok tt, record s { others = a })
  ]

  abbrev on_others : (C.State → C.State) → Call (Unit {0})
  on_others f = modify (λ s. record s { others = f s.others })

  abbrev put : ℕ → VestingInfo → Call (Unit {0})
  put who v = modify (λ s. record s { vesting = insert who v s.vesting })

  abbrev remove_schedule : ℕ → Call (Unit {0})
  remove_schedule who = modify (λ s. record s { vesting = remove who s.vesting })

  abbrev finish : ℕ → ℕ → Call (Unit {0})
  finish who locked =
      if locked == 0
      then (do
        remove_schedule who
        try_others (C.dec_providers who) providers_error
        deposit_event (vesting_completed who))
      else deposit_event (vesting_updated who locked)

  unfoldable pub do_vest : ℕ → Call (Unit {0})
  do_vest who = do
    found ← gets (λ s. s.vesting who)
    vesting ← ok_or found not_vesting
    now ← gets (λ s. s.block_number)
    let locked = locked_at now vesting
    try_others (C.ensure_reserved_named who locked) currency_error
    finish who locked

  abbrev ensure_root : Origin → Call (Unit {0})
  ensure_root root = pure tt
  ensure_root (signed who) = raise bad_origin

  unfoldable pub vest : Origin → Call (Unit {0})
  vest root = raise bad_origin
  vest (signed who) = do_vest who

  unfoldable pub force_vested_transfer : Origin → ℕ → ℕ → VestingInfo → Call (Unit {0})
  force_vested_transfer origin source dest schedule = do
    ensure_root origin
    ensure (is_valid schedule) invalid_schedule_params
    found ← gets (λ s. s.vesting dest)
    ensure (not (is_some found)) already_vesting
    try_others (C.transfer source dest schedule.locked) currency_error
    put dest schedule
    on_others (C.inc_providers dest)
    try_others (C.reserve_named dest schedule.locked) currency_error
    deposit_event (vesting_created dest schedule.locked)

  unfoldable pub force_remove_vesting : Origin → ℕ → Call (Unit {0})
  force_remove_vesting origin who = do
    ensure_root origin
    found ← gets (λ s. s.vesting who)
    remove_schedule who
    schedule ← ok_or found not_vesting
    (imbalance, unslashed, others) ← gets (λ s. C.slash_reserved_named who schedule.locked s.others)
    let slashed = schedule.locked - unslashed
    modify (λ s. record s { others = C.on_unbalanced imbalance others })
    try_others (C.dec_providers who) providers_error
    deposit_event (vesting_removed who slashed)

  -- The extrinsics, in the storage layer of the runtime.
  pub data Extrinsic : Type 0 where
    calls_vest : Extrinsic
    calls_force_vested_transfer : ℕ → ℕ → VestingInfo → Extrinsic
    calls_force_remove_vesting : ℕ → Extrinsic

  unfoldable pub dispatch : Origin → Extrinsic → Call (Unit {0})
  dispatch origin calls_vest = with_storage_layer (vest origin)
  dispatch origin (calls_force_vested_transfer source dest schedule) =
      with_storage_layer (force_vested_transfer origin source dest schedule)
  dispatch origin (calls_force_remove_vesting who) =
      with_storage_layer (force_remove_vesting origin who)

  -- An account of the genesis configuration; a panic gives no storage.
  abbrev with_reserve : ℕ → VestingInfo → Storage → Option Storage
  with_reserve who info s = elim (C.reserve_named who info.locked (C.inc_providers who s.others)) [
    | none ↦ none
    | some a ↦ some (record s { vesting = insert who info s.vesting; others = a })
  ]

  unfoldable pub genesis_account : ℕ → ℕ → ℕ → ℕ → Storage → Option Storage
  genesis_account who begin length liquid s =
      let balance = C.free_balance who s.others in
      let locked = balance - liquid in
      let info : VestingInfo = record {
        locked = locked;
        per_block = locked / max length 1;
        starting_block = begin;
      } in
      if balance == 0 || not (is_valid info) then none else with_reserve who info s

  unfoldable pub genesis_build : List (ℕ × ℕ × ℕ × ℕ) → Storage → Option Storage
  genesis_build [] s = some s
  genesis_build ((who, begin, length, liquid) ∷ accounts) s =
      elim (genesis_account who begin length liquid s) [
        | none ↦ none
        | some s' ↦ genesis_build accounts s'
      ]
