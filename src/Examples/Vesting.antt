-- ===== src/Examples/Vesting.antt =====
-- An account that vests 100 tokens at 10 a block from block 5 on.
use power_plant.Prelude.{
  ℕ, ◌+◌, ◌-◌, ◌≡◌, refl, sym, ap, inl, min, Option, none, some, List, [], ◌∷◌, arith, ◌==◌,
  if◌then◌else◌, ok, empty, insert,
}
use power_plant.Vesting.Schedule.{VestingInfo, locked_at}
use power_plant.Vesting.Pallet.{
  Currency, Storage, root, signed, calls_vest, calls_force_vested_transfer, dispatch, vest, do_vest,
}
use power_plant.Vesting.Pallet.Reserved.{Laws, IsBetween}
use power_plant.Vesting.Pallet.Histories.{next_block, call, Step, run_steps, run_steps-IsReserved}

-- The state is what each account has reserved; funds never run out.
abbrev pub reserves : Currency
reserves = record {
  State = ℕ → ℕ;
  free_balance = λ who a. 1000;
  transfer = λ source dest n a. some a;
  reserve_named = λ who n a. some (λ k. if k == who then a k + n else a k);
  ensure_reserved_named = λ who n a. some (λ k. if k == who then n else a k);
  slash_reserved_named =
      λ who n a. (min n (a who), n - a who, λ k. if k == who then a k - n else a k);
  on_unbalanced = λ n a. a;
  inc_providers = λ who a. a;
  dec_providers = λ who a. some a;
}

abbrev at : ℕ → Option (ℕ → ℕ) → ℕ
at k none = 0
at k (some a) = a k

abbrev reserves_laws : Laws reserves
reserves_laws = record {
  reserved = λ k a. a k;
  transfer_lem = λ source dest n k a a' e. ap (at k) (sym e);
  reserve_lem = λ who n k a a' e. ap (at k) (sym e);
  ensure_lem = λ who n k a a' e. ap (at k) (sym e);
  slash_lem = λ who n k a. refl;
  unbalanced_lem = λ n k a. refl;
  inc_lem = λ who k a. refl;
  dec_lem = λ who k a a' e. ap (at k) (sym e);
}

abbrev schedule : VestingInfo
schedule = record { locked = 100; per_block = 10; starting_block = 5 }

abbrev start : Storage reserves
start = record { vesting = empty; block_number = 7; events = []; others = λ k. 0 }

abbrev vesting_now : Storage reserves
vesting_now = record {
  vesting = insert 3 schedule empty;
  block_number = 7;
  events = [];
  others = λ k. if k == 3 then 100 else 0;
}

abbrev history : List (Step reserves)
history =
    call root (calls_force_vested_transfer 1 3 schedule)
    ∷ next_block
    ∷ call (signed 3) calls_vest
    ∷ []

run_steps-IsReserved_example :
    let s' = run_steps reserves history start in
    IsBetween s'.block_number (s'.vesting 3) (s'.others 3)
run_steps-IsReserved_example =
    run_steps-IsReserved reserves reserves_laws history start (ground arith, (tt, (tt, tt)))
      (λ k. inl (refl, refl)) 3

vest_succeeds : (dispatch reserves (signed 3) calls_vest vesting_now).0 ≡ ok tt
unfolding dispatch vest do_vest locked_at
vest_succeeds = refl
