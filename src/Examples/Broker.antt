-- ===== src/Examples/Broker.antt =====
-- A broker with energy, asset 1, and native tokens, asset 0, at ten units of energy a token.
use power_plant.Prelude.{
  ℕ, ◌+◌, ◌-◌, ◌*◌, ◌/◌, ◌≤◌, ◌≡◌, refl, sym, ap, ◌∙◌, inl, inr, min, Bool, true, false, ◌&&◌,
  Option, none, some, [], ◌∷◌, arith, leb, ◌==◌, if◌then◌else◌, Bool-cases, ok, empty, unwrap_or,
}
use power_plant.Broker.Fees.{to_amount_with_fee_deducted, to_amount_with_fee_included}
use power_plant.Broker.Fees.Laws.{deducted-included}
use power_plant.Broker.Assets.{Assets, Converter}
use power_plant.Broker.Swaps.{
  Config, Storage, Path2, do_swap, do_swap_exact_tokens_for_tokens, do_swap_tokens_for_exact_tokens,
  get_amount_out, get_amount_in, swap_fee, burn_surplus_energy,
}
use power_plant.Broker.Swaps.Balances.{Laws, do_swap_balances, IsOnly, IsTaken}

abbrev pub Balances : Type 0
Balances = ℕ → ℕ → ℕ

abbrev pub put : ℕ → ℕ → ℕ → Balances → Balances
put asset who n a b k = if b == asset && k == who then n else a b k

-- The minimum balance of each asset.
abbrev least : ℕ
least = 10

-- A rest below the minimum balance is an error if the account is to be kept alive, else it is lost.
abbrev pub take_from : Bool → ℕ → ℕ → ℕ → Balances → Option Balances
take_from keep_alive asset who n a =
    if leb n (a asset who)
    then (if leb least (a asset who - n)
        then some (put asset who (a asset who - n) a)
        else if keep_alive
        then none
        else some (put asset who 0 a))
    else none

abbrev give : ℕ → ℕ → ℕ → Balances → Option Balances
give asset who n a =
    if leb least (a asset who + n) then some (put asset who (a asset who + n) a) else none

-- Balances with a minimum; account 99 gets the fees.
abbrev pub ledger_assets : Assets
ledger_assets = record {
  State = Balances;
  balance = λ asset who a. a asset who;
  reducible_balance = λ keep_alive asset who a. a asset who;
  withdraw = λ keep_alive asset who n a. take_from keep_alive asset who n a;
  resolve = give;
  burn_from = λ asset who n a.
      let burned = min n (a asset who - least) in
      some (burned, put asset who (a asset who - burned) a);
  transfer = λ keep_alive asset source dest n a. elim (take_from keep_alive asset source n a) [
    | none ↦ none
    | some b ↦ give asset dest n b
  ];
  on_unbalanced = λ asset n a. put asset 99 (a asset 99 + n) a;
  on_energy_sell = λ n a. a;
}

abbrev buy_energy : Converter ledger_assets
buy_energy = record {
  source = 0;
  target = 1;
  swap_fee = none;
  get_amount_out = λ n. some (10 * n);
  get_amount_in = λ n. some (n / 10);
  withdraw = λ broker n a. take_from true 1 broker n a;
  resolve = λ broker n a. give 0 broker n a;
}

abbrev config : Config
config = record {
  signer = λ origin. some origin;
  can_manage = λ origin. false;
  assets = ledger_assets;
  converters = buy_energy ∷ [];
  default_fee = 10;
  is_feeless = λ who. false;
  energy_asset = 1;
  account_id = 50;
  burned_energy_sessions_count = 3;
}

-- Everybody has 1,000,000 of each asset.
abbrev storage : Storage config
storage = record {
  energy_capacity = 500;
  energy_capacity_override = none;
  session_energy_burn = 0;
  energy_burn = empty;
  total_energy_burn = 0;
  assets = λ b k. 1_000_000;
  events = [];
}

abbrev path : Path2
path = record { asset_in = 0; asset_out = 1 }

put_lem :
    (asset who n : ℕ) (a a' : Balances)
    → put asset who n a ≡ a'
    → (a' asset who ≡ n) × IsOnly ledger_assets asset who a a'
put_lem asset who n a a' e = (rw (← e) (ground arith), λ b k h. rw (← e) (ground arith))

take_from_lem :
    (keep_alive : Bool) (asset who n : ℕ) (a a' : Balances)
    → take_from keep_alive asset who n a ≡ some a'
    → IsTaken least keep_alive n (a asset who) (a' asset who) × IsOnly ledger_assets asset who a a'
take_from_lem keep_alive asset who n a a' e = elim (Bool-cases (leb n (a asset who))) [
  | inr h ↦ absurd (ground arith)
  | inl h ↦ elim (Bool-cases (leb least (a asset who - n))) [
    | inl rest ↦
        let took : take_from keep_alive asset who n a ≡ some (put asset who (a asset who - n) a) =
          ground arith in
        let (new, only) =
          put_lem asset who (a asset who - n) a a' (ap (λ o. unwrap_or o a) (sym took ∙ e)) in
        (inl (ground arith), only)
    | inr rest ↦ elim (Bool-cases keep_alive) [
      | inl k ↦ absurd (ground arith)
      | inr k ↦
          let took : take_from keep_alive asset who n a ≡ some (put asset who 0 a) = ground arith in
          let (new, only) = put_lem asset who 0 a a' (ap (λ o. unwrap_or o a) (sym took ∙ e)) in
          (inr (k, new, ground arith, ground arith), only)
    ]
  ]
]

give_lem :
    (asset who n : ℕ) (a a' : Balances)
    → give asset who n a ≡ some a'
    → (a' asset who ≡ a asset who + n) × IsOnly ledger_assets asset who a a'
give_lem asset who n a a' e = elim (Bool-cases (leb least (a asset who + n))) [
  | inr h ↦ absurd (ground arith)
  | inl h ↦
      let gave : give asset who n a ≡ some (put asset who (a asset who + n) a) = rw h refl in
      put_lem asset who (a asset who + n) a a' (ap (λ o. unwrap_or o a) (sym gave ∙ e))
]

ledger-Laws : Laws ledger_assets 99 (λ asset. least)
ledger-Laws = record {
  withdraw_lem = take_from_lem;
  resolve_lem = give_lem;
  burn_from_lem = λ asset who n burned a a' e.
      let first : Option (ℕ × Balances) → ℕ = λ o. (unwrap_or o (0, a)).0 in
      let second : Option (ℕ × Balances) → Balances = λ o. (unwrap_or o (0, a)).1 in
      let amount : min n (a asset who - least) ≡ burned = ap first e in
      let (new, only) =
        put_lem asset who (a asset who - min n (a asset who - least)) a a' (ap second e) in
      (omega arith, omega arith, only);
  on_unbalanced_lem = λ asset n b k a h. ground arith;
  on_energy_sell_lem = λ n b k a. refl;
}

thousand_paid : to_amount_with_fee_included 1000 10 ≡ ok 1010
unfolding to_amount_with_fee_included
thousand_paid = refl

deducted-included_example :
    (n : ℕ) × (to_amount_with_fee_deducted 1010 10 ≡ ok n) × (n ≤ 1000) × (1000 ≤ n + 1)
deducted-included_example = deducted-included 1000 10 1010 (ground arith) thousand_paid

bought :
    (do_swap_exact_tokens_for_tokens config 3 4 path 1000 (some 9900) false storage).0 ≡ ok 9900
unfolding do_swap_exact_tokens_for_tokens get_amount_out swap_fee to_amount_with_fee_deducted
    do_swap burn_surplus_energy
bought = refl

bought_exactly :
    (do_swap_tokens_for_exact_tokens config 3 4 path 9900 (some 1000) false storage).0 ≡ ok 1000
unfolding do_swap_tokens_for_exact_tokens get_amount_in swap_fee to_amount_with_fee_included do_swap
    burn_surplus_energy
bought_exactly = refl

-- Account 3 with 1,005 native tokens.
abbrev nearly_spent : Storage config
nearly_spent = record storage { assets = put 0 3 1005 storage.assets }

swapped : (do_swap config 3 4 path 1000 9900 10 false nearly_spent).0 ≡ ok tt
unfolding do_swap burn_surplus_energy
swapped = refl

-- The rest of 5 is lost.
do_swap_balances_example :
    let s' = (do_swap config 3 4 path 1000 9900 10 false nearly_spent).1 in
    IsTaken 10 false 1000 1005 (s'.assets 0 3) × (s'.assets 1 4 ≡ 1_000_000 + 9900)
do_swap_balances_example =
    do_swap_balances config 99 (λ asset. least) ledger-Laws buy_energy 3 4 path 1000 9900 10 false
      nearly_spent refl (λ v a. refl) (λ v a. refl) (λ e. absurd (ground arith))
      (λ e. absurd (ground arith)) (λ e. absurd (ground arith)) (λ e. absurd (ground arith))
      (λ e. absurd (ground arith)) swapped
