-- ===== src/Examples/EnergyFee.antt =====
-- One account with 30 energy, 50 static and 20 liquid energy, and an exchange that gives what is asked for.
use power_plant.Prelude.{
  ℕ, ◌+◌, ◌-◌, ◌/◌, ◌≤◌, refl, min, Bool, true, false, none, some, List, [], ◌∷◌, arith, leb, ◌==◌,
  if◌then◌else◌,
}
use power_plant.EnergyFee.{Asset, regular, Config, Storage}
use power_plant.EnergyFee.Exchange.{
  ensure_sufficient_energy, energy_of, reduce_by, exchange_energy, burn_and_mint, swap_rest,
}
use power_plant.EnergyFee.Exchange.Sufficient.{IsExchange, ensure_sufficient_energy_le}
use power_plant.EnergyFee.Charge.Block.{Transaction, signed, ethereum, other, evm_call}

pub record Energies : Type 0 where
  pub energy : ℕ
  pub static : ℕ
  pub liquid : ℕ

-- An asset by its balance, and the state with another balance.
abbrev asset_of : (Energies → ℕ) → (ℕ → Energies → Energies) → Asset Energies
asset_of balance put = record {
  reducible_balance = λ who x. balance x;
  burn_from = λ who amount x.
      let burned = min amount (balance x) in some (burned, put (balance x - burned) x);
  mint_into = λ who amount x. some (amount, put (balance x + amount) x);
  withdraw = λ who amount x.
      if leb amount (balance x) then some (amount, put (balance x - amount) x) else none;
  deposit = λ who amount x. some (amount, put (balance x + amount) x);
}

abbrev split_at : ℕ → ℕ → ℕ × ℕ
split_at credit n = (min n credit, credit - min n credit)

abbrev config : Config
config = record {
  State = Energies;
  RuntimeCall = ℕ;
  PostInfo = Bool;
  compute_fee = λ call len tip. call + len + tip;
  pays_no = λ post call. post;
  dispatch_info_to_fee = λ call fee. regular fee;
  ethereum_fee = 5;
  energy = asset_of (λ x. x.energy) (λ n x. record x { energy = n });
  static_energy = asset_of (λ x. x.static) (λ n x. record x { static = n });
  liquid_energy = asset_of (λ x. x.liquid) (λ n x. record x { liquid = n });
  quote_price_tokens_for_exact_tokens = λ amount x. some amount;
  swap_tokens_for_exact_tokens = λ who amount x. some (record x { energy = x.energy + amount });
  on_withdraw_fee = λ who x. x;
  on_energy_burn = λ amount x. x;
  recycled_part = λ fee x. fee / 4;
  on_recycled = λ amount x. x;
  offset = λ paid debt. if leb debt paid then some (paid - debt) else none;
  split = split_at;
  into_account_id = λ who. who;
  constant_fee = 5;
  full_block = 100;
  one_multiplier = 1;
  is_manager = λ origin. origin == 0;
}

abbrev storage : Storage config
storage = record {
  burned_energy = 0;
  burned_energy_threshold = some 60;
  block_fullness_threshold = none;
  upper_fee_multiplier = none;
  base_fee = none;
  events = [];
  others = record { energy = 30; static = 50; liquid = 20 };
}

config-IsExchange : IsExchange config
config-IsExchange = record {
  burn_static_le = λ {who} {amount} {burned} {x} {y} e. ground arith;
  burn_liquid_le = λ {who} {amount} {burned} {x} {y} e. ground arith;
  mint_le = λ {who} {amount} {minted} {x} {y} e. ground arith;
  swap_le = λ {who} {amount} {x} {y} e. ground arith;
}

ensure_sufficient_energy_le_example :
    110 ≤ energy_of config 3 (ensure_sufficient_energy config 3 110 storage).1
unfolding ensure_sufficient_energy reduce_by exchange_energy burn_and_mint swap_rest
ensure_sufficient_energy_le_example =
    ensure_sufficient_energy_le config config-IsExchange 3 110 storage refl

-- The third transaction would exceed the threshold, the second calls the EVM by the way, and the last is one of
-- Ethereum: two EVM fees of 5 are allowed on top.
abbrev transactions : List (Transaction config)
transactions =
    signed (record { who = 3; call = 30; length = 5; post = false; steps = other (λ x. x) ∷ [] })
    ∷ signed (record {
      who = 3;
      call = 20;
      length = 5;
      post = true;
      steps = evm_call (record { source = 3; fee = 8; effect = λ x. x }) ∷ [];
    })
    ∷ signed (record { who = 3; call = 60; length = 5; post = false; steps = [] })
    ∷ ethereum (record { source = 3; fee = 8; effect = λ x. x })
    ∷ []
