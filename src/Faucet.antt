-- ===== src/Faucet.antt =====
-- The faucet pallet (pallets/faucet/src/lib.rs). Balances are `u128`; the difference of block numbers
-- in this code is exact, since a recorded block is never later than the current one.
pub mod Metered
use power_plant.Prelude.{
  ℕ, ◌-◌, List, ◌∷◌, leb, if◌then◌else◌, add128, Action, pure, raise, gets, modify, ensure,
  StorageMap, insert, unwrap_or, ◌>>=◌, ◌>>◌,
}

pub data Event : Type 0 where
  funds_sent : ℕ → ℕ → Event

pub data Error : Type 0 where
  amount_too_high request_limit_exceeded bad_origin : Error

pub data Origin : Type 0 where
  none_origin : Origin
  signed : ℕ → Origin
  root : Origin

-- The balances that the faucet deposits into, and the constants of the runtime.
pub record Config : Type 1 where
  pub State : Type 0
  pub deposit_creating : ℕ → ℕ → State → State
  pub max_amount : ℕ
  pub accumulation_period : ℕ

module _ (C : Config) where
  -- `Requests` is a `ValueQuery`: the total and the block at which the period of an account began.
  pub record Storage : Type 0 where
    pub requests : StorageMap (ℕ × ℕ)
    pub block_number : ℕ
    pub events : List Event
    pub others : C.State

  abbrev pub Call : Type 0 → Type 0
  Call A = Action Error Storage A

  abbrev pub request_of : ℕ → Storage → ℕ × ℕ
  request_of who s = unwrap_or (s.requests who) (0, 0)

  abbrev ensure_none : Origin → Call (Unit {0})
  ensure_none none_origin = pure tt
  ensure_none (signed who) = raise bad_origin
  ensure_none root = raise bad_origin

  -- The total of the period and its beginning, with one more amount.
  unfoldable pub extend_period : ℕ → ℕ → ℕ × ℕ → ℕ × ℕ
  extend_period amount now (balance, timestamp) =
      if leb C.accumulation_period (now - timestamp)
      then (amount, now)
      else (add128 balance amount, timestamp)

  unfoldable pub request_funds : Origin → ℕ → ℕ → Call (Unit {0})
  request_funds origin who amount = do
    ensure_none origin
    ensure (leb amount C.max_amount) amount_too_high
    request ← gets (λ s. extend_period amount s.block_number (request_of who s))
    ensure (leb request.0 C.max_amount) request_limit_exceeded
    modify (λ s. record s {
      requests = insert who request s.requests;
      events = funds_sent who amount ∷ s.events;
      others = C.deposit_creating who amount s.others;
    })
