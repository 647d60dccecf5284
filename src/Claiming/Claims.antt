-- ===== src/Claiming/Claims.antt =====
-- The storage and the calls of the claiming pallet (pallets/claiming/src/lib.rs).
pub mod Once
use power_plant.Prelude.{
  ℕ, not, Option, none, some, List, [], ◌∷◌, if◌then◌else◌, u128_max, saturating_add, Result, ok,
  err, Action, ◌>>=◌, ◌>>◌, pure, raise, gets, modify, ensure, ok_or, with_storage_layer,
  StorageMap, insert, remove, is_some, unwrap_or,
}
use power_plant.Claiming.Message.{to_ascii_hex, ethereum_signable_message}

pub data Error : Type 0 where
  not_enough_tokens_for_claim invalid_ethereum_signature signer_has_no_claim : Error
  duplicate_vesting_schedule bad_origin vesting_error on_claim_error : Error

-- A number is the account that a signed origin names.
pub data Origin : Type 0 where
  root none_origin : Origin
  signed : ℕ → Origin

pub data Event : Type 0 where
  claimed : ℕ → ℕ → Event
  token_minted_to_claim : ℕ → Event

pub record Schedule : Type 0 where
  pub locked : ℕ
  pub per_block : ℕ
  pub starting_block : ℕ

-- What the pallet asks of others: the currency, from the claim account, the vesting schedules and the
-- handler of claims, all with a state of their own, then the recovery of the signer of a message, and
-- the encoding of accounts. Ethereum addresses, signatures and claim data are numbers.
pub record Config : Type 1 where
  pub State : Type 0
  pub transfer : ℕ → ℕ → State → Option State
  pub deposit_creating : ℕ → State → State
  pub add_vesting_schedule : ℕ → Schedule → State → Option State
  pub on_claim : ℕ → ℕ → Option ℕ → State → Option State
  pub recover : ℕ → List ℕ → Option ℕ
  pub encode : ℕ → List ℕ
  pub prefix : List ℕ

module _ (C : Config) where
  pub record Storage : Type 0 where
    pub claims : StorageMap ℕ
    pub vesting : StorageMap Schedule
    pub claims_data : StorageMap ℕ
    pub events : List Event
    pub others : C.State

  abbrev pub Call : Type 0 → Type 0
  Call A = Action Error Storage A

  abbrev deposit_event : Event → Call (Unit {0})
  deposit_event e = modify (λ s. record s { events = e ∷ s.events })

  abbrev try_others : (C.State → Option C.State) → Error → Call (Unit {0})
  try_others f e s = elim (f s.others) [
    | none ↦ (err e, s)
    | some a ↦ (ok tt, record s { others = a })
  ]

  abbrev ensure_root : Origin → Call (Unit {0})
  ensure_root root = pure tt
  ensure_root none_origin = raise bad_origin
  ensure_root (signed who) = raise bad_origin

  abbrev ensure_none : Origin → Call (Unit {0})
  ensure_none root = raise bad_origin
  ensure_none none_origin = pure tt
  ensure_none (signed who) = raise bad_origin

  abbrev add_vesting : ℕ → Option Schedule → Call (Unit {0})
  add_vesting dest none = pure tt
  add_vesting dest (some schedule) = try_others (C.add_vesting_schedule dest schedule) vesting_error

  unfoldable pub process_claim : ℕ → ℕ → Call (Unit {0})
  process_claim signer dest = do
    found ← gets (λ s. s.claims signer)
    modify (λ s. record s { claims = remove signer s.claims })
    amount ← ok_or found signer_has_no_claim
    try_others (C.transfer dest amount) not_enough_tokens_for_claim
    schedule ← gets (λ s. s.vesting signer)
    modify (λ s. record s { vesting = remove signer s.vesting })
    add_vesting dest schedule
    data_of ← gets (λ s. s.claims_data signer)
    modify (λ s. record s { claims_data = remove signer s.claims_data })
    try_others (C.on_claim dest amount data_of) on_claim_error
    deposit_event (claimed dest amount)

  unfoldable pub eth_recover : ℕ → List ℕ → List ℕ → Option ℕ
  eth_recover signature what extra =
      C.recover signature (ethereum_signable_message C.prefix what extra)

  unfoldable pub claim : Origin → ℕ → ℕ → Call (Unit {0})
  claim origin dest signature = do
    ensure_none origin
    signer ←
        ok_or (eth_recover signature (to_ascii_hex (C.encode dest)) []) invalid_ethereum_signature
    process_claim signer dest

  unfoldable pub mint_tokens_to_claim : Origin → ℕ → Call (Unit {0})
  mint_tokens_to_claim origin amount = do
    ensure_root origin
    modify (λ s. record s { others = C.deposit_creating amount s.others })
    deposit_event (token_minted_to_claim amount)

  abbrev set_data : ℕ → Option ℕ → StorageMap ℕ → StorageMap ℕ
  set_data who none m = remove who m
  set_data who (some d) m = insert who d m

  abbrev insert_vesting : ℕ → Option Schedule → Call (Unit {0})
  insert_vesting who none = pure tt
  insert_vesting who (some schedule) = do
    found ← gets (λ s. s.vesting who)
    ensure (not (is_some found)) duplicate_vesting_schedule
    modify (λ s. record s { vesting = insert who schedule s.vesting })

  unfoldable pub mint_claim : Origin → ℕ → ℕ → Option Schedule → Option ℕ → Call (Unit {0})
  mint_claim origin who value vesting_schedule claim_data = do
    ensure_root origin
    modify (λ s. record s {
      claims = insert who (saturating_add u128_max (unwrap_or (s.claims who) 0) value) s.claims;
    })
    insert_vesting who vesting_schedule
    modify (λ s. record s { claims_data = set_data who claim_data s.claims_data })

  -- `validate_unsigned` of a call of `claim`: the signer that the transaction provides for.
  unfoldable pub validate_unsigned : ℕ → ℕ → Storage → Result Error ℕ
  validate_unsigned dest signature s =
      elim (eth_recover signature (to_ascii_hex (C.encode dest)) []) [
        | none ↦ err invalid_ethereum_signature
        | some signer ↦ if is_some (s.claims signer) then ok signer else err signer_has_no_claim
      ]

  -- The extrinsics, in the storage layer of the runtime.
  pub data Extrinsic : Type 0 where
    calls_claim : ℕ → ℕ → Extrinsic
    calls_mint_tokens_to_claim : ℕ → Extrinsic
    calls_mint_claim : ℕ → ℕ → Option Schedule → Option ℕ → Extrinsic

  unfoldable pub dispatch : Origin → Extrinsic → Call (Unit {0})
  dispatch origin (calls_claim dest signature) = with_storage_layer (claim origin dest signature)
  dispatch origin (calls_mint_tokens_to_claim amount) =
      with_storage_layer (mint_tokens_to_claim origin amount)
  dispatch origin (calls_mint_claim who value schedule claim_data) =
      with_storage_layer (mint_claim origin who value schedule claim_data)

  -- `GenesisConfig::build`, where a duplicate claim panics.
  unfoldable pub genesis_claims : List (ℕ × ℕ) → StorageMap ℕ → Option (StorageMap ℕ)
  genesis_claims [] m = some m
  genesis_claims ((address, amount) ∷ claims) m =
      let rest = genesis_claims claims (insert address amount m) in
      if is_some (m address) then none else rest

  unfoldable pub genesis_vesting : List (ℕ × Schedule) → StorageMap Schedule → StorageMap Schedule
  genesis_vesting [] m = m
  genesis_vesting ((address, schedule) ∷ vesting) m =
      genesis_vesting vesting (insert address schedule m)
