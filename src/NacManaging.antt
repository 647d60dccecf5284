-- ===== src/NacManaging.antt =====
-- The storage of pallets/nac-managing/src/lib.rs, and what the pallet asks of the registry of the NFTs,
-- of the currency and of its handler. The reputation pallet is a part of the storage.
pub mod Items
pub mod Vipp
pub mod Pallet
use power_plant.Prelude.{
  ℕ, Bool, true, false, Option, none, some, List, ◌∷◌, ok, err, Action, modify, StorageMap,
}
use power_plant.Slashing.Entity.{Perbill}
use power_plant.Reputation.Points.{Float}
use power_plant.Reputation.Pallet as Reputations

-- `NAC_LEVEL_ATTRIBUTE_KEY`, `CLAIM_AMOUNT_ATTRIBUTE_KEY` and `VIPP_STATUS_EXIST`.
pub data Key : Type 0 where
  nac_level claim_amount vipp_status : Key

-- `T::Nfts`, with collections, accounts and items as numbers, and attributes as bytes. What changes the
-- registry answers nothing where it fails.
pub record Nfts : Type 1 where
  pub Registry : Type 0
  pub owned_in_collection : ℕ → ℕ → Registry → List ℕ
  pub system_attribute : ℕ → ℕ → Key → Registry → Option (List ℕ)
  pub set_attribute : ℕ → ℕ → Key → List ℕ → Registry → Option Registry
  pub mint_into : ℕ → ℕ → ℕ → Registry → Option Registry
  pub burn : ℕ → ℕ → ℕ → Registry → Option Registry
  pub create_collection : ℕ → Registry → Option Registry

pub data Event : Type 0 where
  nft_minted nft_updated user_nac_level vipp_nft_minted : ℕ → ℕ → Event

pub data Error : Type 0 where
  nft_not_found nft_already_exist nac_level_is_incorrect : Error
  bad_origin nfts_error reputation_error out_of_fuel : Error

-- `encode` and `decode` are those of the balances, `encode_u32` that of the block number and `to_le_bytes`,
-- `encode_account` that of an account, `hash` is `BlakeTwo256`. `Members` is the state of the handler
-- `OnVIPPChanged`.
pub record Config : Type 1 where
  pub nfts : Nfts
  pub Members : Type 0
  pub mint_vipp : ℕ → ℕ → ℕ → Members → Members
  pub burn_vipp : ℕ → ℕ → Members → Members
  pub Balances : Type 0
  pub total_balance : ℕ → Balances → ℕ
  pub perbill : Perbill
  pub float : Float
  pub encode : ℕ → List ℕ
  pub decode : List ℕ → Option ℕ
  pub encode_u32 : ℕ → List ℕ
  pub encode_account : ℕ → List ℕ
  pub hash : List ℕ → List ℕ
  pub is_admin : ℕ → Bool
  pub value_limit : ℕ
  pub nft_collection : ℕ
  pub vipp_collection : ℕ
  pub initial_collection : ℕ

module _ (C : Config) where
  pub record Storage : Type 0 where
    pub users_nft : StorageMap (ℕ × ℕ)
    pub registry : C.nfts.Registry
    pub members : C.Members
    pub balances : C.Balances
    pub reputation : Reputations.Storage
    pub events : List Event

  abbrev pub Call : Type 0 → Type 0
  Call A = Action Error Storage A

  abbrev pub emit : Event → Storage → Storage
  emit e s = record s { events = e ∷ s.events }

  abbrev pub deposit_event : Event → Call (Unit {0})
  deposit_event e = modify (emit e)

  -- A change of the registry that must succeed, and one whose failure is ignored.
  abbrev pub try_nfts : (C.nfts.Registry → Option C.nfts.Registry) → Call (Unit {0})
  try_nfts f s = elim (f s.registry) [
    | none ↦ (err nfts_error, s)
    | some registry ↦ (ok tt, record s { registry = registry })
  ]

  abbrev pub attempt : (C.nfts.Registry → Option C.nfts.Registry) → Storage → Bool × Storage
  attempt f s = elim (f s.registry) [
    | none ↦ (false, s)
    | some registry ↦ (true, record s { registry = registry })
  ]

  -- `T::Nfts::owned_in_collection(..)` and `T::Nfts::system_attribute(..)`
  abbrev pub owned : ℕ → ℕ → Storage → List ℕ
  owned collection account s = C.nfts.owned_in_collection collection account s.registry

  abbrev pub attribute : ℕ → ℕ → Key → Storage → Option (List ℕ)
  attribute collection item key s = C.nfts.system_attribute collection item key s.registry
