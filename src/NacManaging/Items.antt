-- ===== src/NacManaging/Items.antt =====
-- The NAC item of an account and its level (pallets/nac-managing/src/lib.rs).
use power_plant.Prelude.{
  ℕ, zero, suc, ◌+◌, ◌*◌, Bool, false, Option, none, some, List, [], ◌∷◌, ◌++◌, ltb, leb, ◌>>◌,
  modify, ensure, insert, unwrap_or,
}
use power_plant.Reputation.Points.{from_rank}
use power_plant.Reputation.Tier.{tier_rank, vanguard}
use power_plant.Reputation.Pallet.{increase_creating}
use power_plant.NacManaging.{
  nac_level, Config, Storage, Call, try_nfts, owned, attribute, deposit_event, nft_minted,
  nft_updated, nac_level_is_incorrect,
}

abbrev pub first : List ℕ → Option ℕ
first [] = none
first (x ∷ xs) = some x

-- The first byte of the level, which the source indexes; the pallet writes one byte.
abbrev pub level_of : Option (List ℕ) → ℕ
level_of none = 1
level_of (some bytes) = unwrap_or (first bytes) 0

-- The first four bytes, the lowest first.
abbrev pub item_of_bytes : List ℕ → ℕ → ℕ → ℕ
item_of_bytes bytes zero scale = 0
item_of_bytes [] (suc n) scale = 0
item_of_bytes (b ∷ bytes) (suc n) scale = b * scale + item_of_bytes bytes n (scale * 256)

module _ (C : Config) where
  unfoldable pub create_unique_item_id : ℕ → Storage C → ℕ
  create_unique_item_id owner s =
      item_of_bytes
        (C.hash
          (C.encode_u32 s.reputation.block_number ++ (C.encode_u32 135 ++ C.encode_account owner)))
        4 1

  unfoldable pub get_nac_level : ℕ → Storage C → Option (ℕ × ℕ)
  get_nac_level account s = elim (first (owned C C.nft_collection account s)) [
    | none ↦ none
    | some item_id ↦ some (level_of (attribute C C.nft_collection item_id nac_level s), item_id)
  ]

  unfoldable pub user_has_access : ℕ → ℕ → Storage C → Bool
  user_has_access account desired_access_level s = elim (get_nac_level account s) [
    | none ↦ false
    | some (level, _) ↦ leb desired_access_level level
  ]

  -- `Convert::convert`
  unfoldable pub convert : ℕ → Storage C → Option ℕ
  convert who s = elim (get_nac_level who s) [ none ↦ none | some (level, _) ↦ some level ]

  -- `increase_creating`, of the reputation pallet.
  unfoldable pub increase_reputation : ℕ → ℕ → Storage C → Storage C
  increase_reputation owner points s = record s {
    reputation = (increase_creating C.float owner points s.reputation).1;
  }

  unfoldable pub do_mint : ℕ → ℕ → Call C (Unit {0})
  do_mint item_id owner = do
    try_nfts C (C.nfts.mint_into C.nft_collection item_id owner)
    modify (increase_reputation owner (from_rank C.float (tier_rank (vanguard 1))))
    deposit_event C (nft_minted owner item_id)

  unfoldable pub update_nft_info : ℕ → ℕ → ℕ → ℕ → Call C (Unit {0})
  update_nft_info collection item level owner = do
    ensure (ltb 0 C.value_limit) nac_level_is_incorrect
    try_nfts C (C.nfts.set_attribute collection item nac_level (level ∷ []))
    modify (λ s. record s { users_nft = insert owner (item, level) s.users_nft })
    deposit_event C (nft_updated owner level)

  unfoldable pub create_collection : ℕ → Call C (Unit {0})
  create_collection owner = try_nfts C (C.nfts.create_collection owner)
