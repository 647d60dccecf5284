-- ===== src/NacManaging/Pallet.antt =====
-- The calls of the pallet, its genesis and its handlers (pallets/nac-managing/src/lib.rs).
pub mod Laws
use power_plant.Prelude.{
  ℕ, ◌+◌, Option, none, some, List, [], ◌∷◌, ◌==◌, if◌then◌else◌, u128_max, saturating_add, ok, err,
  pure, raise, gets, modify, ensure, ok_or, insert, is_some, unwrap_or, ◌>>=◌, ◌>>◌,
}
use power_plant.Reputation.Record.{with_blocknumber}
use power_plant.NacManaging.{
  claim_amount, Config, Storage, Call, try_nfts, owned, deposit_event, user_nac_level, bad_origin,
  nft_not_found, nft_already_exist,
}
use power_plant.NacManaging.Items.{
  first, create_unique_item_id, get_nac_level, do_mint, update_nft_info, create_collection,
}
use power_plant.NacManaging.Vipp.{mint_vipp_nft, claimed_of, check_account_threshold}

module _ (C : Config) where
  -- `T::AdminOrigin::ensure_origin`
  abbrev ensure_admin : ℕ → Call C (Unit {0})
  ensure_admin origin = ensure (C.is_admin origin) bad_origin

  unfoldable pub mint_new : ℕ → ℕ → Call C (Unit {0})
  mint_new level owner = do
    item_id ← gets (create_unique_item_id C owner)
    do_mint C item_id owner
    update_nft_info C C.nft_collection item_id level owner

  unfoldable pub mint : ℕ → ℕ → ℕ → Call C (Unit {0})
  mint origin level owner = do
    ensure_admin origin
    found ← gets (get_nac_level C owner)
    elim found [
      | none ↦ mint_new level owner
      | some (current_nac_level, item_id) ↦
          if current_nac_level == level
          then raise nft_already_exist
          else update_nft_info C C.nft_collection item_id level owner
    ]

  unfoldable pub update_nft : ℕ → Option ℕ → ℕ → Call C (Unit {0})
  update_nft origin new_nac_level owner = do
    ensure_admin origin
    found ← gets (get_nac_level C owner)
    value ← ok_or found nft_not_found
    update_nft_info C C.nft_collection value.1 (unwrap_or new_nac_level value.0) owner

  unfoldable pub check_nac_level : ℕ → ℕ → Call C (Unit {0})
  check_nac_level origin owner = do
    ensure_admin origin
    found ← gets (get_nac_level C owner)
    value ← ok_or found nft_not_found
    deposit_event C (user_nac_level owner value.0)

  unfoldable pub mint_genesis : ℕ → List (ℕ × ℕ) → Call C (Unit {0})
  mint_genesis n [] = pure tt
  mint_genesis n ((account, level) ∷ accounts) = do
    do_mint C n account
    update_nft_info C C.initial_collection n level account
    mint_genesis (n + 1) accounts

  -- `BuildGenesisConfig::build`, which panics where this fails.
  unfoldable pub genesis_build : List (ℕ × ℕ) → List ℕ → Call C (Unit {0})
  genesis_build accounts [] = pure tt
  genesis_build accounts (owner ∷ owners) = do
    create_collection C owner
    create_collection C owner
    mint_genesis 0 accounts
    genesis_build accounts owners

  -- `OnNewAccount::on_new_account`
  unfoldable pub on_new_nac_account : ℕ → Storage C → Storage C
  on_new_nac_account who s =
      if is_some (s.reputation.account_reputation who)
      then s
      else let s₁ = record s {
        reputation = record s.reputation {
          account_reputation =
              insert who (with_blocknumber s.reputation.block_number)
                s.reputation.account_reputation;
        };
      } in
        let item_id = create_unique_item_id C who s₁ in
        let (r, s₂) = do_mint C item_id who s₁ in
        elim r [
          | err e ↦ s₂
          | ok t ↦ record s₂ { users_nft = insert who (item_id, 1) s₂.users_nft }
        ]

  -- The handler told about a new VIPP item.
  unfoldable pub mint_vipp : ℕ → Storage C → Storage C
  mint_vipp who s =
      let (nft, s') = mint_vipp_nft C who s in
      elim nft [
        | none ↦ s'
        | some (amount, item_id) ↦ record s' { members = C.mint_vipp who amount item_id s'.members }
      ]

  -- `OnClaimHandler::on_claim`
  unfoldable pub on_claim : ℕ → ℕ → Call C (Unit {0})
  on_claim who amount = do
    items ← gets (owned C C.nft_collection who)
    item ← ok_or (first items) nft_not_found
    currently_claimed ← gets (claimed_of C item)
    try_nfts C (
        C.nfts.set_attribute C.nft_collection item claim_amount
          (C.encode (saturating_add u128_max currently_claimed amount)))
    if currently_claimed == 0 then pure tt else modify (mint_vipp who)

  -- `OnWithdrawFeeHandler::on_withdraw_fee`
  unfoldable pub on_withdraw_fee : ℕ → Call C (Unit {0})
  on_withdraw_fee who = check_account_threshold C who
