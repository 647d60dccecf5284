-- ===== src/NacManaging/Vipp.antt =====
-- The VIPP items: their claim values, minting and burning (pallets/nac-managing/src/lib.rs).
pub mod Burning
pub mod Lowest
use power_plant.Prelude.{
  ℕ, zero, suc, ◌-◌, Bool, true, false, not, ◌&&◌, ◌||◌, Option, none, some, List, [], ◌∷◌, ltb,
  leb, ◌==◌, if◌then◌else◌, length, add128, ok, err, gets, ok_or, is_some, unwrap_or, ◌>>=◌, ◌>>◌,
}
use power_plant.NacManaging.{
  claim_amount, vipp_status, Config, Storage, Call, try_nfts, attempt, owned, attribute, emit,
  vipp_nft_minted, nft_not_found, out_of_fuel,
}
use power_plant.NacManaging.Items.{first, create_unique_item_id, get_nac_level}

-- The order of byte strings.
unfoldable pub bytes_ltb : List ℕ → List ℕ → Bool
bytes_ltb bytes [] = false
bytes_ltb [] (y ∷ ys) = true
bytes_ltb (x ∷ xs) (y ∷ ys) = ltb x y || (x == y && bytes_ltb xs ys)

-- The claim value that is kept, with its item, when one more is met.
unfoldable pub lower_claim : List ℕ → ℕ → Option (List ℕ × ℕ) → Option (List ℕ × ℕ)
lower_claim claim_value item_id none = some (claim_value, item_id)
lower_claim claim_value item_id (some (min_claim, min_item)) =
    if bytes_ltb claim_value min_claim
    then some (claim_value, item_id)
    else some (min_claim, min_item)

module _ (C : Config) where
  unfoldable pub decode_or_zero : List ℕ → ℕ
  decode_or_zero bytes = unwrap_or (C.decode bytes) 0

  unfoldable pub get_claim_balance : ℕ → Storage C → Option (ℕ × ℕ)
  get_claim_balance account s = elim (first (owned C C.nft_collection account s)) [
    | none ↦ none
    | some item_id ↦ elim (attribute C C.nft_collection item_id claim_amount s) [
      | none ↦ none
      | some bytes ↦ elim (C.decode bytes) [ none ↦ none | some balance ↦ some (balance, item_id) ]
    ]
  ]

  unfoldable pub claim_value_of : ℕ → Storage C → ℕ
  claim_value_of item_id s = elim (attribute C C.vipp_collection item_id claim_amount s) [
    | none ↦ 0
    | some bytes ↦ decode_or_zero bytes
  ]

  unfoldable pub sum_claims : ℕ → List ℕ → Storage C → ℕ
  sum_claims total_sum [] s = total_sum
  sum_claims total_sum (item_id ∷ items) s =
      sum_claims (add128 total_sum (claim_value_of item_id s)) items s

  unfoldable pub get_active_vipp_amount : ℕ → Storage C → ℕ
  get_active_vipp_amount account s = sum_claims 0 (owned C C.vipp_collection account s) s

  -- 95 percent.
  unfoldable pub most_of : ℕ → ℕ
  most_of amount = C.perbill.scale (C.perbill.from_rational 95 100) amount

  unfoldable pub threshold_meets_vipp_requirements : ℕ → ℕ → Storage C → Bool
  threshold_meets_vipp_requirements account claim_balance s =
      ltb (most_of claim_balance) (C.total_balance account s.balances)

  -- A new VIPP item for an amount; what is answered has the item of the NAC.
  unfoldable pub issue_vipp : ℕ → ℕ → Storage C → Option (ℕ × ℕ) × Storage C
  issue_vipp account amount s =
      let vipp_item = create_unique_item_id C account s in
      let (minted, s₁) = attempt C (C.nfts.mint_into C.vipp_collection vipp_item account) s in
      let (marked, s₂) =
        attempt C (C.nfts.set_attribute C.vipp_collection vipp_item claim_amount (C.encode amount))
          s₁ in
      elim (get_nac_level C account s₂) [
        | none ↦ (none, s₂)
        | some (_, item_id) ↦
            if minted && marked
            then (some (most_of amount, item_id), emit C (vipp_nft_minted account item_id) s₂)
            else (none, s₂)
      ]

  unfoldable pub mint_vipp_nft : ℕ → Storage C → Option (ℕ × ℕ) × Storage C
  mint_vipp_nft account s = elim (get_claim_balance account s) [
    | none ↦ (none, s)
    | some (claim_balance, _) ↦
        let active_vipp_amount = get_active_vipp_amount account s in
        if threshold_meets_vipp_requirements account claim_balance s
          && leb active_vipp_amount claim_balance
        then issue_vipp account (claim_balance - active_vipp_amount) s
        else (none, s)
  ]

  unfoldable pub can_mint_vipp : ℕ → Storage C → Option (ℕ × ℕ) × Storage C
  can_mint_vipp account s = elim (first (owned C C.nft_collection account s)) [
    | none ↦ (none, s)
    | some item_id ↦
        if is_some (attribute C C.nft_collection item_id vipp_status s)
        then (none, s)
        else if is_some (get_claim_balance account s)
        then mint_vipp_nft account s
        else (none, s)
  ]

  unfoldable pub set_inactive_attribute_vipp : ℕ → Storage C → Storage C
  set_inactive_attribute_vipp account s = elim (get_nac_level C account s) [
    | none ↦ s
    | some (_, item_id) ↦
        (attempt C (C.nfts.set_attribute C.nft_collection item_id vipp_status (1 ∷ [])) s).1
  ]

  -- The claim amount of an item, or zero.
  unfoldable pub claimed_of : ℕ → Storage C → ℕ
  claimed_of item s =
      decode_or_zero (unwrap_or (attribute C C.nft_collection item claim_amount s) [])

  unfoldable pub decrease_thrsehold : ℕ → ℕ → Call C (Unit {0})
  decrease_thrsehold account amount = do
    items ← gets (owned C C.nft_collection account)
    item ← ok_or (first items) nft_not_found
    currently_claimed ← gets (claimed_of item)
    try_nfts C (
        C.nfts.set_attribute C.nft_collection item claim_amount
          (C.encode (currently_claimed - amount)))

  -- The item with the lowest claim value, as encoded.
  unfoldable pub lowest_claim : List ℕ → Storage C → Option (List ℕ × ℕ) → Option (List ℕ × ℕ)
  lowest_claim [] s lowest = lowest
  lowest_claim (item_id ∷ items) s lowest =
      lowest_claim items s (elim (attribute C C.vipp_collection item_id claim_amount s) [
        | none ↦ lowest
        | some claim_value ↦ lower_claim claim_value item_id lowest
      ])

  -- The item burned, the handler told, and the threshold decreased; failures are ignored.
  unfoldable pub take_vipp : ℕ → List ℕ → ℕ → Storage C → Storage C
  take_vipp account amount item_id s =
      let (_, s₁) = attempt C (C.nfts.burn C.vipp_collection item_id account) s in
      let s₂ = record s₁ { members = C.burn_vipp account item_id s₁.members } in
      (decrease_thrsehold account (decode_or_zero amount) s₂).1

  unfoldable pub burn_vipp_nft : ℕ → Storage C → Bool × Storage C
  burn_vipp_nft account s = elim (lowest_claim (owned C C.vipp_collection account s) s none) [
    | none ↦ (false, set_inactive_attribute_vipp account s)
    | some (amount, item_id) ↦ (true, take_vipp account amount item_id s)
  ]

  -- Whether the loop of `check_account_threshold` goes on with burning.
  unfoldable pub is_below_threshold : ℕ → Storage C → Bool
  is_below_threshold account s = elim (get_claim_balance account s) [
    | none ↦ false
    | some (claim_balance, _) ↦ not (threshold_meets_vipp_requirements account claim_balance s)
  ]

  -- The loop, with the rounds that it may do; each takes a VIPP item away.
  unfoldable pub burn_below_threshold : ℕ → ℕ → Call C (Unit {0})
  burn_below_threshold zero account s = (err out_of_fuel, s)
  burn_below_threshold (suc fuel) account s = elim (is_below_threshold account s) [
    | false ↦ (ok tt, s)
    | true ↦
        let (burned, s') = burn_vipp_nft account s in
        elim burned [ true ↦ burn_below_threshold fuel account s' | false ↦ (ok tt, s') ]
  ]

  unfoldable pub check_account_threshold : ℕ → Call C (Unit {0})
  check_account_threshold account s =
      burn_below_threshold (suc (length (owned C C.vipp_collection account s))) account s

  -- `while burn_vipp_nft(account) {}` of pallets/privileges, with the rounds that it may do.
  unfoldable pub burn_all : ℕ → ℕ → Call C (Unit {0})
  burn_all zero account s = (err out_of_fuel, s)
  burn_all (suc fuel) account s =
      let (burned, s') = burn_vipp_nft account s in
      elim burned [ true ↦ burn_all fuel account s' | false ↦ (ok tt, s') ]
