-- ===== src/NacManaging/Pallet/Laws.antt =====
-- Claims, levels and VIPP items (pallets/nac-managing/src/lib.rs).
use power_plant.Prelude.{
  ℕ, ◌-◌, ◌≤◌, ◌≡◌, ◌≢◌, ◌⊎◌, inl, inr, true, some, arith, ◌==◌, Bool-cases, Option-cases, u128_max,
  saturating_add, ok,
}
use power_plant.NacManaging.{claim_amount, Config, Storage, attempt, owned, attribute}
use power_plant.NacManaging.Items.{first, get_nac_level, create_unique_item_id}
use power_plant.NacManaging.Vipp.{
  mint_vipp_nft, issue_vipp, claimed_of, get_claim_balance, get_active_vipp_amount,
  threshold_meets_vipp_requirements, most_of,
}
use power_plant.NacManaging.Vipp.Burning.{IsRegistry}
use power_plant.NacManaging.Pallet.{mint_vipp, on_claim}

module _ (C : Config) (laws : IsRegistry C.nfts)
    (apart : C.nft_collection ≢ C.vipp_collection) where
  -- The NAC items of an account, and the claim amount of an item, are the same.
  abbrev SameNac : ℕ → ℕ → Storage C → Storage C → Type 0
  SameNac who item s s' =
      (owned C C.nft_collection who s' ≡ owned C C.nft_collection who s)
      × (attribute C C.nft_collection item claim_amount s'
          ≡ attribute C C.nft_collection item claim_amount s)

  issue_vipp-SameNac :
      (who account item amount : ℕ) (s : Storage C)
      → SameNac who item s (issue_vipp C account amount s).1
  unfolding issue_vipp
  issue_vipp-SameNac who account item amount s =
      let vipp_item = create_unique_item_id C account s in
      let N = C.nfts in
      elim (Option-cases (N.mint_into C.vipp_collection vipp_item account s.registry)) [
        | inl e ↦
            elim (Option-cases (
              N.set_attribute C.vipp_collection vipp_item claim_amount (C.encode amount)
                s.registry)) [
                  | inl f ↦ ground arith
                  | inr (r, is_r) ↦
                      let a = laws.set_owned C.nft_collection who is_r in
                      let b = laws.set_other C.nft_collection is_r apart item claim_amount in
                      ground arith
                ]
        | inr (q, is_q) ↦
            let c = laws.mint_owned C.nft_collection who is_q apart in
            let d = laws.mint_other C.nft_collection is_q apart item claim_amount in
            elim (Option-cases
              (N.set_attribute C.vipp_collection vipp_item claim_amount (C.encode amount) q)) [
                | inl f ↦ ground arith
                | inr (r, is_r) ↦
                    let a = laws.set_owned C.nft_collection who is_r in
                    let b = laws.set_other C.nft_collection is_r apart item claim_amount in
                    ground arith
              ]
      ]

  mint_vipp_nft-SameNac :
      (who account item : ℕ) (s : Storage C) → SameNac who item s (mint_vipp_nft C account s).1
  unfolding mint_vipp_nft
  mint_vipp_nft-SameNac who account item s =
      let active = get_active_vipp_amount C account s in
      elim (Option-cases (get_claim_balance C account s)) [
        | inl e ↦ ground arith
        | inr ((claim, nac), e) ↦
            let same = issue_vipp-SameNac who account item (claim - active) s in ground arith
      ]

  mint_vipp-SameNac :
      (who account item : ℕ) (s : Storage C) → SameNac who item s (mint_vipp C account s)
  unfolding mint_vipp
  mint_vipp-SameNac who account item s =
      let same = mint_vipp_nft-SameNac who account item s in
      elim (Option-cases (mint_vipp_nft C account s).0) [
        | inl e ↦ ground arith
        | inr ((amount, nac), e) ↦ ground arith
      ]

  -- If the registry is one, the collections differ and balances read back as they are written: after a claim of
  -- an account that has a NAC, its claim balance is the former one with the amount added, at most the largest
  -- balance, and stands at the same item; where it had none, the handler of the VIPP members is not told of anything.
  pub on_claim_lem :
      (who amount item : ℕ) (s : Storage C)
      → ((n : ℕ) → n ≤ u128_max → C.decode (C.encode n) ≡ some n)
      → first (owned C C.nft_collection who s) ≡ some item
      → (on_claim C who amount s).0 ≡ ok tt
      → let s' = (on_claim C who amount s).1 in
        (get_claim_balance C who s'
          ≡ some (saturating_add u128_max (claimed_of C item s) amount, item))
        × ((s'.members ≡ s.members) ⊎ (claimed_of C item s ≢ 0))
  unfolding on_claim get_claim_balance
  on_claim_lem who amount item s reads has done =
      let total = saturating_add u128_max (claimed_of C item s) amount in
      let read = reads total (ground arith) in
      elim (Option-cases
        (C.nfts.set_attribute C.nft_collection item claim_amount (C.encode total) s.registry)) [
          | inl e ↦ ground arith
          | inr (r, is_r) ↦
              let s₁ : Storage C = record s { registry = r } in
              let owners = laws.set_owned C.nft_collection who is_r in
              let written = laws.get_set is_r in
              let same = mint_vipp-SameNac who who item s₁ in
              elim (Bool-cases (claimed_of C item s == 0)) [
                | inl none_yet ↦ ground arith
                | inr more ↦ ground arith
              ]
        ]

  issue_vipp_item :
      (account amount told item : ℕ) (s : Storage C)
      → (issue_vipp C account amount s).0 ≡ some (told, item)
      → (told ≡ most_of C amount)
        × (first (owned C C.nft_collection account (issue_vipp C account amount s).1) ≡ some item)
  unfolding issue_vipp get_nac_level
  issue_vipp_item account amount told item s h =
      let vipp_item = create_unique_item_id C account s in
      let (minted, s₁) = attempt C (C.nfts.mint_into C.vipp_collection vipp_item account) s in
      let (marked, s₂) =
        attempt C (C.nfts.set_attribute C.vipp_collection vipp_item claim_amount (C.encode amount))
          s₁ in
      elim (Option-cases (first (owned C C.nft_collection account s₂))) [
        | inl e ↦ ground arith
        | inr (nac, e) ↦ ground arith
      ]

  -- If a VIPP item is minted, the account has a claim balance that meets its requirements, what is told of is 95
  -- percent of what the balance is above the claim values of its VIPP items, and the item told of is the one that
  -- the account has in the collection of the NACs.
  pub mint_vipp_nft_item :
      (account amount item : ℕ) (s : Storage C)
      → (mint_vipp_nft C account s).0 ≡ some (amount, item)
      → (claim : ℕ) × (nac : ℕ) × (get_claim_balance C account s ≡ some (claim, nac))
        × (threshold_meets_vipp_requirements C account claim s ≡ true)
        × (get_active_vipp_amount C account s ≤ claim)
        × (amount ≡ most_of C (claim - get_active_vipp_amount C account s))
        × (first (owned C C.nft_collection account s) ≡ some item)
  unfolding mint_vipp_nft
  mint_vipp_nft_item account amount item s h = elim (Option-cases (get_claim_balance C account s)) [
    | inl e ↦ absurd (ground arith)
    | inr ((claim, nac), e) ↦
        let active = get_active_vipp_amount C account s in
        let owners = issue_vipp-SameNac account account item (claim - active) s in
        let told = issue_vipp_item account (claim - active) amount item s in
        (claim, nac, e, ground arith, ground arith, ground arith, ground arith)
  ]
