-- ===== src/NacManaging/Vipp/Burning.antt =====
-- The loops that burn VIPP items end (pallets/nac-managing/src/lib.rs).
use power_plant.Prelude.{
  ℕ, zero, suc, ◌-◌, ◌<◌, ◌≡◌, ◌≢◌, ◌⊎◌, refl, ap, ◌∙◌, inl, inr, true, false, Option, none, some,
  List, [], ◌∷◌, arith, Bool-cases, Option-cases, length, ok, member,
}
use power_plant.NacManaging.{
  Key, claim_amount, vipp_status, Nfts, Config, Storage, owned, attribute,
}
use power_plant.NacManaging.Items.{first, get_nac_level}
use power_plant.NacManaging.Vipp.{
  lower_claim, lowest_claim, decode_or_zero, decrease_thrsehold, take_vipp, burn_vipp_nft, burn_all,
  burn_below_threshold, check_account_threshold, is_below_threshold, set_inactive_attribute_vipp,
  claimed_of,
}

-- Burning an item that the account owns succeeds and leaves it fewer; an attribute that is set changes neither
-- owners nor the attributes of other collections, and reads back; minting changes nothing of other collections.
pub record IsRegistry (N : Nfts) : Type 0 where
  pub burn_owned :
      (collection item account : ℕ) (r : N.Registry)
      → member item (N.owned_in_collection collection account r) ≡ true
      → (r' : N.Registry) × (N.burn collection item account r ≡ some r')
        × (length (N.owned_in_collection collection account r')
            < length (N.owned_in_collection collection account r))
  pub set_owned :
      {c item : ℕ} {k : Key} {v : List ℕ} {r r' : N.Registry} (collection account : ℕ)
      → N.set_attribute c item k v r ≡ some r'
      → N.owned_in_collection collection account r' ≡ N.owned_in_collection collection account r
  pub get_set :
      {c item : ℕ} {k : Key} {v : List ℕ} {r r' : N.Registry}
      → N.set_attribute c item k v r ≡ some r'
      → N.system_attribute c item k r' ≡ some v
  pub mint_owned :
      {c item who : ℕ} {r r' : N.Registry} (collection account : ℕ)
      → N.mint_into c item who r ≡ some r'
      → collection ≢ c
      → N.owned_in_collection collection account r' ≡ N.owned_in_collection collection account r
  pub mint_other :
      {c item who : ℕ} {r r' : N.Registry} (collection : ℕ)
      → N.mint_into c item who r ≡ some r'
      → collection ≢ c
      → (item' : ℕ) (k' : Key)
      → N.system_attribute collection item' k' r' ≡ N.system_attribute collection item' k' r
  pub set_other :
      {c item : ℕ} {k : Key} {v : List ℕ} {r r' : N.Registry} (collection : ℕ)
      → N.set_attribute c item k v r ≡ some r'
      → collection ≢ c
      → (item' : ℕ) (k' : Key)
      → N.system_attribute collection item' k' r' ≡ N.system_attribute collection item' k' r

module _ (C : Config) where
  lower_claim_either :
      (v : List ℕ) (i : ℕ) (lowest : Option (List ℕ × ℕ))
      → (lower_claim v i lowest ≡ some (v, i)) ⊎ (lower_claim v i lowest ≡ lowest)
  unfolding lower_claim
  lower_claim_either v i none = inl refl
  lower_claim_either v i (some (m, j)) = ground arith

  lowest_claim-member :
      (items : List ℕ) (s : Storage C) (lowest : Option (List ℕ × ℕ)) (amount : List ℕ) (item : ℕ)
      → lowest_claim C items s lowest ≡ some (amount, item)
      → (lowest ≡ some (amount, item)) ⊎ (member item items ≡ true)
  unfolding lowest_claim member
  lowest_claim-member [] s lowest amount item h = inl h
  lowest_claim-member (i ∷ items) s lowest amount item h =
      elim (Option-cases (attribute C C.vipp_collection i claim_amount s)) [
        | inl e ↦ ground (arith, lowest_claim-member items s lowest amount item)
        | inr (v, e) ↦
            let either = lower_claim_either v i lowest in
            ground (arith, lowest_claim-member items s (lower_claim v i lowest) amount item)
      ]

  module _ (laws : IsRegistry C.nfts) (account : ℕ) where
    abbrev pub vipps : Storage C → ℕ
    vipps s = length (owned C C.vipp_collection account s)

    decrease-vipps :
        (amount : ℕ) (s : Storage C) → vipps (decrease_thrsehold C account amount s).1 ≡ vipps s
    unfolding decrease_thrsehold
    decrease-vipps amount s = elim (Option-cases (first (owned C C.nft_collection account s))) [
      | inl e ↦ ground arith
      | inr (item, e) ↦
          elim (Option-cases (
            C.nfts.set_attribute C.nft_collection item claim_amount
              (C.encode (claimed_of C item s - amount)) s.registry)) [
                | inl f ↦ ground arith
                | inr (r', done) ↦
                    let same = laws.set_owned C.vipp_collection account done in ground arith
              ]
    ]

    take_vipp-lt :
        (amount : List ℕ) (item : ℕ) (s : Storage C)
        → member item (owned C C.vipp_collection account s) ≡ true
        → vipps (take_vipp C account amount item s) < vipps s
    unfolding take_vipp
    take_vipp-lt amount item s h =
        let (r', burned, fewer) = laws.burn_owned C.vipp_collection item account s.registry h in
        let s₂ = record s { registry = r'; members = C.burn_vipp account item s.members } in
        let same = decrease-vipps (decode_or_zero C amount) s₂ in ground arith

    -- A round that burns takes an item away; one that does not met no item with a claim value, and only marks the
    -- NAC.
    pub burn_vipp_nft_lem :
        (s : Storage C)
        → (((burn_vipp_nft C account s).0 ≡ true) × (vipps (burn_vipp_nft C account s).1 < vipps s))
          ⊎ (((burn_vipp_nft C account s).0 ≡ false)
              × ((burn_vipp_nft C account s).1 ≡ set_inactive_attribute_vipp C account s)
              × (lowest_claim C (owned C C.vipp_collection account s) s none ≡ none))
    unfolding burn_vipp_nft
    burn_vipp_nft_lem s =
        elim (Option-cases (lowest_claim C (owned C C.vipp_collection account s) s none)) [
          | inl e ↦ ground arith
          | inr ((amount, item), e) ↦
              let held =
                lowest_claim-member (owned C C.vipp_collection account s) s none amount item e in
              let fewer = take_vipp-lt amount item s (ground arith) in ground arith
        ]

    set_inactive-owned :
        (s : Storage C)
        → owned C C.vipp_collection account (set_inactive_attribute_vipp C account s)
          ≡ owned C C.vipp_collection account s
    unfolding set_inactive_attribute_vipp
    set_inactive-owned s = elim (Option-cases (get_nac_level C account s)) [
      | inl e ↦ ground arith
      | inr ((level, nac), e) ↦
          elim (Option-cases
            (C.nfts.set_attribute C.nft_collection nac vipp_status (1 ∷ []) s.registry)) [
              | inl f ↦ ground arith
              | inr (r', done) ↦
                  let same = laws.set_owned C.vipp_collection account done in ground arith
            ]
    ]

    set_inactive-attribute :
        (item : ℕ) (s : Storage C)
        → C.vipp_collection ≢ C.nft_collection
        → attribute C C.vipp_collection item claim_amount (set_inactive_attribute_vipp C account s)
          ≡ attribute C C.vipp_collection item claim_amount s
    unfolding set_inactive_attribute_vipp
    set_inactive-attribute item s apart = elim (Option-cases (get_nac_level C account s)) [
      | inl e ↦ ground arith
      | inr ((level, nac), e) ↦
          elim (Option-cases
            (C.nfts.set_attribute C.nft_collection nac vipp_status (1 ∷ []) s.registry)) [
              | inl f ↦ ground arith
              | inr (r', done) ↦
                  let same = laws.set_other C.vipp_collection done apart item claim_amount in
                  ground arith
            ]
    ]

    set_inactive-lowest :
        (items : List ℕ) (s : Storage C)
        → C.vipp_collection ≢ C.nft_collection
        → (lowest : Option (List ℕ × ℕ))
        → lowest_claim C items (set_inactive_attribute_vipp C account s) lowest
          ≡ lowest_claim C items s lowest
    unfolding lowest_claim
    set_inactive-lowest [] s apart lowest = refl
    set_inactive-lowest (i ∷ items) s apart lowest =
        let s' = set_inactive_attribute_vipp C account s in
        let next = λ (a : Option (List ℕ)). elim a as (λ _. Option (List ℕ × ℕ)) [
          | none ↦ lowest
          | some claim_value ↦ lower_claim claim_value i lowest
        ] in
        set_inactive-lowest items s apart (next (attribute C C.vipp_collection i claim_amount s'))
        ∙ ap (λ (a : Option (List ℕ)). lowest_claim C items s (next a))
            (set_inactive-attribute i s apart)

    -- No VIPP item that the account owns has a claim value.
    abbrev pub HasNoClaims : Storage C → Type 0
    HasNoClaims s = lowest_claim C (owned C C.vipp_collection account s) s none ≡ none

    pub set_inactive-HasNoClaims :
        (s : Storage C)
        → C.vipp_collection ≢ C.nft_collection
        → HasNoClaims s
        → HasNoClaims (set_inactive_attribute_vipp C account s)
    set_inactive-HasNoClaims s apart none_left =
        let s' = set_inactive_attribute_vipp C account s in
        ap (λ (items : List ℕ). lowest_claim C items s' none) (set_inactive-owned s)
        ∙ set_inactive-lowest (owned C C.vipp_collection account s) s apart none
        ∙ none_left

    -- If the registry is one and the collections differ: with more rounds than the account has VIPP items, the
    -- loop that burns them all ends, and then no VIPP item of the account has a claim value.
    pub burn_all_ends :
        (fuel : ℕ) (s : Storage C)
        → C.vipp_collection ≢ C.nft_collection
        → vipps s < fuel
        → ((burn_all C fuel account s).0 ≡ ok tt) × HasNoClaims (burn_all C fuel account s).1
    unfolding burn_all
    burn_all_ends zero s apart h = absurd (omega arith)
    burn_all_ends (suc fuel) s apart h =
        let s' = (burn_vipp_nft C account s).1 in
        elim (burn_vipp_nft_lem s) [
          | inl (burned, fewer) ↦
              let rest = burn_all_ends fuel s' apart (omega arith) in ground arith
          | inr (stopped, marked, clean) ↦
              let ends : HasNoClaims s' = rw marked (set_inactive-HasNoClaims s apart clean) in
              ground arith
        ]

    burn_below_threshold_ends :
        (fuel : ℕ) (s : Storage C)
        → C.vipp_collection ≢ C.nft_collection
        → vipps s < fuel
        → ((burn_below_threshold C fuel account s).0 ≡ ok tt)
          × ((is_below_threshold C account (burn_below_threshold C fuel account s).1 ≡ false)
              ⊎ HasNoClaims (burn_below_threshold C fuel account s).1)
    unfolding burn_below_threshold
    burn_below_threshold_ends zero s apart h = absurd (omega arith)
    burn_below_threshold_ends (suc fuel) s apart h =
        let s' = (burn_vipp_nft C account s).1 in
        elim (Bool-cases (is_below_threshold C account s)) [
          | inr above ↦ ground arith
          | inl below ↦ elim (burn_vipp_nft_lem s) [
            | inl (burned, fewer) ↦
                let rest = burn_below_threshold_ends fuel s' apart (omega arith) in ground arith
            | inr (stopped, marked, clean) ↦
                let ends : HasNoClaims s' = rw marked (set_inactive-HasNoClaims s apart clean) in
                ground arith
          ]
        ]

    -- If the registry is one and the collections differ: the check of the threshold ends, with the account no
    -- longer below its threshold, or with no VIPP item that has a claim value.
    pub check_account_threshold_ends :
        (s : Storage C)
        → C.vipp_collection ≢ C.nft_collection
        → ((check_account_threshold C account s).0 ≡ ok tt)
          × ((is_below_threshold C account (check_account_threshold C account s).1 ≡ false)
              ⊎ HasNoClaims (check_account_threshold C account s).1)
    unfolding check_account_threshold
    check_account_threshold_ends s apart =
        burn_below_threshold_ends (suc (vipps s)) s apart (omega arith)
