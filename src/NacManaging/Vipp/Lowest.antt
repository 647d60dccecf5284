-- ===== src/NacManaging/Vipp/Lowest.antt =====
-- The VIPP item that is burned first (pallets/nac-managing/src/lib.rs).
use mathlib.Core.Path.{subst}
use power_plant.Prelude.{
  ℕ, ◌%◌, ◌≤◌, ◌<◌, ◌≡◌, ◌≢◌, ap, ◌∙◌, refl, inl, inr, true, false, Option, none, some, List, [],
  ◌∷◌, arith, ◌==◌, Bool-cases, Option-cases, member,
}
use power_plant.NacManaging.{claim_amount, Config, Storage, owned, attribute}
use power_plant.NacManaging.Vipp.{bytes_ltb, lower_claim, lowest_claim, burn_vipp_nft, take_vipp}

bytes_ltb_trans :
    (x y z : List ℕ) → bytes_ltb x y ≡ true → bytes_ltb y z ≡ true → bytes_ltb x z ≡ true
unfolding bytes_ltb
bytes_ltb_trans x [] z h k = absurd (ground arith)
bytes_ltb_trans x (b ∷ y) [] h k = absurd (ground arith)
bytes_ltb_trans [] (b ∷ y) (c ∷ z) h k = refl
bytes_ltb_trans (a ∷ x) (b ∷ y) (c ∷ z) h k = ground (arith, bytes_ltb_trans x y z)

-- The claim value that is held, or no byte string where there is none, is at most the other.
abbrev IsAtMost : Option (List ℕ × ℕ) → List ℕ → Type 0
IsAtMost none v = ⊥
IsAtMost (some (m, _)) v = bytes_ltb v m ≡ false

bytes_ltb_irrefl : (x : List ℕ) → bytes_ltb x x ≡ false
unfolding bytes_ltb
bytes_ltb_irrefl [] = refl
bytes_ltb_irrefl (a ∷ x) = ground (arith, bytes_ltb_irrefl x)

lower_claim_own :
    (v : List ℕ) (i : ℕ) (lowest : Option (List ℕ × ℕ)) → IsAtMost (lower_claim v i lowest) v
unfolding lower_claim
lower_claim_own v i none = bytes_ltb_irrefl v
lower_claim_own v i (some (m, j)) = ground (arith, bytes_ltb_irrefl v)

lower_claim_keeps :
    (v w : List ℕ) (i : ℕ) (lowest : Option (List ℕ × ℕ))
    → IsAtMost lowest w
    → IsAtMost (lower_claim v i lowest) w
unfolding lower_claim
lower_claim_keeps v w i none h = absurd h
lower_claim_keeps v w i (some (m, j)) h = elim (Bool-cases (bytes_ltb v m)) [
  | inr f ↦ rw f h
  | inl t ↦ elim (Bool-cases (bytes_ltb w v)) [
    | inl lower ↦ absurd (ground (arith, bytes_ltb_trans w v m))
    | inr f ↦ rw t f
  ]
]

module _ (C : Config) (s : Storage C) where
  lowest_claim_keeps :
      (items : List ℕ) (lowest : Option (List ℕ × ℕ)) (w : List ℕ)
      → IsAtMost lowest w
      → IsAtMost (lowest_claim C items s lowest) w
  unfolding lowest_claim
  lowest_claim_keeps [] lowest w h = h
  lowest_claim_keeps (i ∷ items) lowest w h =
      elim (Option-cases (attribute C C.vipp_collection i claim_amount s)) [
        | inl e ↦ rw e (lowest_claim_keeps items lowest w h)
        | inr (v, e) ↦
            rw e (
              lowest_claim_keeps items (lower_claim v i lowest) w
                (lower_claim_keeps v w i lowest h))
      ]

  lowest_claim_least :
      (items : List ℕ) (lowest : Option (List ℕ × ℕ)) (j : ℕ) (w : List ℕ)
      → member j items ≡ true
      → attribute C C.vipp_collection j claim_amount s ≡ some w
      → IsAtMost (lowest_claim C items s lowest) w
  unfolding lowest_claim member
  lowest_claim_least [] lowest j w m h = absurd (ground arith)
  lowest_claim_least (i ∷ items) lowest j w m h = elim (Bool-cases (j == i)) [
    | inl t ↦
        let same : j ≡ i = ground arith in
        let at : attribute C C.vipp_collection i claim_amount s ≡ some w = rw (← same) h in
        rw at (lowest_claim_keeps items (lower_claim w i lowest) w (lower_claim_own w i lowest))
    | inr f ↦ lowest_claim_least items _ j w (ground arith) h
  ]

  -- If the account has a VIPP item with a claim value, a VIPP item is burned whose encoded claim value is at most
  -- that one, in the order of byte strings.
  pub burn_vipp_nft_least :
      (account j : ℕ) (w : List ℕ)
      → member j (owned C C.vipp_collection account s) ≡ true
      → attribute C C.vipp_collection j claim_amount s ≡ some w
      → (amount : List ℕ) × (item : ℕ) × (burn_vipp_nft C account s
          ≡ (true, take_vipp C account amount item s))
        × (bytes_ltb w amount ≡ false)
  unfolding burn_vipp_nft
  burn_vipp_nft_least account j w m h =
      let items = owned C C.vipp_collection account s in
      let least = lowest_claim_least items none j w m h in
      elim (Option-cases (lowest_claim C items s none)) [
        | inl e ↦ absurd (subst (λ (o : Option (List ℕ × ℕ)). IsAtMost o w) e least)
        | inr ((amount, item), e) ↦
            (amount, item, ground arith, subst (λ (o : Option (List ℕ × ℕ)). IsAtMost o w) e least)
      ]

  -- The claim value that is held is that of its item, which is listed.
  abbrev IsClaimOf : List ℕ → Option (List ℕ × ℕ) → Type 0
  IsClaimOf items none = Unit
  IsClaimOf items (some (m, i)) =
      (member i items ≡ true) × (attribute C C.vipp_collection i claim_amount s ≡ some m)

  lower_claim-IsClaimOf :
      (all : List ℕ) (lowest : Option (List ℕ × ℕ)) (v : List ℕ) (i : ℕ)
      → member i all ≡ true
      → attribute C C.vipp_collection i claim_amount s ≡ some v
      → IsClaimOf all lowest
      → IsClaimOf all (lower_claim v i lowest)
  unfolding lower_claim
  lower_claim-IsClaimOf all none v i listed at held = (listed, at)
  lower_claim-IsClaimOf all (some (m, j)) v i listed at held = elim (Bool-cases (bytes_ltb v m)) [
    | inl t ↦ rw t (listed, at)
    | inr f ↦ rw f held
  ]

  lowest_claim-IsClaimOf :
      (all items : List ℕ) (lowest : Option (List ℕ × ℕ))
      → ((i : ℕ) → member i items ≡ true → member i all ≡ true)
      → IsClaimOf all lowest
      → IsClaimOf all (lowest_claim C items s lowest)
  unfolding lowest_claim member
  lowest_claim-IsClaimOf all [] lowest within held = held
  lowest_claim-IsClaimOf all (i ∷ items) lowest within held =
      let rest : (j : ℕ) → member j items ≡ true → member j all ≡ true =
        λ j m. within j (ground arith) in
      let listed = within i (ground arith) in
      elim (Option-cases (attribute C C.vipp_collection i claim_amount s)) [
        | inl e ↦ rw e (lowest_claim-IsClaimOf all items lowest rest held)
        | inr (v, e) ↦ rw e (
            lowest_claim-IsClaimOf all items _ rest
              (lower_claim-IsClaimOf all lowest v i listed e held))
      ]

  bytes_ltb_first : (a b : ℕ) (x y : List ℕ) → bytes_ltb (a ∷ x) (b ∷ y) ≡ false → b ≤ a
  unfolding bytes_ltb
  bytes_ltb_first a b x y h = ground arith

  -- If balances are encoded with their lowest byte first and the VIPP items of an account have claim values, the item
  -- whose claim value has a lower lowest byte than all others is the one that is burned, however large its
  -- claim value is.
  pub burn_vipp_nft_first_byte :
      (account j : ℕ) (value : ℕ → ℕ) (high : ℕ → List ℕ)
      → ((n : ℕ) → C.encode n ≡ n % 256 ∷ high n)
      → ((i : ℕ)
          → member i (owned C C.vipp_collection account s) ≡ true
          → attribute C C.vipp_collection i claim_amount s ≡ some (C.encode (value i)))
      → member j (owned C C.vipp_collection account s) ≡ true
      → ((i : ℕ)
          → member i (owned C C.vipp_collection account s) ≡ true
          → i ≢ j
          → value j % 256 < value i % 256)
      → burn_vipp_nft C account s ≡ (true, take_vipp C account (C.encode (value j)) j s)
  unfolding burn_vipp_nft
  burn_vipp_nft_first_byte account j value high bytes claims owns lower =
      let items = owned C C.vipp_collection account s in
      let least = lowest_claim_least items none j (C.encode (value j)) owns (claims j owns) in
      let claim = lowest_claim-IsClaimOf items items none (λ i m. m) tt in
      elim (Option-cases (lowest_claim C items s none)) [
        | inl e ↦
            absurd (subst (λ (o : Option (List ℕ × ℕ)). IsAtMost o (C.encode (value j))) e least)
        | inr ((m, i), e) ↦
            let least' : bytes_ltb (C.encode (value j)) m ≡ false =
              subst (λ (o : Option (List ℕ × ℕ)). IsAtMost o (C.encode (value j))) e least in
            let (listed, at) = subst (IsClaimOf items) e claim in
            let own = claims i listed in
            let held : m ≡ C.encode (value i) = ground arith in
            let first : bytes_ltb (value j % 256 ∷ high (value j)) (value i % 256 ∷ high (value i))
                ≡ false =
              rw (← bytes (value j), ← bytes (value i), ← held) least' in
            let le = bytes_ltb_first _ _ _ _ first in
            elim (Bool-cases (i == j)) [
              | inl t ↦
                  let same : i ≡ j = ground arith in
                  let burned : burn_vipp_nft C account s ≡ (true, take_vipp C account m i s) =
                    ground arith in
                  burned
                  ∙ ap (λ (v : List ℕ). (true, take_vipp C account v i s)) held
                  ∙ ap (λ (k : ℕ). (true, take_vipp C account (C.encode (value k)) k s)) same
              | inr f ↦ absurd (let lt = lower i listed (ground arith) in omega arith)
            ]
      ]
