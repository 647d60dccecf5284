-- ===== src/Claiming/Claims/Once.antt =====
-- Who can claim, what is paid, and that it is paid once (pallets/claiming/src/lib.rs).
use power_plant.Prelude.{
  ℕ, ◌≡◌, ◌≢◌, ◌⊎◌, refl, inl, inr, true, Option, none, some, [], arith, Option-cases, u128_max,
  saturating_add, Result, ok, err, is_some, unwrap_or,
}
use power_plant.Claiming.Message.{to_ascii_hex}
use power_plant.Claiming.Claims.{
  Config, Storage, Schedule, Error, signer_has_no_claim, invalid_ethereum_signature,
  duplicate_vesting_schedule, none_origin, root, calls_claim, calls_mint_claim, dispatch, claim,
  process_claim, mint_claim, validate_unsigned, eth_recover,
}

-- The result of a call against what the transaction pool said of it.
abbrev pub IsForeseen : Result Error ℕ → Result Error (Unit {0}) → Type 0
IsForeseen (err e) r = r ≡ err e
IsForeseen (ok signer) r = (r ≢ err invalid_ethereum_signature) × (r ≢ err signer_has_no_claim)

module _ (C : Config) where
  -- After a claim that succeeded, no call of `claim` whose signature is of the same signer
  -- succeeds: it fails for the missing claim and changes nothing.
  pub claim_once :
      (dest signature dest' signature' signer : ℕ) (s : Storage C)
      → eth_recover C signature (to_ascii_hex (C.encode dest)) [] ≡ some signer
      → eth_recover C signature' (to_ascii_hex (C.encode dest')) [] ≡ some signer
      → (dispatch C none_origin (calls_claim dest signature) s).0 ≡ ok tt
      → let s' = (dispatch C none_origin (calls_claim dest signature) s).1 in
        dispatch C none_origin (calls_claim dest' signature') s' ≡ (err signer_has_no_claim, s')
  unfolding dispatch claim process_claim
  claim_once dest signature dest' signature' signer s e e' h = ground arith

  foreseen :
      (dest signature : ℕ) (s : Storage C) (v : Result Error ℕ)
      → validate_unsigned C dest signature s ≡ v
      → IsForeseen v (dispatch C none_origin (calls_claim dest signature) s).0
  unfolding dispatch claim process_claim validate_unsigned
  foreseen dest signature s (err e) h = ground arith
  foreseen dest signature s (ok signer) h = (λ k. ground arith, λ k. ground arith)

  -- A transaction that the pool refuses would fail with the same error, and one that it accepts does not
  -- fail for its signature or for a missing claim.
  pub validate_unsigned_lem :
      (dest signature : ℕ) (s : Storage C)
      → IsForeseen
          (validate_unsigned C dest signature s)
          (dispatch C none_origin (calls_claim dest signature) s).0
  validate_unsigned_lem dest signature s =
      foreseen dest signature s (validate_unsigned C dest signature s) refl

  -- A claim that succeeds has transferred exactly the amount of its signer, and its schedule and data are
  -- used up with it.
  pub claim_pays :
      (dest signature signer amount : ℕ) (s : Storage C)
      → eth_recover C signature (to_ascii_hex (C.encode dest)) [] ≡ some signer
      → s.claims signer ≡ some amount
      → (dispatch C none_origin (calls_claim dest signature) s).0 ≡ ok tt
      → let s' = (dispatch C none_origin (calls_claim dest signature) s).1 in
        (a : C.State) × (C.transfer dest amount s.others ≡ some a)
        × (s'.claims signer ≡ none)
        × (s'.vesting signer ≡ none)
        × (s'.claims_data signer ≡ none)
  unfolding dispatch claim process_claim
  claim_pays dest signature signer amount s e found h =
      elim (Option-cases (C.transfer dest amount s.others)) [
        | inl n ↦ absurd (ground arith)
        | inr (a, p) ↦ (a, p, ground arith, ground arith, ground arith)
      ]

  -- Root can mint a claim exactly when it brings no second schedule; the amount then grows by the value,
  -- and the data become those of the call, so that a call without data deletes the data. A refused call
  -- changes nothing.
  pub mint_claim_lem :
      (who value : ℕ) (schedule : Option Schedule) (claim_data : Option ℕ) (s : Storage C)
      → let (r, s') = dispatch C root (calls_mint_claim who value schedule claim_data) s in
        ((r ≡ err duplicate_vesting_schedule)
          × (s' ≡ s)
          × (is_some schedule ≡ true)
          × (is_some (s.vesting who) ≡ true))
        ⊎ ((r ≡ ok tt)
            × (s'.claims who ≡ some (saturating_add u128_max (unwrap_or (s.claims who) 0) value))
            × (s'.claims_data who ≡ claim_data))
  unfolding dispatch mint_claim
  mint_claim_lem who value schedule claim_data s = ground arith
