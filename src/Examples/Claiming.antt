-- ===== src/Examples/Claiming.antt =====
-- A claim of 70 tokens with a schedule, out of 100 that the claim account holds.
use power_plant.Prelude.{
  ℕ, ◌+◌, ◌-◌, ◌≡◌, refl, none, some, [], ◌∷◌, arith, leb, ◌==◌, if◌then◌else◌, length, ok, err,
  empty, insert,
}
use power_plant.Claiming.Message.{to_ascii_hex}
use power_plant.Claiming.Message.Digits.{from_hex, from_hex-to_ascii_hex}
use power_plant.Claiming.Claims.{
  Config, Storage, Schedule, signer_has_no_claim, none_origin, calls_claim, dispatch, claim,
  process_claim, eth_recover, validate_unsigned,
}
use power_plant.Claiming.Claims.Once.{IsForeseen, claim_once, validate_unsigned_lem}

-- The state is what the claim account holds; signature 7 is that of address 11 for any message.
abbrev config : Config
config = record {
  State = ℕ;
  transfer = λ dest amount held. if leb amount held then some (held - amount) else none;
  deposit_creating = λ amount held. held + amount;
  add_vesting_schedule = λ dest schedule held. some held;
  on_claim = λ dest amount claim_data held. some held;
  recover = λ signature message. if signature == 7 then some 11 else none;
  encode = λ dest. dest ∷ [];
  prefix = 80 ∷ 58 ∷ [];
}

abbrev schedule : Schedule
schedule = record { locked = 50; per_block = 5; starting_block = 9 }

abbrev storage : Storage config
storage = record {
  claims = insert 11 70 empty;
  vesting = insert 11 schedule empty;
  claims_data = empty;
  events = [];
  others = 100;
}

recovered : (dest : ℕ) → eth_recover config 7 (to_ascii_hex (dest ∷ [])) [] ≡ some 11
unfolding eth_recover
recovered dest = refl

claim_succeeds : (dispatch config none_origin (calls_claim 3 7) storage).0 ≡ ok tt
unfolding dispatch claim process_claim eth_recover
claim_succeeds = refl

claim_once_example :
    let s' = (dispatch config none_origin (calls_claim 3 7) storage).1 in
    dispatch config none_origin (calls_claim 4 7) s' ≡ (err signer_has_no_claim, s')
claim_once_example = claim_once config 3 7 4 7 11 storage (recovered 3) (recovered 4) claim_succeeds

validate_unsigned_lem_example :
    IsForeseen
      (validate_unsigned config 3 7 storage)
      (dispatch config none_origin (calls_claim 3 7) storage).0
validate_unsigned_lem_example = validate_unsigned_lem config 3 7 storage

from_hex-to_ascii_hex_example :
    (from_hex (to_ascii_hex (171 ∷ 5 ∷ [])) ≡ some (171 ∷ 5 ∷ []))
    × (length (to_ascii_hex (171 ∷ 5 ∷ [])) ≡ 4)
from_hex-to_ascii_hex_example =
    from_hex-to_ascii_hex (171 ∷ 5 ∷ []) (ground arith, (ground arith, tt))
