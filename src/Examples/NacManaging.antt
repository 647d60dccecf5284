-- ===== src/Examples/NacManaging.antt =====
-- Account 3 has the NAC item 7 with a claim balance, and VIPP items. Balances are written in four bytes, the lowest first.
use power_plant.Prelude.{
  ℕ, ◌+◌, ◌-◌, ◌*◌, ◌/◌, ◌%◌, ◌≤◌, ◌≡◌, ◌≢◌, ◌⊎◌, refl, true, false, ◌&&◌, Option, none, some, List,
  [], ◌∷◌, arith, ◌==◌, if◌then◌else◌, u128_max, add128, saturating_add, ok, empty, member,
}
use power_plant.NacManaging
use power_plant.NacManaging.{Key, nac_level, claim_amount, vipp_status, Config, Storage}
use power_plant.NacManaging.Items.{first, get_nac_level}
use power_plant.NacManaging.Vipp.{
  mint_vipp_nft, burn_vipp_nft, take_vipp, check_account_threshold, is_below_threshold, claimed_of,
  get_claim_balance, get_active_vipp_amount, threshold_meets_vipp_requirements, most_of, sum_claims,
  claim_value_of, decode_or_zero, issue_vipp,
}
use power_plant.NacManaging.Vipp.Burning.{check_account_threshold_ends, HasNoClaims}
use power_plant.NacManaging.Vipp.Lowest.{burn_vipp_nft_first_byte}
use power_plant.NacManaging.Pallet.{on_claim}
use power_plant.NacManaging.Pallet.Laws.{on_claim_lem, mint_vipp_nft_item}
use power_plant.Examples.Toolbox.{floor_perbill, linear_float}
use power_plant.Examples.Registry.{Items, registry, registry-IsRegistry}

abbrev pub decode_two : List ℕ → Option ℕ
decode_two (a ∷ b ∷ []) = some (a + 256 * b)
decode_two bytes = none

abbrev pub config : Config
config = record {
  nfts = registry;
  Members = List (ℕ × ℕ);
  mint_vipp = λ who amount item members. (item, amount) ∷ members;
  burn_vipp = λ who item members. members;
  Balances = ℕ;
  total_balance = λ who balance. balance;
  perbill = floor_perbill;
  float = linear_float;
  encode = λ n. n % 256 ∷ n / 256 ∷ [];
  decode = decode_two;
  encode_u32 = λ n. n ∷ [];
  encode_account = λ n. n ∷ [];
  hash = λ bytes. 9 ∷ bytes;
  is_admin = λ origin. origin == 0;
  value_limit = 256;
  nft_collection = 1;
  vipp_collection = 2;
  initial_collection = 1;
}

pub decode-encode : (n : ℕ) → n ≤ u128_max → config.decode (config.encode n) ≡ some n
decode-encode n h = ground arith

pub apart : config.vipp_collection ≢ config.nft_collection
apart e = absurd (omega arith)

apart_back : config.nft_collection ≢ config.vipp_collection
apart_back e = absurd (omega arith)

abbrev pub claim_of : ℕ → ℕ → Option (List ℕ)
claim_of c i =
    if c == 1 && i == 7
    then some (232 ∷ 3 ∷ [])
    else if c == 2 && i == 11
    then some (1 ∷ 0 ∷ [])
    else if c == 2 && i == 12
    then some (0 ∷ 1 ∷ [])
    else none

abbrev pub attribute_of : ℕ → ℕ → Key → Option (List ℕ)
attribute_of c i nac_level = none
attribute_of c i claim_amount = claim_of c i
attribute_of c i vipp_status = none

-- The NAC item 7 has the claim balance 1000, the VIPP items 11 and 12 the claim values 1 and 256.
abbrev pub items : Items
items = record {
  owned = λ c a.
      if a == 3 then (if c == 1 then 7 ∷ [] else if c == 2 then 11 ∷ 12 ∷ [] else []) else [];
  attributes = attribute_of;
}

-- With a balance of its own.
abbrev pub storage : ℕ → Storage config
storage balance = record {
  users_nft = empty;
  registry = items;
  members = [];
  balances = balance;
  reputation = record { account_reputation = empty; block_number = 5; events = [] };
  events = [];
}

-- With 300 the account is below its threshold, and loses the item 12 first.
check_account_threshold_ends_example :
    let s' = (check_account_threshold config 3 (storage 300)).1 in
    ((check_account_threshold config 3 (storage 300)).0 ≡ ok tt)
    × ((is_below_threshold config 3 s' ≡ false) ⊎ HasNoClaims config registry-IsRegistry 3 s')
check_account_threshold_ends_example =
    check_account_threshold_ends config registry-IsRegistry 3 (storage 300) apart

-- The claim values of the VIPP items.
abbrev value_of : ℕ → ℕ
value_of i = if i == 11 then 1 else 256

claims_of :
    (i : ℕ) → member i (11 ∷ 12 ∷ []) ≡ true → claim_of 2 i ≡ some (config.encode (value_of i))
unfolding member
claims_of i m = ground arith

burn_vipp_nft_first_byte_example :
    burn_vipp_nft config 3 (storage 300)
    ≡ (true, take_vipp config 3 (config.encode 256) 12 (storage 300))
unfolding member
burn_vipp_nft_first_byte_example =
    burn_vipp_nft_first_byte config (storage 300) 3 12 value_of (λ n. n / 256 ∷ []) (λ n. refl)
      claims_of refl (λ i m ne. ground arith)

on_claim_lem_example :
    let s' = (on_claim config 3 40 (storage 5000)).1 in
    (get_claim_balance config 3 s'
      ≡ some (saturating_add u128_max (claimed_of config 7 (storage 5000)) 40, 7))
    × ((s'.members ≡ (storage 5000).members) ⊎ (claimed_of config 7 (storage 5000) ≢ 0))
unfolding on_claim claimed_of decode_or_zero
on_claim_lem_example =
    on_claim_lem config registry-IsRegistry apart_back 3 40 7 (storage 5000) decode-encode refl refl

mint_vipp_nft_item_example :
    (claim : ℕ) × (nac : ℕ) × (get_claim_balance config 3 (storage 5000) ≡ some (claim, nac))
    × (threshold_meets_vipp_requirements config 3 claim (storage 5000) ≡ true)
    × (get_active_vipp_amount config 3 (storage 5000) ≤ claim)
    × (705 ≡ most_of config (claim - get_active_vipp_amount config 3 (storage 5000)))
    × (first (NacManaging.owned config config.nft_collection 3 (storage 5000)) ≡ some 7)
unfolding mint_vipp_nft get_claim_balance threshold_meets_vipp_requirements most_of
    get_active_vipp_amount sum_claims add128 claim_value_of decode_or_zero issue_vipp get_nac_level
mint_vipp_nft_item_example =
    mint_vipp_nft_item config registry-IsRegistry apart_back 3 705 7 (storage 5000) refl
