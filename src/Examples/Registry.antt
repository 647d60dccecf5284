-- ===== src/Examples/Registry.antt =====
-- A registry of NFTs in memory.
use power_plant.Prelude.{
  ℕ, ◌≤◌, ◌<◌, ◌≡◌, refl, Bool, true, false, ◌&&◌, Option, none, some, List, [], ◌∷◌, arith, ◌==◌,
  if◌then◌else◌, length, member, set_remove,
}
use power_plant.NacManaging.{Key, nac_level, claim_amount, vipp_status, Nfts}
use power_plant.NacManaging.Vipp.Burning.{IsRegistry}

pub record Items : Type 0 where
  pub owned : ℕ → ℕ → List ℕ
  pub attributes : ℕ → ℕ → Key → Option (List ℕ)

abbrev same_key : Key → Key → Bool
same_key nac_level nac_level = true
same_key claim_amount claim_amount = true
same_key vipp_status vipp_status = true
same_key _ _ = false

same_key_refl : (k : Key) → same_key k k ≡ true
same_key_refl nac_level = refl
same_key_refl claim_amount = refl
same_key_refl vipp_status = refl

abbrev put_owned : ℕ → ℕ → List ℕ → Items → Items
put_owned collection account items r = record r {
  owned = λ c a. if c == collection && a == account then items else r.owned c a;
}

abbrev pub registry : Nfts
registry = record {
  Registry = Items;
  owned_in_collection = λ collection account r. r.owned collection account;
  system_attribute = λ collection item key r. r.attributes collection item key;
  set_attribute = λ collection item key v r. some (record r {
    attributes = λ c i k.
        if c == collection && i == item && same_key k key then some v else r.attributes c i k;
  });
  mint_into = λ collection item account r.
      some (put_owned collection account (item ∷ r.owned collection account) r);
  burn = λ collection item account r.
      if member item (r.owned collection account)
      then some (put_owned collection account (set_remove item (r.owned collection account)) r)
      else none;
  create_collection = λ account r. some r;
}

length-set_remove-le : (k : ℕ) (ks : List ℕ) → length (set_remove k ks) ≤ length ks
unfolding set_remove
length-set_remove-le k [] = omega arith
length-set_remove-le k (j ∷ ks) = ground (arith, length-set_remove-le k ks)

length-set_remove-lt :
    (k : ℕ) (ks : List ℕ) → member k ks ≡ true → length (set_remove k ks) < length ks
unfolding set_remove member
length-set_remove-lt k [] h = absurd (ground arith)
length-set_remove-lt k (j ∷ ks) h =
    ground (arith, length-set_remove-lt k ks, length-set_remove-le k ks)

burned_less :
    (collection item account : ℕ) (r : Items)
    → member item (r.owned collection account) ≡ true
    → (r' : Items) × (registry.burn collection item account r ≡ some r')
      × (length (r'.owned collection account) < length (r.owned collection account))
burned_less collection item account r h = (
  put_owned collection account (set_remove item (r.owned collection account)) r,
  ground arith,
  ground (arith, length-set_remove-lt item (r.owned collection account)),
)

pub registry-IsRegistry : IsRegistry registry
registry-IsRegistry = record {
  burn_owned = burned_less;
  set_owned = λ {c} {item} {k} {v} {r} {r'} collection account e. ground arith;
  get_set = λ {c} {item} {k} {v} {r} {r'} e. ground (arith, same_key_refl k);
  mint_owned = λ {c} {item} {who} {r} {r'} collection account e apart. ground arith;
  mint_other = λ {c} {item} {who} {r} {r'} collection e apart item' k'. ground arith;
  set_other = λ {c} {item} {k} {v} {r} {r'} collection e apart item' k'. ground arith;
}
