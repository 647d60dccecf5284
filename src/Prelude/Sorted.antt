-- ===== src/Prelude/Sorted.antt =====
-- Maps and sets that are iterated, as lists in order of their keys, like `BTreeMap` and `BTreeSet`.
use Prim.Native.Nat.{ℕ}
use mathlib.Core.Bool.{Bool, false, ◌||◌}
use mathlib.Core.List.{List, [], ◌∷◌}
use mathlib.Core.Option.{Option, none, some}
use mathlib.Core.Path.{◌≡◌, refl}
use native.Mathlib.Omega.{arith}
use power_plant.Prelude.Tests.{◌==◌, ltb, if◌then◌else◌}

abbrev pub Assoc {ℓ} : Type ℓ → Type ℓ
Assoc V = List (ℕ × V)

module _ {V : Type 0} where
  unfoldable pub lookup : ℕ → Assoc V → Option V
  lookup k [] = none
  lookup k ((j, w) ∷ m) = if k == j then some w else lookup k m

  -- The entry behind which the new one is put, or that it replaces.
  unfoldable pub put_in : ℕ → V → Assoc V → Assoc V
  put_in k v [] = (k, v) ∷ []
  put_in k v ((j, w) ∷ m) =
      let rest = (j, w) ∷ put_in k v m in
      if ltb k j then (k, v) ∷ (j, w) ∷ m else if k == j then (k, v) ∷ m else rest

  unfoldable pub delete : ℕ → Assoc V → Assoc V
  delete k [] = []
  delete k ((j, w) ∷ m) = let rest = delete k m in if k == j then rest else (j, w) ∷ rest

  pub lookup-put_in :
      (j k : ℕ) (v : V) (m : Assoc V)
      → lookup j (put_in k v m) ≡ (if j == k then some v else lookup j m)
  unfolding lookup put_in
  lookup-put_in j k v [] = refl
  lookup-put_in j k v ((i, w) ∷ m) = ground (arith, lookup-put_in j k v m)

  pub lookup-delete :
      (j k : ℕ) (m : Assoc V) → lookup j (delete k m) ≡ (if j == k then none else lookup j m)
  unfolding lookup delete
  lookup-delete j k [] = ground arith
  lookup-delete j k ((i, w) ∷ m) = ground (arith, lookup-delete j k m)

unfoldable pub member : ℕ → List ℕ → Bool
member k [] = false
member k (j ∷ ks) = k == j || member k ks

unfoldable pub set_insert : ℕ → List ℕ → List ℕ
set_insert k [] = k ∷ []
set_insert k (j ∷ ks) =
    let rest = j ∷ set_insert k ks in
    if ltb k j then k ∷ j ∷ ks else if k == j then j ∷ ks else rest

unfoldable pub set_remove : ℕ → List ℕ → List ℕ
set_remove k [] = []
set_remove k (j ∷ ks) = let rest = set_remove k ks in if k == j then rest else j ∷ rest

pub member-set_insert :
    (j k : ℕ) (ks : List ℕ) → member j (set_insert k ks) ≡ (j == k || member j ks)
unfolding member set_insert
member-set_insert j k [] = refl
member-set_insert j k (i ∷ ks) = ground (arith, member-set_insert j k ks)

pub member-set_remove :
    (j k : ℕ) (ks : List ℕ) → member j (set_remove k ks) ≡ (if j == k then false else member j ks)
unfolding member set_remove
member-set_remove j k [] = ground arith
member-set_remove j k (i ∷ ks) = ground (arith, member-set_remove j k ks)
