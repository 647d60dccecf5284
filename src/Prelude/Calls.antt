-- ===== src/Prelude/Calls.antt =====
-- A call that reads and writes storage and may fail with a dispatch error. What was written before
-- the failure stays written; `with_storage_layer` is the roll-back that the runtime puts around each
-- extrinsic.
use mathlib.Core.Bool.{Bool, true, false}
use mathlib.Core.List.{List, [], ◌∷◌}
use mathlib.Core.Option.{Option, none, some}
use mathlib.Core.Path.{◌≡◌, refl}
use mathlib.Core.Logic.{◌⊎◌, inl, inr}

pub data Result {ℓ} (E A : Type ℓ) : Type ℓ where
  ok : A → Result E A
  err : E → Result E A

abbrev pub Action : Type 0 → Type 0 → Type 0 → Type 0
Action E S A = S → Result E A × S

module _ {E S : Type 0} where
  infixl 5 ◌>>=◌ ◌>>◌
  abbrev pub ◌>>=◌ : {A B : Type 0} → Action E S A → (A → Action E S B) → Action E S B
  ◌>>=◌ m f s = let (r, s') = m s in elim r [ ok a ↦ f a s' | err e ↦ (err e, s') ]

  abbrev pub ◌>>◌ : {A B : Type 0} → Action E S A → Action E S B → Action E S B
  m >> k = m >>= λ _. k

  abbrev pub pure : {A : Type 0} → A → Action E S A
  pure a s = (ok a, s)

  abbrev pub raise : {A : Type 0} → E → Action E S A
  raise e s = (err e, s)

  abbrev pub gets : {A : Type 0} → (S → A) → Action E S A
  gets f s = (ok (f s), s)

  abbrev pub modify : (S → S) → Action E S (Unit {0})
  modify f s = (ok tt, f s)

  -- `ensure!`
  abbrev pub ensure : Bool → E → Action E S (Unit {0})
  ensure true e s = (ok tt, s)
  ensure false e s = (err e, s)

  -- `Option::ok_or` followed by `?`
  abbrev pub ok_or : {A : Type 0} → Option A → E → Action E S A
  ok_or none e s = (err e, s)
  ok_or (some a) e s = (ok a, s)

  abbrev pub lift : {A : Type 0} → Result E A → Action E S A
  lift r s = (r, s)

  abbrev pub with_storage_layer : {A : Type 0} → Action E S A → Action E S A
  with_storage_layer m s = let (r, s') = m s in elim r [ ok a ↦ (ok a, s') | err e ↦ (err e, s) ]

  -- A loop whose body may fail.
  unfoldable pub for_each :
      {A : Type 0} → (A → Action E S (Unit {0})) → List A → Action E S (Unit {0})
  for_each f [] = pure tt
  for_each f (x ∷ xs) = f x >> for_each f xs

-- A loop over the state.
unfoldable pub fold_state : {A S : Type 0} → (A → S → S) → List A → S → S
fold_state f [] s = s
fold_state f (x ∷ xs) s = fold_state f xs (f x s)

pub Result-cases :
    {E A : Type 0} (r : Result E A) → ((e : E) × (r ≡ err e)) ⊎ ((a : A) × (r ≡ ok a))
Result-cases (ok a) = inr (a, refl)
Result-cases (err e) = inl (e, refl)
