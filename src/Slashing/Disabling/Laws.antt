-- ===== src/Slashing/Disabling/Laws.antt =====
-- What disabling keeps (pallets/energy-generation/src/lib.rs and slashing.rs beside it).
use power_plant.Prelude.{
  ◌*◌, Bool-cases, ap, ℕ, suc, ◌≤◌, ◌<◌, ◌≡◌, refl, ◌⊎◌, inl, inr, Option, none, some, List, [],
  ◌∷◌, arith, length, position, Option-cases, ltb, ◌==◌, if◌then◌else◌,
}
use mathlib.Core.Path.{subst}
use power_plant.Slashing.Disabling.{
  ActiveSet, Disabled, disable_limit, decision, put_behind, disable_at, insert_missing,
  add_offending_validator,
}

abbrev pub IsAbove : ℕ → List ℕ → Type 0
IsAbove x [] = Unit
IsAbove x (y ∷ ys) = x < y

-- `windows(2).all(|pair| pair[0] < pair[1])`
abbrev pub IsSorted : List ℕ → Type 0
IsSorted [] = Unit
IsSorted (x ∷ xs) = IsAbove x xs × IsSorted xs

abbrev IsInserted : ℕ → List ℕ → Option (List ℕ) → Type 0
IsInserted x xs none = Unit
IsInserted x xs (some ys) =
    IsSorted ys × (length ys ≡ suc (length xs)) × ((z : ℕ) → z < x → IsAbove z xs → IsAbove z ys)

IsInserted-cons :
    (x y : ℕ) (xs : List ℕ) (o : Option (List ℕ))
    → IsAbove y xs
    → IsSorted xs
    → IsInserted x xs o
    → IsInserted x
        (y ∷ xs)
        (if x == y then none else if ltb x y then some (x ∷ y ∷ xs) else put_behind y o)
IsInserted-cons x y xs o a s h = elim (Bool-cases (x == y)) [
  | inl same ↦ rw same tt
  | inr other ↦ elim (Bool-cases (ltb x y)) [
    | inl lt ↦ rw (other, lt) ((ground arith, (a, s)), refl, λ z l above. l)
    | inr ge ↦ rw (other, ge) (behind (ground arith) o h)
  ]
]
  where
    behind :
        y < x
        → (o' : Option (List ℕ)) → IsInserted x xs o'
        → IsInserted x (y ∷ xs) (put_behind y o')
    behind lt none k = tt
    behind lt (some ys) k = ((k.2 y lt a, k.0), ap suc k.1, λ z l above. above)

insert_missing-IsInserted :
    (x : ℕ) (xs : List ℕ) → IsSorted xs → IsInserted x xs (insert_missing x xs)
unfolding insert_missing
insert_missing-IsInserted x [] s = (ground arith, refl, λ z lt above. lt)
insert_missing-IsInserted x (y ∷ xs) (above, s) =
    IsInserted-cons x y xs (insert_missing x xs) above s (insert_missing-IsInserted x xs s)

-- What holds of the disabled validators between two offences.
pub record IsValid (a : ActiveSet) (d : Disabled) : Type 0 where
  pub sorted : IsSorted d.disabled_validators
  pub limited : (length d.disabled_validators ≤ disable_limit a.limit_factor (length a.validators))

decision-room :
    (a : ActiveSet) (stash era : ℕ) (disabled : List ℕ) {i : ℕ}
    → decision a stash era disabled ≡ some i
    → (length disabled < disable_limit a.limit_factor (length a.validators)) × (a.active_era ≤ era)
unfolding decision
decision-room a stash era disabled e = ground arith

-- An offence keeps the disabled validators sorted and within the limit of the active set.
pub add_offending_validator-IsValid :
    (a : ActiveSet) (stash era : ℕ) (d : Disabled)
    → IsValid a d
    → IsValid a (add_offending_validator a stash era d)
unfolding add_offending_validator
add_offending_validator-IsValid a stash era d v =
    elim (Option-cases (decision a stash era d.disabled_validators)) [
      | inl kept ↦ rw kept v
      | inr (i, chosen) ↦
          let room = decision-room a stash era d.disabled_validators chosen in
          let inserted = insert_missing-IsInserted i d.disabled_validators v.sorted in
          rw chosen (place i room.0 (insert_missing i d.disabled_validators) inserted)
    ]
  where
    place :
        (i : ℕ)
        → length d.disabled_validators < disable_limit a.limit_factor (length a.validators)
        → (o : Option (List ℕ)) → IsInserted i d.disabled_validators o
        → IsValid a (disable_at i o d)
    place i room none h = v
    place i room (some ys) h = record { sorted = h.0; limited = omega (arith, h.1) }

-- An offence of an earlier era, or of an account outside the active set, disables nobody.
pub add_offending_validator_ignored :
    (a : ActiveSet) (stash era : ℕ) (d : Disabled)
    → (era < a.active_era) ⊎ (position (λ i. i == stash) a.validators ≡ none)
    → add_offending_validator a stash era d ≡ d
unfolding add_offending_validator decision
add_offending_validator_ignored a stash era d h = ground arith

-- When the disabled validators are within the limit, with the factor 3 of the runtime, at most a
-- third of the active set is disabled.
pub disabled_third :
    (a : ActiveSet) (d : Disabled)
    → IsValid a d
    → a.limit_factor ≡ 3
    → 3 * length d.disabled_validators ≤ length a.validators
unfolding disable_limit
disabled_third a d v e = omega (
  arith,
  subst (λ k. length d.disabled_validators ≤ disable_limit k (length a.validators)) e v.limited,
)
