-- ===== src/Staking/Admin/Cancel.antt =====
-- What `cancel_deferred_slash` removes (pallets/energy-generation/src/pallet/mod.rs).
use power_plant.Prelude.{
  ℕ, zero, suc, ◌+◌, ◌-◌, ◌≤◌, ◌<◌, ◌≡◌, ◌≢◌, refl, sym, ap, ◌∙◌, inl, inr, true, false, some, List,
  [], ◌∷◌, ◌++◌, arith, ◌==◌, if◌then◌else◌, Bool-cases, length, ok, unwrap_or, member,
}
use power_plant.Staking.{Config, Storage, Origin}
use power_plant.Staking.Admin.{
  last_index, cancel_deferred_slash, remove_indices, is_sorted_and_unique, remove_at,
}

-- The elements of a list, the first at the given position, whose positions are not listed.
unfoldable pub keep_from {ℓ} : {A : Type ℓ} → ℕ → List ℕ → List A → List A
keep_from p is [] = []
keep_from p is (x ∷ xs) =
    let rest = keep_from (suc p) is xs in if member p is then rest else x ∷ rest

-- All indices are at least the given one and in order.
abbrev FromOn : ℕ → List ℕ → Type 0
FromOn p [] = Unit
FromOn p (i ∷ is) = (p ≤ i) × FromOn (suc i) is

-- All of the numbers are below the bound.
abbrev pub AllBelow : ℕ → List ℕ → Type 0
AllBelow n [] = Unit
AllBelow n (i ∷ is) = (i < n) × AllBelow n is

module _ {A : Type 0} where
  remove_at_lem : (ys xs : List A) (x : A) → remove_at (length ys) (ys ++ x ∷ xs) ≡ ys ++ xs
  unfolding remove_at
  remove_at_lem [] xs x = refl
  remove_at_lem (y ∷ ys) xs x = ap (λ zs. y ∷ zs) (remove_at_lem ys xs x)

  keep_none : (p : ℕ) (xs : List A) → keep_from p [] xs ≡ xs
  unfolding keep_from member
  keep_none p [] = refl
  keep_none p (x ∷ xs) = ap (λ zs. x ∷ zs) (keep_none (suc p) xs)

FromOn-not-member : (p q : ℕ) (is : List ℕ) → FromOn q is → p < q → member p is ≡ false
unfolding member
FromOn-not-member p q [] h lt = refl
FromOn-not-member p q (i ∷ is) (le, h) lt =
    ground (arith, FromOn-not-member p (suc i) is h (omega arith))

FromOn-weaken : (p q : ℕ) (is : List ℕ) → p ≤ q → FromOn q is → FromOn p is
FromOn-weaken p q [] le h = tt
FromOn-weaken p q (i ∷ is) le (le', h) = (omega arith, h)

sorted-FromOn : (is : List ℕ) (i : ℕ) → is_sorted_and_unique (i ∷ is) ≡ true → FromOn i (i ∷ is)
unfolding is_sorted_and_unique
sorted-FromOn [] i h = (omega arith, tt)
sorted-FromOn (j ∷ js) i h =
    let rest = sorted-FromOn js j (ground arith) in
    let lt : i < j = ground arith in (omega arith, (omega arith, rest.1))

sorted-AllBelow :
    (n i : ℕ) (is : List ℕ)
    → is_sorted_and_unique (i ∷ is) ≡ true
    → last_index (i ∷ is) < n
    → AllBelow n (i ∷ is)
unfolding is_sorted_and_unique
sorted-AllBelow n i [] h lt = (lt, tt)
sorted-AllBelow n i (j ∷ js) h lt =
    let rest = sorted-AllBelow n j js (ground arith) lt in
    let le : i < j = ground arith in (omega arith, rest)

module _ {A : Type 0} where
  -- An index below the position does not matter.
  keep_past :
      (p i : ℕ) (is : List ℕ) (xs : List A) → i < p → keep_from p (i ∷ is) xs ≡ keep_from p is xs
  unfolding keep_from member
  keep_past p i is [] lt = refl
  keep_past p i is (x ∷ xs) lt = ground (arith, keep_past (suc p) i is xs (omega arith))

  remove_past : (i : ℕ) (ys : List A) → length ys ≤ i → remove_at i ys ≡ ys
  unfolding remove_at
  remove_past i [] le = refl
  remove_past zero (y ∷ ys) le = absurd (omega arith)
  remove_past (suc i) (y ∷ ys) le = ap (λ zs. y ∷ zs) (remove_past i ys (omega arith))

  push_last : (ys xs : List A) (x : A) → (ys ++ x ∷ []) ++ xs ≡ ys ++ x ∷ xs
  push_last [] xs x = refl
  push_last (y ∷ ys) xs x = ap (λ zs. y ∷ zs) (push_last ys xs x)

  length_last : (ys : List A) (x : A) → length (ys ++ x ∷ []) ≡ suc (length ys)
  length_last [] x = refl
  length_last (y ∷ ys) x = ap suc (length_last ys x)

  append_nil : (ys : List A) → ys ++ [] ≡ ys
  append_nil [] = refl
  append_nil (y ∷ ys) = ap (λ zs. y ∷ zs) (append_nil ys)

  -- Nothing is listed that is there.
  remove_beyond :
      (r p : ℕ) (is : List ℕ) (ys : List A)
      → length ys + r ≤ p
      → FromOn p is
      → remove_indices r is ys ≡ ys
  unfolding remove_indices
  remove_beyond r p [] ys le h = refl
  remove_beyond r p (i ∷ is) ys le (le', h) =
      ap (remove_indices (suc r) is) (remove_past (i - r) ys (omega arith))
      ∙ remove_beyond (suc r) (suc i) is ys (omega arith) h

  -- The element behind `ys` is listed, or it is passed.
  keep_listed :
      (p i : ℕ) (is : List ℕ) (x : A) (xs : List A)
      → i ≡ p
      → keep_from p (i ∷ is) (x ∷ xs) ≡ keep_from (suc p) is xs
  unfolding keep_from member
  keep_listed p i is x xs e = ground (arith, keep_past (suc p) i is xs (omega arith))

  keep_passed :
      (p i : ℕ) (is : List ℕ) (x : A) (xs : List A)
      → p < i
      → FromOn (suc i) is
      → keep_from p (i ∷ is) (x ∷ xs) ≡ x ∷ keep_from (suc p) (i ∷ is) xs
  unfolding keep_from
  keep_passed p i is x xs lt h = ground (arith, FromOn-not-member p i (i ∷ is) (omega arith, h) lt)

  remove_indices_lem :
      (xs ys : List A) (r p : ℕ) (is : List ℕ)
      → p ≡ length ys + r
      → FromOn p is
      → remove_indices r is (ys ++ xs) ≡ ys ++ keep_from p is xs
  unfolding remove_indices keep_from
  remove_indices_lem xs ys r p [] e h = ap (λ zs. ys ++ zs) (sym (keep_none p xs))
  remove_indices_lem [] ys r p (i ∷ is) e h =
      ap (remove_indices r (i ∷ is)) (append_nil ys)
      ∙ remove_beyond r p (i ∷ is) ys (omega arith) h
      ∙ sym (append_nil ys)
  remove_indices_lem (x ∷ xs) ys r p (i ∷ is) e (le, h) = elim (Bool-cases (i == p)) [
    | inl t ↦
        let same : i ≡ p = ground arith in
        let at : i - r ≡ length ys = omega arith in
        ap (λ k. remove_indices (suc r) is (remove_at k (ys ++ x ∷ xs))) at
        ∙ ap (remove_indices (suc r) is) (remove_at_lem ys xs x)
        ∙ remove_indices_lem xs ys (suc r) (suc p) is (omega arith)
            (FromOn-weaken (suc p) (suc i) is (omega arith) h)
        ∙ ap (λ zs. ys ++ zs) (sym (keep_listed p i is x xs same))
    | inr f ↦
        let lt : p < i = ground arith in
        ap (remove_indices r (i ∷ is)) (sym (push_last ys xs x))
        ∙ remove_indices_lem xs (ys ++ x ∷ []) r (suc p) (i ∷ is) (omega (arith, length_last ys x))
            (omega arith, h)
        ∙ push_last ys (keep_from (suc p) (i ∷ is) xs) x
        ∙ ap (λ zs. ys ++ zs) (sym (keep_passed p i is x xs lt h))
  ]

  -- Each index is lowered by the number of those removed before.
  remove_indices-keep_from :
      (i : ℕ) (is : List ℕ) (xs : List A)
      → is_sorted_and_unique (i ∷ is) ≡ true
      → remove_indices 0 (i ∷ is) xs ≡ keep_from 0 (i ∷ is) xs
  remove_indices-keep_from i is xs h =
      remove_indices_lem xs [] 0 0 (i ∷ is) refl
        (FromOn-weaken 0 i (i ∷ is) (omega arith) (sorted-FromOn is i h))

-- If a cancellation succeeds, the indices were in order and each given once, all were those of slashes, and exactly the
-- slashes whose indices were not given are left in the era, in their order; the slashes of other eras stay.
pub cancel_deferred_slash_lem :
    (C : Config) (origin : Origin) (era other : ℕ) (indices : List ℕ) (s : Storage C)
    → (cancel_deferred_slash C origin era indices s).0 ≡ ok tt
    → other ≢ era
    → let s' = (cancel_deferred_slash C origin era indices s).1 in
      let unapplied = unwrap_or (s.unapplied_slashes era) [] in
      (is_sorted_and_unique indices ≡ true)
      × AllBelow (length unapplied) indices
      × (s'.unapplied_slashes era ≡ some (keep_from 0 indices unapplied))
      × (s'.unapplied_slashes other ≡ s.unapplied_slashes other)
unfolding cancel_deferred_slash
cancel_deferred_slash_lem C origin era other [] s h ne = absurd (ground arith)
cancel_deferred_slash_lem C origin era other (i ∷ is) s h ne =
    elim (Bool-cases (is_sorted_and_unique (i ∷ is))) [
      | inr f ↦ absurd (ground arith)
      | inl sorted ↦
          let unapplied = unwrap_or (s.unapplied_slashes era) [] in
          let kept = remove_indices-keep_from i is unapplied sorted in
          let within : last_index (i ∷ is) < length unapplied = ground arith in
          (
            sorted,
            sorted-AllBelow (length unapplied) i is sorted within,
            ground arith,
            ground arith,
          )
    ]
