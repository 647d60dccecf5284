-- ===== src/Ledger/Unlocking.antt =====
-- The invariant of a ledger, and the chunks that are old enough to be freed
-- (pallets/energy-generation/src/lib.rs).
use power_plant.Prelude.{
  ℕ, ◌+◌, ◌-◌, ◌≤◌, ◌<◌, ◌≡◌, refl, List, [], ◌∷◌, ◌++◌, arith, ltb, u128_max, if◌then◌else◌, ◌∙◌,
  ap,
}
use mathlib.Core.List.{reverse, reverse-append}
use power_plant.Ledger.{UnlockChunk, StakingLedger, filter_unlocked, consolidate_unlocked}

abbrev pub sum_values : List UnlockChunk → ℕ
sum_values [] = 0
sum_values (c ∷ cs) = c.value + sum_values cs

-- The total is the active stake and the chunks, and fits a balance.
pub record IsValid (l : StakingLedger) : Type 0 where
  pub total_eq : l.total ≡ l.active + sum_values l.unlocking
  pub total_fits : l.total ≤ u128_max

pub sum_values-append :
    (xs ys : List UnlockChunk) → sum_values (xs ++ ys) ≡ sum_values xs + sum_values ys
sum_values-append [] ys = omega arith
sum_values-append (x ∷ xs) ys = omega (arith, sum_values-append xs ys)

pub sum_values-reverse : (xs : List UnlockChunk) → sum_values (reverse xs) ≡ sum_values xs
sum_values-reverse [] = refl
sum_values-reverse (x ∷ xs) =
    ap sum_values (reverse-append (x ∷ []) xs)
    ∙ sum_values-append (reverse xs) (x ∷ [])
    ∙ (omega (arith, sum_values-reverse xs))

-- All chunks are of eras after the given one.
abbrev pub AreLocked : ℕ → List UnlockChunk → Type 0
AreLocked era [] = Unit
AreLocked era (c ∷ cs) = (era < c.era) × AreLocked era cs

-- The value of the chunks of eras up to the given one.
abbrev pub sum_unlocked : ℕ → List UnlockChunk → ℕ
sum_unlocked era [] = 0
sum_unlocked era (c ∷ cs) = (if ltb era c.era then 0 else c.value) + sum_unlocked era cs

filter_unlocked_lem :
    (era total : ℕ) (cs : List UnlockChunk)
    → let (total', kept) = filter_unlocked era total cs in
      (total' ≡ total - sum_unlocked era cs)
      × (sum_values kept + sum_unlocked era cs ≡ sum_values cs)
      × AreLocked era kept
unfolding filter_unlocked
filter_unlocked_lem era total [] = (omega arith, omega arith, tt)
filter_unlocked_lem era total (c ∷ cs) =
    ground (arith, filter_unlocked_lem era total cs, filter_unlocked_lem era (total - c.value) cs)

-- Consolidation keeps a ledger valid and its active stake; it keeps chunks of later eras only, and
-- the total falls by the value of the others.
pub consolidate_unlocked-IsValid :
    (era : ℕ) (l : StakingLedger)
    → IsValid l
    → let l' = consolidate_unlocked era l in
      IsValid l'
      × AreLocked era l'.unlocking
      × (l'.active ≡ l.active)
      × (l'.total + sum_unlocked era l.unlocking ≡ l.total)
unfolding consolidate_unlocked
consolidate_unlocked-IsValid era l v = ground (arith, filter_unlocked_lem era l.total l.unlocking)
