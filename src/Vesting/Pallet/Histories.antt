-- ===== src/Vesting/Pallet/Histories.antt =====
-- The invariant of the reserves over any history of blocks and calls
-- (pallets/simple-vesting/src/lib.rs).
use power_plant.Prelude.{
  ℕ, ◌+◌, ◌≡◌, refl, inl, inr, none, some, List, [], ◌∷◌, arith, ◌==◌, if◌then◌else◌, Option-cases,
  ok,
}
use power_plant.Vesting.Schedule.{VestingInfo, locked_at}
use power_plant.Vesting.Schedule.Laws.{locked_at_falls}
use power_plant.Vesting.Pallet.{
  Currency, Storage, Origin, root, signed, Extrinsic, calls_vest, calls_force_vested_transfer,
  calls_force_remove_vesting, dispatch, vest, do_vest,
}
use power_plant.Vesting.Pallet.Reserved.{
  Laws, IsReserved, HasFit, vest-IsReserved, transfer-IsReserved, remove-IsReserved,
}

-- A block begins, or somebody calls an extrinsic.
pub data Step (C : Currency) : Type 0 where
  next_block : Step C
  call : Origin → Extrinsic C → Step C

module _ (C : Currency) where
  abbrev pub run_step : Step C → Storage C → Storage C
  run_step next_block s = record s { block_number = s.block_number + 1 }
  run_step (call origin x) s = (dispatch C origin x s).1

  abbrev pub run_steps : List (Step C) → Storage C → Storage C
  run_steps [] s = s
  run_steps (x ∷ xs) s = run_steps xs (run_step x s)

module _ (C : Currency) (L : Laws C) where
  abbrev pub HasFitStep : Step C → Type 0
  HasFitStep next_block = Unit
  HasFitStep (call origin x) = HasFit C L x

  abbrev pub HaveFit : List (Step C) → Type 0
  HaveFit [] = Unit
  HaveFit (x ∷ xs) = HasFitStep x × HaveFit xs

  root_vest : (s : Storage C) → (dispatch C root calls_vest s).1 ≡ s
  unfolding dispatch vest
  root_vest s = refl

  step-IsReserved :
      (x : Step C) (s : Storage C)
      → HasFitStep x
      → ((k : ℕ) → IsReserved C L k s)
      → (k : ℕ) → IsReserved C L k (run_step C x s)
  step-IsReserved next_block s fits v k = elim (v k) [
    | inl n ↦ inl n
    | inr (info, e, h, le, ge) ↦
        let falls = locked_at_falls s.block_number (s.block_number + 1) info h (omega arith) in
        inr (info, e, h, omega arith, ge)
  ]
  step-IsReserved (call root calls_vest) s fits v k = rw (root_vest s) (v k)
  step-IsReserved (call (signed who) calls_vest) s fits v k =
      vest-IsReserved C L who k s (v k) (v who)
  step-IsReserved (call origin (calls_force_vested_transfer source dest schedule)) s fits v k =
      transfer-IsReserved C L origin source dest k schedule s fits (v k)
  step-IsReserved (call origin (calls_force_remove_vesting who)) s fits v k =
      remove-IsReserved C L origin who k s (v k)

  -- In any history of blocks and calls, with schedules that fit a balance, an account without a schedule has
  -- nothing reserved for vesting, and one with a schedule has at least what is locked at the block, and no
  -- more than what was locked at the start, when that held before.
  pub run_steps-IsReserved :
      (xs : List (Step C)) (s : Storage C)
      → HaveFit xs
      → ((k : ℕ) → IsReserved C L k s)
      → (k : ℕ) → IsReserved C L k (run_steps C xs s)
  run_steps-IsReserved [] s fits v k = v k
  run_steps-IsReserved (x ∷ xs) s (fit, fits) v k =
      run_steps-IsReserved xs (run_step C x s) fits (step-IsReserved x s fit v) k

  -- A call of `vest` that succeeds leaves exactly what is locked at the block reserved, and keeps the schedule
  -- unless nothing is.
  pub vest_exact :
      (who : ℕ) (v : VestingInfo) (s : Storage C)
      → s.vesting who ≡ some v
      → (dispatch C (signed who) calls_vest s).0 ≡ ok tt
      → let s' = (dispatch C (signed who) calls_vest s).1 in
        let locked = locked_at s.block_number v in
        (L.reserved who s'.others ≡ locked)
        × (s'.vesting who ≡ (if locked == 0 then none else some v))
  unfolding dispatch vest do_vest
  vest_exact who v s e h =
      elim (Option-cases (C.ensure_reserved_named who (locked_at s.block_number v) s.others)) [
        | inl n ↦ absurd (ground arith)
        | inr (a, p) ↦
            let kept = L.ensure_lem who (locked_at s.block_number v) who s.others a p in
            elim (Option-cases (C.dec_providers who a)) [
              | inl n ↦ (ground arith, ground arith)
              | inr (b, d) ↦ let same = L.dec_lem who who a b d in (ground arith, ground arith)
            ]
      ]
