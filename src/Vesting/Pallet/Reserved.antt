-- ===== src/Vesting/Pallet/Reserved.antt =====
-- What the schedules lock is reserved (pallets/simple-vesting/src/lib.rs).
use power_plant.Prelude.{
  ℕ, ◌+◌, ◌-◌, ◌≤◌, ◌≡◌, ◌⊎◌, inl, inr, Option, none, some, arith, ◌==◌, if◌then◌else◌,
  Option-cases, u128_max,
}
use power_plant.Vesting.Schedule.{VestingInfo, locked_at}
use power_plant.Vesting.Schedule.Laws.{locked_at_falls}
use power_plant.Vesting.Pallet.{
  Currency, Storage, Origin, root, signed, Extrinsic, calls_vest, calls_force_vested_transfer,
  calls_force_remove_vesting, dispatch, vest, do_vest, force_vested_transfer, force_remove_vesting,
}

-- What the calls of the currency do to the reserves for vesting, which nothing else touches.
pub record Laws (C : Currency) : Type 0 where
  pub reserved : ℕ → C.State → ℕ
  pub transfer_lem :
      (source dest n k : ℕ) (a a' : C.State)
      → C.transfer source dest n a ≡ some a'
      → reserved k a' ≡ reserved k a
  pub reserve_lem :
      (who n k : ℕ) (a a' : C.State)
      → C.reserve_named who n a ≡ some a'
      → reserved k a' ≡ (if k == who then reserved k a + n else reserved k a)
  pub ensure_lem :
      (who n k : ℕ) (a a' : C.State)
      → C.ensure_reserved_named who n a ≡ some a'
      → reserved k a' ≡ (if k == who then n else reserved k a)
  pub slash_lem :
      (who n k : ℕ) (a : C.State)
      → reserved k (C.slash_reserved_named who n a).2
        ≡ (if k == who then reserved k a - n else reserved k a)
  pub unbalanced_lem : (n k : ℕ) (a : C.State) → reserved k (C.on_unbalanced n a) ≡ reserved k a
  pub inc_lem : (who k : ℕ) (a : C.State) → reserved k (C.inc_providers who a) ≡ reserved k a
  pub dec_lem :
      (who k : ℕ) (a a' : C.State) → C.dec_providers who a ≡ some a' → reserved k a' ≡ reserved k a

-- An account without a schedule has nothing reserved, and one with a schedule between what is locked
-- at this block and what was locked at the start.
abbrev pub IsBetween : ℕ → Option VestingInfo → ℕ → Type 0
IsBetween now found reserved =
    ((found ≡ none) × (reserved ≡ 0))
    ⊎ ((v : VestingInfo) × (found ≡ some v)
        × (v.locked ≤ u128_max)
        × (locked_at now v ≤ reserved)
        × (reserved ≤ v.locked))

module _ (C : Currency) (L : Laws C) where
  abbrev pub IsReserved : ℕ → Storage C → Type 0
  IsReserved k s = IsBetween s.block_number (s.vesting k) (L.reserved k s.others)

  -- The schedules that root hands out fit a balance.
  abbrev pub HasFit : Extrinsic C → Type 0
  HasFit calls_vest = Unit
  HasFit (calls_force_vested_transfer source dest schedule) = schedule.locked ≤ u128_max
  HasFit (calls_force_remove_vesting who) = Unit

  pub vest-IsReserved :
      (who k : ℕ) (s : Storage C)
      → IsReserved k s
      → IsReserved who s
      → IsReserved k (dispatch C (signed who) calls_vest s).1
  unfolding dispatch vest do_vest
  vest-IsReserved who k s v w = elim (Option-cases (s.vesting who)) [
    | inl n ↦ ground arith
    | inr (info, e) ↦
        elim (Option-cases (C.ensure_reserved_named who (locked_at s.block_number info) s.others)) [
          | inl n ↦ ground arith
          | inr (a, h) ↦
              let kept = L.ensure_lem who (locked_at s.block_number info) k s.others a h in
              let falls = locked_at_falls s.block_number s.block_number info in
              elim (Option-cases (C.dec_providers who a)) [
                | inl n ↦ ground arith
                | inr (b, d) ↦ let same = L.dec_lem who k a b d in ground arith
              ]
        ]
  ]

  pub transfer-IsReserved :
      (origin : Origin) (source dest k : ℕ) (schedule : VestingInfo) (s : Storage C)
      → schedule.locked ≤ u128_max
      → IsReserved k s
      → IsReserved k (dispatch C origin (calls_force_vested_transfer source dest schedule) s).1
  unfolding dispatch force_vested_transfer
  transfer-IsReserved (signed who) source dest k schedule s fits v = ground arith
  transfer-IsReserved root source dest k schedule s fits v =
      elim (Option-cases (C.transfer source dest schedule.locked s.others)) [
        | inl n ↦ ground arith
        | inr (a, h) ↦
            elim (Option-cases (C.reserve_named dest schedule.locked (C.inc_providers dest a))) [
              | inl n ↦ ground arith
              | inr (b, r) ↦
                  let moved = L.transfer_lem source dest schedule.locked k s.others a h in
                  let counted = L.inc_lem dest k a in
                  let kept = L.reserve_lem dest schedule.locked k (C.inc_providers dest a) b r in
                  let falls = locked_at_falls s.block_number s.block_number schedule fits in
                  ground arith
            ]
      ]

  pub remove-IsReserved :
      (origin : Origin) (who k : ℕ) (s : Storage C)
      → IsReserved k s
      → IsReserved k (dispatch C origin (calls_force_remove_vesting who) s).1
  unfolding dispatch force_remove_vesting
  remove-IsReserved (signed caller) who k s v = ground arith
  remove-IsReserved root who k s v = elim (Option-cases (s.vesting who)) [
    | inl n ↦ ground arith
    | inr (info, e) ↦
        let (imbalance, unslashed, a) = C.slash_reserved_named who info.locked s.others in
        elim (Option-cases (C.dec_providers who (C.on_unbalanced imbalance a))) [
          | inl n ↦ ground arith
          | inr (b, d) ↦
              let slashed = L.slash_lem who info.locked k s.others in
              let handled = L.unbalanced_lem imbalance k a in
              let same = L.dec_lem who k (C.on_unbalanced imbalance a) b d in ground arith
        ]
  ]
