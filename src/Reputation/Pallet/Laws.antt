-- ===== src/Reputation/Pallet/Laws.antt =====
-- Who may call what, and what a call leaves alone (pallets/reputation/src/pallet).
use power_plant.Prelude.{
  ℕ, ◌+◌, ◌≤◌, ◌≡◌, ◌≢◌, ◌⊎◌, refl, inl, inr, none, some, arith, Option-cases, u64_max, ok, err,
}
use power_plant.Reputation.Points.{Float}
use power_plant.Reputation.Record.{ReputationRecord, increase, decrease, update}
use power_plant.Reputation.Pallet.{
  Storage, Origin, root, Extrinsic, calls_force_set_points, calls_increase_points, calls_slash,
  calls_update_points, calls_force_reset_points, account_not_found, bad_origin, dispatch, do_slash,
  do_increase_points, force_set_points, increase_points, slash, update_points, force_reset_points,
}

-- The account that an extrinsic names.
abbrev pub IsTarget : Extrinsic → ℕ → Type 0
IsTarget (calls_force_set_points account points) k = k ≡ account
IsTarget (calls_increase_points account points) k = k ≡ account
IsTarget (calls_slash account points) k = k ≡ account
IsTarget (calls_update_points account) k = k ≡ account
IsTarget calls_force_reset_points k = Unit

module _ (f : Float) where
  -- An extrinsic changes the record of no account but its target; only the reset targets all.
  pub dispatch_others :
      (origin : Origin) (x : Extrinsic) (k : ℕ) (s : Storage)
      → ¬ IsTarget x k
      → (dispatch f origin x s).1.account_reputation k ≡ s.account_reputation k
  unfolding dispatch force_set_points increase_points slash do_slash do_increase_points
      update_points
  dispatch_others origin (calls_force_set_points account points) k s h = ground arith
  dispatch_others origin (calls_increase_points account points) k s h = ground arith
  dispatch_others origin (calls_slash account points) k s h = ground arith
  dispatch_others origin (calls_update_points account) k s h = ground arith
  dispatch_others origin calls_force_reset_points k s h = absurd (h tt)

  -- Except for the update, which wants a signed origin, an extrinsic that is not from root is refused.
  pub dispatch_root_only :
      (origin : Origin) (x : Extrinsic) (s : Storage)
      → origin ≢ root
      → ((account : ℕ) → x ≢ calls_update_points account)
      → dispatch f origin x s ≡ (err bad_origin, s)
  unfolding dispatch force_set_points increase_points slash force_reset_points
  dispatch_root_only origin (calls_force_set_points account points) s h n = ground arith
  dispatch_root_only origin (calls_increase_points account points) s h n = ground arith
  dispatch_root_only origin (calls_slash account points) s h n = ground arith
  dispatch_root_only origin (calls_update_points account) s h n = absurd (n account refl)
  dispatch_root_only origin calls_force_reset_points s h n = ground arith

  -- A slash fails exactly for an account without a record, and then changes nothing; otherwise it
  -- takes the points, stopping at 0, and the block number becomes the time of the last reward: the
  -- time since the last update is not rewarded.
  pub do_slash_lem :
      (account points : ℕ) (s : Storage)
      → let (result, s') = do_slash f account points s in
        ((s.account_reputation account ≡ none) × (result ≡ err account_not_found) × (s' ≡ s))
        ⊎ ((old : ReputationRecord) × (s.account_reputation account ≡ some old)
            × (result ≡ ok tt)
            × (s'.account_reputation account
                ≡ some (record {
                  reputation = decrease f points old.reputation;
                  updated = s.block_number;
                })))
  unfolding do_slash
  do_slash_lem account points s = elim (Option-cases (s.account_reputation account)) [
    | inl e ↦ inl (e, ground arith, ground arith)
    | inr (old, e) ↦ inr (old, e, ground arith, ground arith)
  ]

  -- Points that root adds to an account with a record, and takes away again, leave the points as
  -- they were, if the sum fits.
  pub slash-increase_points :
      (account points : ℕ) (s : Storage) (old : ReputationRecord)
      → s.account_reputation account ≡ some old
      → old.reputation.points + points ≤ u64_max
      → (r : ReputationRecord) × ((dispatch f root
              (calls_slash account points)
              (dispatch f root (calls_increase_points account points) s).1).1.account_reputation
            account
          ≡ some r)
        × (r.reputation.points ≡ old.reputation.points)
  unfolding dispatch increase_points slash do_slash do_increase_points increase decrease update
  slash-increase_points account points s old e fits = (
    record {
      reputation = decrease f points (increase f points old.reputation);
      updated = s.block_number;
    },
    ground arith,
    ground arith,
  )
