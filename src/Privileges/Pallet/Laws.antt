-- ===== src/Privileges/Pallet/Laws.antt =====
-- The end of a year, and leaving the VIP status (pallets/privileges/src/lib.rs).
use power_plant.Prelude.{
  ℕ, ◌≡◌, ◌≢◌, refl, inl, inr, true, Option, none, some, [], ◌∷◌, arith, ◌==◌, if◌then◌else◌,
  Bool-cases, Option-cases, ok, err, Assoc, lookup, put_in, delete, lookup-put_in, lookup-delete,
  Result-cases,
}
use power_plant.Privileges.{
  VipMemberInfo, VippMemberInfo, PenaltyType, Config, Storage, left_vip, already_vip_member, signed,
}
use power_plant.Privileges.Points.{
  lookup-translate, insert_points, save_year_info, clear_points, clear_vipp_points,
}
use power_plant.Privileges.Membership.{
  get_tax_percent, penalty_of, do_exit_vip, slash_member, leave_vipp, do_set_user_privilege,
  do_set_vipp_status, is_legit_for_vip,
}
use power_plant.Privileges.Pallet.{become_vip_status, becomes_vip, dispatch, call}

-- Each key stands once.
abbrev pub HasUniqueKeys : {V : Type 0} → Assoc V → Type 0
HasUniqueKeys [] = Unit
HasUniqueKeys ((k, _) ∷ m) = (lookup k m ≡ none) × HasUniqueKeys m

abbrev pub points_or : Option ℕ → Option ℕ → Option ℕ
points_or none before = before
points_or (some points) before = some points

abbrev pub points_at : {V : Type 0} → (V → ℕ) → Option V → Option ℕ
points_at points_of none = none
points_at points_of (some info) = some (points_of info)

abbrev pub changed : {V : Type 0} → (V → V) → Option V → Option V
changed f none = none
changed f (some v) = some (f v)

lookup-insert_points :
    {V : Type 0} (points_of : V → ℕ) (who : ℕ) (m : Assoc V) (year_points : Assoc ℕ)
    → HasUniqueKeys m
    → lookup who (insert_points points_of m year_points)
      ≡ points_or (points_at points_of (lookup who m)) (lookup who year_points)
unfolding insert_points lookup
lookup-insert_points points_of who [] year_points h = refl
lookup-insert_points points_of who ((k, v) ∷ m) year_points (fresh, unique) =
    let rest = lookup-insert_points points_of who m (put_in k (points_of v) year_points) unique in
    let put = lookup-put_in who k (points_of v) year_points in
    elim (Bool-cases (who == k)) [
      | inl t ↦
          let same : who ≡ k = ground arith in
          let none_left : lookup who m ≡ none = rw same fresh in ground arith
      | inr f ↦ ground arith
    ]

module _ (C : Config) where
  -- If each member stands once: when a year is saved, the points of each VIP and VIPP member are those of the
  -- account for that year, the points of all other accounts for it and those of all other years are as they
  -- were, and the points of the members are zero, with their other data as it was.
  pub save_year_info_lem :
      (year other who : ℕ) (s : Storage C)
      → HasUniqueKeys s.vip_members
      → HasUniqueKeys s.vipp_members
      → other ≢ year
      → let s' = save_year_info C year s in
        (lookup who (s'.vip_points year)
          ≡ points_or
              (points_at (λ (v : VipMemberInfo). v.points) (lookup who s.vip_members))
              (lookup who (s.vip_points year)))
        × (lookup who (s'.vipp_points year)
            ≡ points_or
                (points_at (λ (v : VippMemberInfo). v.points) (lookup who s.vipp_members))
                (lookup who (s.vipp_points year)))
        × (s'.vip_points other ≡ s.vip_points other)
        × (s'.vipp_points other ≡ s.vipp_points other)
        × (lookup who s'.vip_members ≡ changed clear_points (lookup who s.vip_members))
        × (lookup who s'.vipp_members ≡ changed clear_vipp_points (lookup who s.vipp_members))
  unfolding save_year_info
  save_year_info_lem year other who s vips vipps ne =
      let a =
        lookup-insert_points (λ (v : VipMemberInfo). v.points) who s.vip_members (s.vip_points year)
          vips in
      let b =
        lookup-insert_points (λ (v : VippMemberInfo). v.points) who s.vipp_members
          (s.vipp_points year) vipps in
      let c = lookup-translate (λ _ (info : VipMemberInfo). clear_points info) who s.vip_members in
      let d =
        lookup-translate (λ _ (info : VippMemberInfo). clear_vipp_points info) who s.vipp_members in
      (ground arith, ground arith, ground arith, ground arith, ground arith, ground arith)

  slash_member-events :
      (who percent : ℕ) (s : Storage C) → (slash_member C who percent s).1.events ≡ s.events
  unfolding slash_member
  slash_member-events who percent s = ground arith

  leave_vipp_frame :
      (who : ℕ) (s : Storage C)
      → ((leave_vipp C who s).1.events ≡ s.events)
        × ((leave_vipp C who s).1.vip_members ≡ s.vip_members)
  unfolding leave_vipp
  leave_vipp_frame who s = ground arith

  -- If an account leaves the VIP status, it had it and has it no longer, and the penalty that is reported for it is
  -- the tax percentage that the pallet answered for it before.
  pub do_exit_vip_lem :
      (who : ℕ) (s : Storage C)
      → (do_exit_vip C who s).0 ≡ ok tt
      → let s' = (do_exit_vip C who s).1 in
        (lookup who s.vip_members ≢ none)
        × (lookup who s'.vip_members ≡ none)
        × (s'.events ≡ left_vip who (get_tax_percent C who s) ∷ s.events)
  unfolding do_exit_vip get_tax_percent penalty_of
  do_exit_vip_lem who s left = elim (Option-cases (lookup who s.vip_members)) [
    | inl e ↦ absurd (ground arith)
    | inr (info, e) ↦
        let percent = penalty_of C info s in
        let s₁ = (slash_member C who percent s).1 in
        let s₂ : Storage C = record s₁ { vip_members = delete who s₁.vip_members } in
        let events = slash_member-events who percent s in
        let frame = leave_vipp_frame who s₂ in
        let gone = lookup-delete who who s₁.vip_members in
        elim (Result-cases (slash_member C who percent s).0) [
          | inl (x, f) ↦ absurd (ground arith)
          | inr (t, done) ↦ elim (Result-cases (leave_vipp C who s₂).0) [
            | inl (x, f) ↦ absurd (ground arith)
            | inr (u, out) ↦ ground arith
          ]
        ]
  ]

  do_set_vipp_status_frame :
      (who : ℕ) (s : Storage C)
      → ((do_set_vipp_status C who s).vip_members ≡ s.vip_members)
        × ((do_set_vipp_status C who s).events ≡ s.events)
  unfolding do_set_vipp_status
  do_set_vipp_status_frame who s = ground arith

  -- If an account becomes a VIP member, it was none and was fit for it; it begins with no points and with its active
  -- stake, no other account's membership changes, and asking again is refused and changes nothing.
  pub become_vip_status_lem :
      (who other : ℕ) (tax_type again : PenaltyType) (s : Storage C)
      → (dispatch C (signed who) (becomes_vip tax_type) s).0 ≡ ok tt
      → let s' = (dispatch C (signed who) (becomes_vip tax_type) s).1 in
        (lookup who s.vip_members ≡ none)
        × (is_legit_for_vip C who s ≡ true)
        × (lookup other s'.vip_members ≡ (
            if other == who
            then some (record {
              start = C.now_millis s.others;
              tax_type = tax_type;
              points = 0;
              active_stake = C.get_active_stake who s.others;
            })
            else lookup other s.vip_members))
        × (dispatch C (signed who) (becomes_vip again) s' ≡ (err already_vip_member, s'))
  unfolding dispatch call become_vip_status do_set_user_privilege
  become_vip_status_lem who other tax_type again s done =
      elim (Option-cases (lookup who s.vip_members)) [
        | inr (info, e) ↦ absurd (ground arith)
        | inl e ↦ elim (Bool-cases (is_legit_for_vip C who s)) [
          | inr f ↦ absurd (ground arith)
          | inl t ↦
              let info : VipMemberInfo = record {
                start = C.now_millis s.others;
                tax_type = tax_type;
                points = 0;
                active_stake = C.get_active_stake who s.others;
              } in
              let s₁ : Storage C = record s { vip_members = put_in who info s.vip_members } in
              let frame = do_set_vipp_status_frame who s₁ in
              let at_other = lookup-put_in other who info s.vip_members in
              let at_who = lookup-put_in who who info s.vip_members in
              (e, t, ground arith, ground arith)
        ]
      ]
