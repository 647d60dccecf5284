-- ===== src/Privileges/Membership.antt =====
-- Entering and leaving the VIP and VIPP status, penalties, and the calls of other pallets
-- (pallets/privileges/src/lib.rs, and the VIPP handler of src/contribution_info.rs).
use power_plant.Prelude.{
  ℕ, zero, suc, Bool, true, false, not, none, some, [], ◌∷◌, ◌++◌, ◌==◌, if◌then◌else◌, Result, ok,
  err, ◌>>=◌, ◌>>◌, gets, modify, ensure, ok_or, Assoc, lookup, put_in, delete, is_empty, filter,
}
use power_plant.Privileges.{
  Error, VipMemberInfo, VippMemberInfo, PenaltyType, Config, Storage, Call, deposit_event, left_vip,
  penalty_type_changed, account_has_not_vip_status, is_not_penalty_free_period, slash_error,
  out_of_fuel,
}
use power_plant.Privileges.Dates.{penalty_percent}

module _ (C : Config) where
  unfoldable pub is_penalty_free_period : Storage C → Bool
  is_penalty_free_period s = s.current_date.current_month == 1

  unfoldable pub is_legit_for_vip : ℕ → Storage C → Bool
  is_legit_for_vip account s =
      if C.is_user_validator account s.others
      then true
      else elim (C.cooperator_targets account s.others) [
        | none ↦ false
        | some targets ↦ not (is_empty targets)
      ]

  unfoldable pub do_set_vipp_status : ℕ → Storage C → Storage C
  do_set_vipp_status account s =
      let (vipp_nft, others) = C.can_mint_vipp account s.others in
      let s' = record s { others = others } in
      elim vipp_nft [
        | none ↦ s'
        | some (amount, item_id) ↦ record s' {
          vipp_members =
              put_in account (record { points = 0; active_vipp_threshold = (item_id, amount) ∷ [] })
                s'.vipp_members;
        }
      ]

  unfoldable pub do_set_user_privilege : ℕ → PenaltyType → Storage C → Storage C
  do_set_user_privilege account tax_type s = do_set_vipp_status account (record s {
    vip_members =
        put_in account
          (record {
            start = C.now_millis s.others;
            tax_type = tax_type;
            points = 0;
            active_stake = C.get_active_stake account s.others;
          })
          s.vip_members;
  })

  -- `while burn_vipp_nft(account) {}`, where each round takes a VIPP item away from the account.
  unfoldable pub burn_all :
      ℕ → ℕ → Assoc VippMemberInfo × C.State → Result Error (Assoc VippMemberInfo × C.State)
  burn_all zero account x = err out_of_fuel
  burn_all (suc fuel) account x =
      let (burned, members, others) = C.burn_vipp_nft account x in
      elim burned [ true ↦ burn_all fuel account (members, others) | false ↦ ok (members, others) ]

  -- The rate of the penalty at a date, in parts per billion.
  unfoldable pub penalty_of : VipMemberInfo → Storage C → ℕ
  penalty_of info s =
      if is_penalty_free_period s
      then 0
      else penalty_percent C.perbill C.from_percent info.tax_type s.current_date.current_quarter

  -- `slash_vip_account`, outside of the period that is free of it.
  unfoldable pub slash_member : ℕ → ℕ → Call C (Unit {0})
  slash_member account percent s =
      if is_penalty_free_period s
      then (ok tt, s)
      else elim (C.slash_vip_account account percent (s.vip_members, s.others)) [
        | none ↦ (err slash_error, s)
        | some (members, others) ↦ (ok tt, record s { vip_members = members; others = others })
      ]

  unfoldable pub leave_vipp : ℕ → Call C (Unit {0})
  leave_vipp account s = elim (lookup account s.vipp_members) [
    | none ↦ (ok tt, s)
    | some info ↦
        elim (burn_all (suc (C.owned_vipps account s.others)) account
          (delete account s.vipp_members, s.others)) [
            | err e ↦ (err e, s)
            | ok (members, others) ↦ (ok tt, record s { vipp_members = members; others = others })
          ]
  ]

  unfoldable pub do_exit_vip : ℕ → Call C (Unit {0})
  do_exit_vip account = do
    vip_info ← gets (λ s. lookup account s.vip_members)
    info ← ok_or vip_info account_has_not_vip_status
    percent ← gets (penalty_of info)
    slash_member account percent
    modify (λ s. record s { vip_members = delete account s.vip_members })
    leave_vipp account
    deposit_event C (left_vip account percent)

  unfoldable pub do_change_penalty_type : ℕ → PenaltyType → Call C (Unit {0})
  do_change_penalty_type account new_penalty_type = do
    free ← gets is_penalty_free_period
    ensure free is_not_penalty_free_period
    vip_config ← gets (λ s. lookup account s.vip_members)
    vip ← ok_or vip_config account_has_not_vip_status
    modify (λ s. record s {
      vip_members = put_in account (record vip { tax_type = new_penalty_type }) s.vip_members;
    })
    deposit_event C (penalty_type_changed account new_penalty_type)

  -- `kick_account_from_vip`
  unfoldable pub kick_account_from_vip : ℕ → Storage C → Storage C
  kick_account_from_vip account s = elim (lookup account s.vip_members) [
    | none ↦ s
    | some info ↦ record s {
      vip_members = put_in account (record info { active_stake = 0 }) s.vip_members;
    }
  ]

  unfoldable pub update_active_stake : ℕ → Storage C → Storage C
  update_active_stake account s = elim (lookup account s.vip_members) [
    | none ↦ s
    | some info ↦ record s {
      vip_members =
          put_in account (record info { active_stake = C.get_active_stake account s.others })
            s.vip_members;
    }
  ]

  unfoldable pub get_tax_percent : ℕ → Storage C → ℕ
  get_tax_percent account s = elim (lookup account s.vip_members) [
    | none ↦ 0
    | some info ↦
        if not (is_penalty_free_period s)
        then penalty_percent C.perbill C.from_percent info.tax_type s.current_date.current_quarter
        else 0
  ]

-- The VIPP handler: a new item with its amount, and an item that is burned.
unfoldable pub mint_new_vipp_nft : ℕ → ℕ → ℕ → Assoc VippMemberInfo → Assoc VippMemberInfo
mint_new_vipp_nft who amount item_id members = elim (lookup who members) [
  | none ↦
      put_in who (record { points = 0; active_vipp_threshold = (item_id, amount) ∷ [] }) members
  | some info ↦
      put_in who
        (record info {
          active_vipp_threshold = info.active_vipp_threshold ++ (item_id, amount) ∷ [];
        })
        members
]

unfoldable pub burn_vipp_nft : ℕ → ℕ → Assoc VippMemberInfo → Assoc VippMemberInfo
burn_vipp_nft who current_item_id members = elim (lookup who members) [
  | none ↦ members
  | some info ↦
      let rest = filter (λ x. not (x.0 == current_item_id)) info.active_vipp_threshold in
      if is_empty rest
      then delete who members
      else put_in who (record info { active_vipp_threshold = rest }) members
]
