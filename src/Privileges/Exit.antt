-- ===== src/Privileges/Exit.antt =====
-- The pallets privileges and nac-managing together: leaving the VIP status burns the VIPP items, and each
-- burning tells pallets/privileges (pallets/privileges/src/lib.rs and contribution_info.rs,
-- pallets/nac-managing/src/lib.rs).
use power_plant.Prelude.{
  ℕ, zero, suc, ◌<◌, ◌≡◌, ◌≢◌, ◌⊎◌, inl, inr, Bool, Option, none, some, arith, Option-cases, length,
  ok, Assoc, lookup, delete, lookup-delete,
}
use power_plant.NacManaging
use power_plant.NacManaging.Vipp
use power_plant.NacManaging.Vipp.Burning.{
  IsRegistry, burn_vipp_nft_lem, HasNoClaims, set_inactive-HasNoClaims,
}
use power_plant.Privileges.{VippMemberInfo, VipMemberInfo, Config, Storage}
use power_plant.Privileges.Membership.{
  penalty_of, slash_member, leave_vipp, do_exit_vip, mint_new_vipp_nft, burn_vipp_nft, burn_all,
}

-- The NAC pallet with the VIPP members of pallets/privileges told of its items.
abbrev pub with_members : NacManaging.Config → NacManaging.Config
with_members N = record N {
  Members = Assoc VippMemberInfo;
  mint_vipp = λ who amount item members. mint_new_vipp_nft who amount item members;
  burn_vipp = λ who item members. burn_vipp_nft who item members;
}

abbrev pub NacState : NacManaging.Config → Type 0
NacState N = NacManaging.Storage (with_members N)

module _ (N : NacManaging.Config) (P : Config) where
  abbrev with_vipps : Assoc VippMemberInfo → NacState N → NacState N
  with_vipps members n = record n { members = members }

  -- The state of pallets/nac-managing beside what the others keep.
  abbrev pub Both : Type 0
  Both = NacState N × P.State

  -- `pallet_nac_managing::Pallet::burn_vipp_nft`, with the members that its handler changes.
  unfoldable pub burn_nac : ℕ → Assoc VippMemberInfo × Both → Bool × Assoc VippMemberInfo × Both
  burn_nac who (members, both) =
      let (burned, n') = Vipp.burn_vipp_nft (with_members N) who (with_vipps members both.0) in
      (burned, n'.members, (n', both.1))

  unfoldable pub slash_both :
      ℕ → ℕ → Assoc VipMemberInfo × Both → Option (Assoc VipMemberInfo × Both)
  slash_both who percent (members, both) =
      elim (P.slash_vip_account who percent (members, both.1)) [
        | none ↦ none
        | some (members', x) ↦ some (members', (both.0, x))
      ]

  unfoldable pub mint_both : ℕ → Both → Option (ℕ × ℕ) × Both
  mint_both who both =
      let (nft, n') = Vipp.can_mint_vipp (with_members N) who both.0 in (nft, (n', both.1))

  unfoldable pub transfer_both : ℕ → ℕ → ℕ → Both → Option Both
  transfer_both source dest amount both = elim (P.transfer source dest amount both.1) [
    | none ↦ none
    | some x ↦ some (both.0, x)
  ]

  unfoldable pub owned_vipps : ℕ → Both → ℕ
  owned_vipps who both = length (N.nfts.owned_in_collection N.vipp_collection who both.0.registry)

  abbrev pub together : Config
  together = record P {
    State = Both;
    now_millis = λ both. P.now_millis both.1;
    get_active_stake = λ who both. P.get_active_stake who both.1;
    is_user_validator = λ who both. P.is_user_validator who both.1;
    cooperator_targets = λ who both. P.cooperator_targets who both.1;
    slash_vip_account = slash_both;
    can_mint_vipp = mint_both;
    burn_vipp_nft = burn_nac;
    owned_vipps = owned_vipps;
    transfer = transfer_both;
  }

-- What burning does to the members.
module _ (N : NacManaging.Config) (account : ℕ) where
  burn_vipp_nft-members :
      (n : NacState N)
      → lookup account n.members ≡ none
      → (Vipp.burn_vipp_nft (with_members N) account n).1.members ≡ n.members
  unfolding Vipp.burn_vipp_nft Vipp.take_vipp Vipp.decrease_thrsehold burn_vipp_nft
      Vipp.set_inactive_attribute_vipp
  burn_vipp_nft-members n h = ground arith

  module _ (P : Config) (laws : IsRegistry N.nfts)
      (apart : N.vipp_collection ≢ N.nft_collection) where
    -- The loop of `do_exit_vip` with the NAC pallet: it ends, with no VIPP item of the account that has a claim
    -- value, and the members are as before it.
    burn_all-together :
        (fuel : ℕ) (members : Assoc VippMemberInfo) (both : Both N P)
        → lookup account members ≡ none
        → owned_vipps N P account both < fuel
        → (both' : Both N P) × (burn_all (together N P) fuel account (members, both)
            ≡ ok (members, both'))
          × HasNoClaims (with_members N) laws account both'.0
    unfolding burn_all burn_nac owned_vipps
    burn_all-together zero members both gone h = absurd (omega arith)
    burn_all-together (suc fuel) members both gone h =
        let n = with_vipps N P members both.0 in
        let n' = (Vipp.burn_vipp_nft (with_members N) account n).1 in
        let kept = burn_vipp_nft-members n gone in
        elim (burn_vipp_nft_lem (with_members N) laws account n) [
          | inl (burned, fewer) ↦
              let rest = burn_all-together fuel members (n', both.1) gone (omega arith) in
              (rest.0, ground arith, rest.2)
          | inr (stopped, marked, clean) ↦
              let ends : HasNoClaims (with_members N) laws account n' =
                rw marked (set_inactive-HasNoClaims (with_members N) laws account n apart clean) in
              ((n', both.1), ground arith, ends)
        ]

    abbrev pub Exited : Storage (together N P) → Storage (together N P) → Type 0
    Exited s s' =
        (lookup account s'.vipp_members ≡ none)
        × ((lookup account s.vipp_members ≡ none)
            ⊎ HasNoClaims (with_members N) laws account s'.others.0)

    leave_vipp-together :
        (s : Storage (together N P))
        → ((leave_vipp (together N P) account s).0 ≡ ok tt)
          × ((leave_vipp (together N P) account s).1.vip_members ≡ s.vip_members)
          × Exited s (leave_vipp (together N P) account s).1
    unfolding leave_vipp
    leave_vipp-together s = elim (Option-cases (lookup account s.vipp_members)) [
      | inl e ↦ ground arith
      | inr (info, e) ↦
          let gone = lookup-delete account account s.vipp_members in
          let members = delete account s.vipp_members in
          let (both', done, clean) =
            burn_all-together (suc (owned_vipps N P account s.others)) members s.others
              (ground arith) (omega arith) in
          ground arith
    ]

    slash_member-vipp_members :
        (percent : ℕ) (s : Storage (together N P))
        → (slash_member (together N P) account percent s).1.vipp_members ≡ s.vipp_members
    unfolding slash_member
    slash_member-vipp_members percent s = ground arith

    -- If the registry is one and the collections differ, a VIP member whose slash, if one is due, succeeds leaves
    -- the status: the burning of its VIPP items ends, it is no VIP and no VIPP member any more, and if it was a VIPP
    -- member, none of its VIPP items has a claim value.
    pub do_exit_vip_ends :
        (info : VipMemberInfo) (s : Storage (together N P))
        → lookup account s.vip_members ≡ some info
        → (slash_member (together N P) account (penalty_of (together N P) info s) s).0 ≡ ok tt
        → let (r, s') = do_exit_vip (together N P) account s in
          (r ≡ ok tt) × (lookup account s'.vip_members ≡ none) × Exited s s'
    unfolding do_exit_vip
    do_exit_vip_ends info s has paid =
        let percent = penalty_of (together N P) info s in
        let s₁ = (slash_member (together N P) account percent s).1 in
        let s₂ : Storage (together N P) = record s₁ {
          vip_members = delete account s₁.vip_members;
        } in
        let same = slash_member-vipp_members percent s in
        let gone = lookup-delete account account s₁.vip_members in
        let (left, vips, exited) = leave_vipp-together s₂ in ground arith
