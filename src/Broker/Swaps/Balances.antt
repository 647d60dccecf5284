-- ===== src/Broker/Swaps/Balances.antt =====
-- Whose balance a swap changes, and by how much (pallets/energy-broker/src/lib.rs).
use mathlib.Core.Path.{subst}
use power_plant.Prelude.{
  ◌<◌, false, ℕ, ◌+◌, ◌-◌, ◌≤◌, ◌≡◌, ◌≢◌, ◌⊎◌, sym, ap, ◌∙◌, inl, inr, min, Bool, true, some, arith,
  Option-cases, sum, ok,
}
use power_plant.Broker.Assets.{default_resolve, default_withdraw, converter_of, Converter, Assets}
use power_plant.Broker.Swaps.{
  Config, Storage, Path2, do_swap, burn_surplus_energy, resolve_path, withdraw_path, after_sale,
}

-- A balance before and after an amount was taken from it: it fell by the amount, or the account may die, the rest was
-- less than the minimum balance, and nothing is left.
abbrev pub IsTaken : ℕ → Bool → ℕ → ℕ → ℕ → Type 0
IsTaken minimum keep_alive amount before after =
    (after + amount ≡ before)
    ⊎ ((keep_alive ≡ false) × (after ≡ 0) × (amount ≤ before) × (before < amount + minimum))

module _ (A : Assets) where
  -- No balance but that of the account in the asset changed.
  abbrev pub IsOnly : ℕ → ℕ → A.State → A.State → Type 0
  IsOnly asset who a a' = (b k : ℕ) → (b ≢ asset) ⊎ (k ≢ who) → A.balance b k a' ≡ A.balance b k a

  -- What fungible assets document of their calls. A withdrawal that need not keep the account alive takes a rest
  -- below the minimum balance of the asset too, as dust that nobody gets. The fee goes to `fee_account`,
  -- and the handler of sold energy moves nothing.
  pub record Laws (fee_account : ℕ) (minimum_balance : ℕ → ℕ) : Type 0 where
    pub withdraw_lem :
        (k : Bool) (asset who n : ℕ) (a a' : A.State)
        → A.withdraw k asset who n a ≡ some a'
        → IsTaken (minimum_balance asset) k n (A.balance asset who a) (A.balance asset who a')
          × IsOnly asset who a a'
    pub resolve_lem :
        (asset who n : ℕ) (a a' : A.State)
        → A.resolve asset who n a ≡ some a'
        → (A.balance asset who a' ≡ A.balance asset who a + n) × IsOnly asset who a a'
    pub burn_from_lem :
        (asset who n burned : ℕ) (a a' : A.State)
        → A.burn_from asset who n a ≡ some (burned, a')
        → (burned ≤ n)
          × (A.balance asset who a' + burned ≡ A.balance asset who a)
          × IsOnly asset who a a'
    pub on_unbalanced_lem :
        (asset n b k : ℕ) (a : A.State)
        → k ≢ fee_account
        → A.balance b k (A.on_unbalanced asset n a) ≡ A.balance b k a
    pub on_energy_sell_lem :
        (n b k : ℕ) (a : A.State) → A.balance b k (A.on_energy_sell n a) ≡ A.balance b k a

module _ (C : Config) where
  -- A swap that succeeds went through all its transfers.
  do_swap_steps :
      (sender recipient : ℕ) (path : Path2) (amount_in amount_out fee : ℕ) (keep_alive : Bool)
      (s : Storage C)
      → (do_swap C sender recipient path amount_in amount_out fee keep_alive s).0 ≡ ok tt
      → (a₁ a₂ a₃ a₄ : C.assets.State) × (C.assets.withdraw keep_alive path.asset_in sender
            amount_in s.assets
          ≡ some a₁)
        × (resolve_path C path
              (amount_in - min amount_in fee)
              (C.assets.on_unbalanced path.asset_in (min amount_in fee) a₁)
            ≡ some a₂)
        × (withdraw_path C path amount_out a₂ ≡ some a₃)
        × (C.assets.resolve path.asset_out recipient amount_out a₃ ≡ some a₄)
        × ((do_swap C sender recipient path amount_in amount_out fee keep_alive s).1
            ≡ after_sale C
                (C.assets.balance C.energy_asset C.account_id s.assets)
                (C.assets.balance C.energy_asset C.account_id a₄)
                (record s { assets = a₄ }))
  unfolding do_swap
  do_swap_steps sender recipient path amount_in amount_out fee keep_alive s e =
      let paid = C.assets.withdraw keep_alive path.asset_in sender amount_in s.assets in
      elim (Option-cases paid) [
        | inl n ↦ absurd (ground arith)
        | inr (a₁, e₁) ↦
            elim (Option-cases (
              resolve_path C path (amount_in - min amount_in fee)
                (C.assets.on_unbalanced path.asset_in (min amount_in fee) a₁))) [
                  | inl n ↦ absurd (ground arith)
                  | inr (a₂, e₂) ↦ elim (Option-cases (withdraw_path C path amount_out a₂)) [
                    | inl n ↦ absurd (ground arith)
                    | inr (a₃, e₃) ↦
                        elim (Option-cases
                          (C.assets.resolve path.asset_out recipient amount_out a₃)) [
                            | inl n ↦ absurd (ground arith)
                            | inr (a₄, e₄) ↦ (a₁, a₂, a₃, a₄, e₁, e₂, e₃, e₄, ground arith)
                          ]
                  ]
                ]
      ]

  -- Burning the surplus never takes the stored energy below the capacity, and touches no other balance.
  pub burn_surplus_energy_lem :
      (fee_account : ℕ) (minimum_balance : ℕ → ℕ) (L : Laws C.assets fee_account minimum_balance)
      (s : Storage C)
      → let s' = burn_surplus_energy C s in
        (min (C.assets.balance C.energy_asset C.account_id s.assets) s.energy_capacity
          ≤ C.assets.balance C.energy_asset C.account_id s'.assets)
        × (C.assets.balance C.energy_asset C.account_id s'.assets
            ≤ C.assets.balance C.energy_asset C.account_id s.assets)
        × IsOnly C.assets C.energy_asset C.account_id s.assets s'.assets
  unfolding burn_surplus_energy
  burn_surplus_energy_lem fee_account minimum_balance L s =
      let surplus = C.assets.balance C.energy_asset C.account_id s.assets - s.energy_capacity in
      elim (Option-cases (C.assets.burn_from C.energy_asset C.account_id surplus s.assets)) [
        | inl n ↦ (ground arith, ground arith, λ b k h. ground arith)
        | inr ((burned, a), e) ↦
            let (le, sum, only) =
              L.burn_from_lem C.energy_asset C.account_id surplus burned s.assets a e in
            (ground arith, ground arith, λ b k h. let same = only b k h in ground arith)
      ]

  after_sale_frame :
      (fee_account : ℕ) (minimum_balance : ℕ → ℕ) (L : Laws C.assets fee_account minimum_balance)
      (before after b k : ℕ) (s : Storage C)
      → k ≢ C.account_id
      → C.assets.balance b k (after_sale C before after s).assets ≡ C.assets.balance b k s.assets
  after_sale_frame fee_account minimum_balance L before after b k s h =
      let (ge, le, only) = burn_surplus_energy_lem fee_account minimum_balance L s in
      let same = only b k (inr h) in
      let sold = L.on_energy_sell_lem (after - before) b k (burn_surplus_energy C s).assets in
      ground arith

  -- If assets withdraw, deposit and burn as fungibles document: a swap that succeeds, through a converter with the
  -- default methods and between two assets, takes the amount in from the sender and gives the amount out to the
  -- recipient, exactly; but where the sender's account need not be kept alive, a rest of the sender below
  -- the minimum balance may be lost to it too. The accounts are neither the broker's nor the one that the
  -- fees go to, and the handler of sold energy moves nothing.
  pub do_swap_balances :
      (fee_account : ℕ) (minimum_balance : ℕ → ℕ) (L : Laws C.assets fee_account minimum_balance)
      (c : Converter C.assets) (sender recipient : ℕ) (path : Path2) (amount_in amount_out fee : ℕ)
      (keep_alive : Bool) (s : Storage C)
      → converter_of C.assets C.converters path.asset_in path.asset_out ≡ some c
      → ((value : ℕ) (a : C.assets.State)
          → c.withdraw C.account_id value a
            ≡ default_withdraw C.assets path.asset_out C.account_id value a)
      → ((value : ℕ) (a : C.assets.State)
          → c.resolve C.account_id value a
            ≡ default_resolve C.assets path.asset_in C.account_id value a)
      → path.asset_in ≢ path.asset_out
      → sender ≢ C.account_id
      → recipient ≢ C.account_id
      → sender ≢ fee_account
      → recipient ≢ fee_account
      → (do_swap C sender recipient path amount_in amount_out fee keep_alive s).0 ≡ ok tt
      → let s' = (do_swap C sender recipient path amount_in amount_out fee keep_alive s).1 in
        IsTaken
          (minimum_balance path.asset_in)
          keep_alive
          amount_in
          (C.assets.balance path.asset_in sender s.assets)
          (C.assets.balance path.asset_in sender s'.assets)
        × (C.assets.balance path.asset_out recipient s'.assets
            ≡ C.assets.balance path.asset_out recipient s.assets + amount_out)
  do_swap_balances fee_account minimum_balance L c sender recipient path amount_in amount_out fee
        keep_alive s found dw dr ne sb rb sf rf e =
      let (a₁, a₂, a₃, a₄, e₁, e₂, e₃, e₄, end) =
        do_swap_steps sender recipient path amount_in amount_out fee keep_alive s e in
      let taken = min amount_in fee in
      let a₀ = C.assets.on_unbalanced path.asset_in taken a₁ in
      let resolved : default_resolve C.assets path.asset_in C.account_id (amount_in - taken) a₀
          ≡ some a₂ =
        sym (dr (amount_in - taken) a₀) ∙ ground arith in
      let withdrawn : default_withdraw C.assets path.asset_out C.account_id amount_out a₂
          ≡ some a₃ =
        sym (dw amount_out a₂) ∙ ground arith in
      let (p₁, o₁) = L.withdraw_lem keep_alive path.asset_in sender amount_in s.assets a₁ e₁ in
      let (p₂, o₂) = L.resolve_lem path.asset_in C.account_id (amount_in - taken) a₀ a₂ resolved in
      let (p₃, o₃) = L.withdraw_lem true path.asset_out C.account_id amount_out a₂ a₃ withdrawn in
      let (p₄, o₄) = L.resolve_lem path.asset_out recipient amount_out a₃ a₄ e₄ in
      let sale : (b k : ℕ)
          → k ≢ C.account_id
          → C.assets.balance b k
              (after_sale C (C.assets.balance C.energy_asset C.account_id s.assets)
                (C.assets.balance C.energy_asset C.account_id a₄) (record s { assets = a₄ })).assets
            ≡ C.assets.balance b k a₄ =
        λ b k h.
          after_sale_frame fee_account minimum_balance L
            (C.assets.balance C.energy_asset C.account_id s.assets)
            (C.assets.balance C.energy_asset C.account_id a₄) b k (record s { assets = a₄ }) h in
      (
        subst
            (IsTaken (minimum_balance path.asset_in) keep_alive amount_in
              (C.assets.balance path.asset_in sender s.assets))
            (sym (
              ap (λ x. C.assets.balance path.asset_in sender x.assets) end
              ∙ sale path.asset_in sender sb
              ∙ o₄ path.asset_in sender (inl ne)
              ∙ o₃ path.asset_in sender (inl ne)
              ∙ o₂ path.asset_in sender (inr sb)
              ∙ L.on_unbalanced_lem path.asset_in taken path.asset_in sender a₁ sf))
            p₁,
        ap (λ x. C.assets.balance path.asset_out recipient x.assets) end
            ∙ sale path.asset_out recipient rb
            ∙ p₄
            ∙ ap (λ n. n + amount_out)
                (o₃ path.asset_out recipient (inr rb)
                  ∙ o₂ path.asset_out recipient (inr rb)
                  ∙ L.on_unbalanced_lem path.asset_in taken path.asset_out recipient a₁ rf
                  ∙ o₁ path.asset_out recipient (inl (λ h. ne (sym h)))),
      )
