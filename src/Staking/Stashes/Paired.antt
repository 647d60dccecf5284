-- ===== src/Staking/Stashes/Paired.antt =====
-- Stashes and ledgers: the controller that a stash names has the ledger of that stash, and no ledger is
-- without its stash (`check_ledgers` of pallets/energy-generation/src/pallet/impls.rs).
use power_plant.Prelude.{ℕ, ◌≡◌, ◌⊎◌, Option, none, some, arith, StorageMap, insert, remove}
use power_plant.Ledger.{StakingLedger}

abbrev pub owner : Option StakingLedger → Option ℕ
owner none = none
owner (some l) = some l.stash

abbrev pub at : {V : Type 0} → StorageMap V → Option ℕ → Option V
at m none = none
at m (some k) = m k

-- At one stash, and at one controller.
abbrev pub StashAt : StorageMap ℕ → StorageMap StakingLedger → ℕ → Type 0
StashAt b m stash = (b stash ≡ none) ⊎ (owner (at m (b stash)) ≡ some stash)

abbrev pub LedgerAt : StorageMap ℕ → StorageMap StakingLedger → ℕ → Type 0
LedgerAt b m c = (m c ≡ none) ⊎ (at b (owner (m c)) ≡ some c)

pub record IsPaired (b : StorageMap ℕ) (m : StorageMap StakingLedger) : Type 0 where
  pub stash_at : (stash : ℕ) → StashAt b m stash
  pub ledger_at : (c : ℕ) → LedgerAt b m c

module _ (b : StorageMap ℕ) (m : StorageMap StakingLedger) (h : IsPaired b m) where
  pub changed-IsPaired :
      (c : ℕ) (l l' : StakingLedger)
      → m c ≡ some l
      → l'.stash ≡ l.stash
      → IsPaired b (insert c l' m)
  changed-IsPaired c l l' e same = record {
    stash_at = λ k. let old = h.stash_at k in ground arith;
    ledger_at = λ k. let old = h.ledger_at k in let at = h.ledger_at c in ground arith;
  }

  pub bonded-IsPaired :
      (c : ℕ) (l : StakingLedger)
      → b l.stash ≡ none
      → m c ≡ none
      → IsPaired (insert l.stash c b) (insert c l m)
  bonded-IsPaired c l free unpaired = record {
    stash_at = λ k. let old = h.stash_at k in ground arith;
    ledger_at = λ k. let old = h.ledger_at k in ground arith;
  }

  pub killed-IsPaired : (stash c : ℕ) → b stash ≡ some c → IsPaired (remove stash b) (remove c m)
  killed-IsPaired stash c e = record {
    stash_at = λ k. let old = h.stash_at k in let at = h.stash_at stash in ground arith;
    ledger_at = λ k. let old = h.ledger_at k in ground arith;
  }

  pub moved-IsPaired :
      (stash c c' : ℕ) (l : StakingLedger)
      → b stash ≡ some c
      → m c ≡ some l
      → m c' ≡ none
      → IsPaired (insert stash c' b) (insert c' l (remove c m))
  moved-IsPaired stash c c' l e f unpaired = record {
    stash_at = λ k. let old = h.stash_at k in let at = h.stash_at stash in ground arith;
    ledger_at = λ k. let old = h.ledger_at k in let at = h.stash_at stash in ground arith;
  }
