-- ===== src/Ledger/Rebond.antt =====
-- Rebonding of funds that were about to be unlocked (pallets/energy-generation/src/lib.rs).
use power_plant.Prelude.{ℕ, ◌+◌, ◌-◌, ◌≤◌, ◌≡◌, List, [], ◌∷◌, arith, min, u128_max, add128-exact}
use mathlib.Core.List.{reverse}
use power_plant.Ledger.{UnlockChunk, StakingLedger, rebond_last, rebond}
use power_plant.Ledger.Unlocking.{sum_values, sum_values-reverse, IsValid}

rebond_last_lem :
    (value active balance : ℕ) (cs : List UnlockChunk)
    → balance ≤ value
    → active + sum_values cs ≤ u128_max
    → balance + sum_values cs ≤ u128_max
    → let (cs', active', balance') = rebond_last value active balance cs in
      (balance' ≡ min value (balance + sum_values cs))
      × (active' + balance ≡ active + balance')
      × (sum_values cs' + balance' ≡ sum_values cs + balance)
unfolding rebond_last
rebond_last_lem value active balance [] h fits room = omega arith
rebond_last_lem value active balance (c ∷ cs) h fits room = ground (
  arith,
  add128-exact balance c.value (omega arith),
  add128-exact active c.value (omega arith),
  add128-exact active (value - balance),
  add128-exact balance (value - balance),
  rebond_last_lem value (active + c.value) (balance + c.value) cs,
)

-- Rebonding moves the asked amount, or all that is unlocking if that is less, to the active stake;
-- the total stays, and the ledger stays valid.
pub rebond-IsValid :
    (value : ℕ) (l : StakingLedger)
    → IsValid l
    → let (l', rebonded) = rebond value l in
      IsValid l'
      × (rebonded ≡ min value (sum_values l.unlocking))
      × (l'.active ≡ l.active + rebonded)
      × (sum_values l'.unlocking + rebonded ≡ sum_values l.unlocking)
      × (l'.total ≡ l.total)
unfolding rebond
rebond-IsValid value l v = ground (
  arith,
  sum_values-reverse l.unlocking,
  rebond_last_lem value l.active 0 (reverse l.unlocking),
  sum_values-reverse (rebond_last value l.active 0 (reverse l.unlocking)).0,
)
