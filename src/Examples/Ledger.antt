-- ===== src/Examples/Ledger.antt =====
-- A ledger with two chunks.
use power_plant.Prelude.{◌+◌, ◌-◌, ◌≤◌, ◌<◌, ◌≡◌, refl, List, [], ◌∷◌, arith}
use power_plant.Examples.Toolbox.{fractions}
use power_plant.Ledger.{
  UnlockChunk, StakingLedger, default_from, consolidate_unlocked, rebond, slash_stake,
}
use power_plant.Ledger.Unlocking.{
  IsValid, AreLocked, sum_unlocked, sum_values, consolidate_unlocked-IsValid,
}
use power_plant.Ledger.Rebond.{rebond-IsValid}
use power_plant.Ledger.Slash.{AreNonzero, slash_stake-IsValid, slash_stake_dust}

abbrev chunks : List UnlockChunk
chunks = record { value = 30; era = 4 } ∷ record { value = 20; era = 9 } ∷ []

abbrev ledger : StakingLedger
ledger = record (default_from 7) { total = 150; active = 100; unlocking = chunks }

ledger-IsValid : IsValid ledger
ledger-IsValid = record { total_eq = refl; total_fits = ground arith }

consolidate_unlocked-IsValid_example :
    let l' = consolidate_unlocked 6 ledger in
    IsValid l'
    × AreLocked 6 l'.unlocking
    × (l'.active ≡ 100)
    × (l'.total + sum_unlocked 6 chunks ≡ 150)
consolidate_unlocked-IsValid_example = consolidate_unlocked-IsValid 6 ledger ledger-IsValid

rebond-IsValid_example :
    let (l', rebonded) = rebond 35 ledger in
    IsValid l'
    × (rebonded ≡ 35)
    × (l'.active ≡ 100 + rebonded)
    × (sum_values l'.unlocking + rebonded ≡ 50)
    × (l'.total ≡ 150)
rebond-IsValid_example = rebond-IsValid 35 ledger ledger-IsValid

slash_stake-IsValid_example :
    let (l', slashed, _) = slash_stake fractions 3 120 10 5 ledger in
    IsValid l'
    × AreNonzero l'.unlocking
    × (l'.active ≤ 100)
    × (l'.total + slashed ≡ 150)
    × (slashed ≤ 120 + (10 - 1))
slash_stake-IsValid_example =
    slash_stake-IsValid fractions 3 120 10 5 ledger ledger-IsValid (ground arith)

slash_stake_dust_example :
    let slashed =
      (slash_stake fractions 3 95 10 5 (record (default_from 7) { total = 100; active = 100 })).1 in
    (slashed ≡ 100) × (95 < slashed)
slash_stake_dust_example =
    slash_stake_dust fractions 3 95 10 5 7 100 (ground arith) (ground arith) (ground arith)
      (ground arith)
