-- ===== src/Ledger/Slash.antt =====
-- Slashing a ledger: for every ratio that the proportional slash may use, how much is taken and that
-- the books still balance (pallets/energy-generation/src/lib.rs).
use power_plant.Prelude.{
  ℕ, zero, suc, ◌+◌, ◌-◌, ◌≤◌, ◌<◌, ◌≡◌, refl, Option, none, some, List, [], ◌∷◌, arith, u128_max,
  empty, get_elem?, set, Option-cases, Bool-cases, inl, inr, ◌==◌, add32,
}
use power_plant.Ledger.{
  default_from, UnlockChunk, StakingLedger, Perquintill, ChunkLoop, slash_out_of, slash_chunk,
  slash_chunks, slash_priority, slash_stake, retain_nonzero,
}
use power_plant.Ledger.Unlocking.{sum_values, IsValid}

sum_values-set :
    (cs : List UnlockChunk) (i : ℕ) (c d : UnlockChunk)
    → get_elem? cs i ≡ some c
    → (sum_values (set cs i d) + c.value ≡ sum_values cs + d.value) × (c.value ≤ sum_values cs)
sum_values-set [] i c d e = ground arith
sum_values-set (x ∷ cs) zero c d e = ground arith
sum_values-set (x ∷ cs) (suc i) c d e = ground (arith, sum_values-set cs i c d e)

abbrev pub AreNonzero : List UnlockChunk → Type 0
AreNonzero [] = Unit
AreNonzero (c ∷ cs) = (0 < c.value) × AreNonzero cs

retain_nonzero_lem :
    (cs : List UnlockChunk)
    → (sum_values (retain_nonzero cs) ≡ sum_values cs) × AreNonzero (retain_nonzero cs)
unfolding retain_nonzero
retain_nonzero_lem [] = (refl, tt)
retain_nonzero_lem (c ∷ cs) = ground (arith, retain_nonzero_lem cs)

module _ (Q : Perquintill) where
  -- Out of one target: what it loses is what the total loses, at most what is left to slash and the
  -- dust of an account below the minimum balance.
  slash_out_of_lem :
      (ratio : Option Q.Ratio) (minimum_balance target total remaining : ℕ)
      → target ≤ total
      → total ≤ u128_max
      → let t = slash_out_of Q ratio minimum_balance target total remaining in
        (t.target ≤ target)
        × (t.total + target ≡ total + t.target)
        × (t.remaining ≡ remaining - (target - t.target))
        × (target - t.target ≤ remaining + (minimum_balance - 1))
  unfolding slash_out_of
  slash_out_of_lem none minimum_balance target total remaining h fits = ground arith
  slash_out_of_lem (some ratio) minimum_balance target total remaining h fits = ground arith

  -- What holds from round to round, for a slash of `amount` out of a ledger of `before` in total.
  record IsOnTrack (minimum_balance before amount active : ℕ) (s : ChunkLoop) : Type 0 where
    total_eq : s.total ≡ active + sum_values s.unlocking
    total_le : s.total ≤ before
    exact : 0 < s.remaining → before + s.remaining ≡ s.total + amount
    bounded : before ≤ s.total + amount + (minimum_balance - 1)

  slash_chunk-IsOnTrack :
      (ratio : Option Q.Ratio) (minimum_balance before amount active i : ℕ) (c : UnlockChunk)
      (s : ChunkLoop)
      → IsOnTrack minimum_balance before amount active s
      → before ≤ u128_max
      → get_elem? s.unlocking i ≡ some c
      → 0 < s.remaining
      → IsOnTrack minimum_balance before amount active (slash_chunk Q ratio minimum_balance i c s)
  unfolding slash_chunk
  slash_chunk-IsOnTrack ratio minimum_balance before amount active i c s v fits found pos =
      let t = slash_out_of Q ratio minimum_balance c.value s.total s.remaining in
      let moved = sum_values-set s.unlocking i c (record c { value = t.target }) found in
      let taken =
        slash_out_of_lem ratio minimum_balance c.value s.total s.remaining (omega arith)
          (omega arith) in
      omega (arith, moved, taken)

  slash_chunks-IsOnTrack :
      (ratio : Option Q.Ratio) (minimum_balance before amount active : ℕ) (priority : List ℕ)
      (s : ChunkLoop)
      → IsOnTrack minimum_balance before amount active s
      → before ≤ u128_max
      → IsOnTrack minimum_balance before amount active
          (slash_chunks Q ratio minimum_balance priority s)
  unfolding slash_chunks
  slash_chunks-IsOnTrack ratio minimum_balance before amount active [] s v fits = v
  slash_chunks-IsOnTrack ratio minimum_balance before amount active (i ∷ is) s v fits =
      elim (Bool-cases (s.remaining == 0)) [
        | inl done ↦ rw done v
        | inr more ↦ elim (Option-cases (get_elem? s.unlocking i)) [
          | inl missing ↦ rw (more, missing) v
          | inr (c, found) ↦
              rw (more, found)
                (slash_chunks-IsOnTrack ratio minimum_balance before amount active is
                  (slash_chunk Q ratio minimum_balance i c s)
                  (slash_chunk-IsOnTrack ratio minimum_balance before amount active i c s v fits
                    found (ground arith))
                  fits)
        ]
      ]

  -- A slash of a positive amount keeps a valid ledger valid and leaves no empty chunk behind; the
  -- active stake does not grow, the amount that it reports is what the total has lost, and passes
  -- the asked amount by less than the minimum balance: the dust of the last target.
  pub slash_stake-IsValid :
      (bonding_duration slash_amount minimum_balance slash_era : ℕ) (l : StakingLedger)
      → IsValid l
      → 0 < slash_amount
      → let (l', slashed, _) =
          slash_stake Q bonding_duration slash_amount minimum_balance slash_era l in
        IsValid l'
        × AreNonzero l'.unlocking
        × (l'.active ≤ l.active)
        × (l'.total + slashed ≡ l.total)
        × (slashed ≤ slash_amount + (minimum_balance - 1))
  unfolding slash_stake
  slash_stake-IsValid bonding_duration slash_amount minimum_balance slash_era l v pos =
      let (ratio, priority) = slash_priority Q slash_amount (add32 slash_era bonding_duration) l in
      let first = slash_out_of Q ratio minimum_balance l.active l.total slash_amount in
      let taken =
        slash_out_of_lem ratio minimum_balance l.active l.total slash_amount (omega arith)
          (omega arith) in
      let s : ChunkLoop = record {
        unlocking = l.unlocking;
        total = first.total;
        remaining = first.remaining;
        slashed_unlocking = empty;
      } in
      let done =
        slash_chunks-IsOnTrack ratio minimum_balance l.total slash_amount first.target priority s
          (omega (arith, taken)) v.total_fits in
      let clean = retain_nonzero_lem (slash_chunks Q ratio minimum_balance priority s).unlocking in
      ground arith

  -- A slash can pass the asked amount: in a ledger without chunks, when less than the minimum
  -- balance would be left over, the whole active stake goes.
  pub slash_stake_dust :
      (bonding_duration slash_amount minimum_balance slash_era stash active : ℕ)
      → 0 < slash_amount
      → slash_amount < active
      → active < slash_amount + minimum_balance
      → active ≤ u128_max
      → let l = record (default_from stash) { total = active; active = active } in
        let slashed = (slash_stake Q bonding_duration slash_amount minimum_balance slash_era l).1 in
        (slashed ≡ active) × (slash_amount < slashed)
  unfolding slash_stake slash_priority slash_out_of slash_chunks
  slash_stake_dust bonding_duration slash_amount minimum_balance slash_era stash active p lt dust
        fits =
      ground arith
