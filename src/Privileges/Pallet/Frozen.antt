-- ===== src/Privileges/Pallet/Frozen.antt =====
-- The points of a year whose rewards are set, over histories of calls (pallets/privileges/src/lib.rs).
use power_plant.Prelude.{
  ℕ, ◌≡◌, ◌≢◌, refl, inl, none, List, [], ◌∷◌, arith, set, ok, err, lookup, lookup-delete,
}
use power_plant.Privileges.{IsCalendar, Config, Storage, Origin, signed, no_rewards_for_account}
use power_plant.Privileges.Rewards.{claim_rewards, pay}
use power_plant.Privileges.Pallet.{Extrinsic, call, dispatch, claims}
use power_plant.Privileges.Pallet.Past.{IsPast, dispatch-IsPast}
use power_plant.Privileges.Pallet.Kept.{Kept, YearIsOver, Kept-trans, dispatch-Kept}

module _ (C : Config) (year who : ℕ) where
  -- A history of calls.
  unfoldable pub run : List (Origin × Extrinsic) → Storage C → Storage C
  run [] s = s
  run ((origin, e) ∷ calls) s = run calls (dispatch C origin e s).1

  -- If the calendar is one, the rewards of a year are set and the year is over: after any history of calls of the
  -- pallet, the rewards of the year are the same, an account has the VIP and VIPP points of that year that it
  -- had, or none of the one or the other any more, and the year is still over.
  pub run-Kept :
      (calls : List (Origin × Extrinsic)) (s : Storage C)
      → IsCalendar C.calendar
      → s.rewards year ≢ none
      → YearIsOver C year who s
      → Kept C year who s (run calls s) × YearIsOver C year who (run calls s)
  unfolding run
  run-Kept [] s laws set h = ((refl, inl refl, inl refl), h)
  run-Kept ((origin, e) ∷ calls) s laws set h =
      let s' = (dispatch C origin e s).1 in
      let (step, over) = dispatch-Kept C year who origin e s laws set h in
      let (rest, over') = run-Kept calls s' laws (rw step.0 set) over in
      (Kept-trans C year who s s' (run calls s') step rest, over')

  run-IsPast :
      (calls : List (Origin × Extrinsic)) (s : Storage C)
      → IsPast C year s
      → IsPast C year (run calls s)
  unfolding run
  run-IsPast [] s h = h
  run-IsPast ((origin, e) ∷ calls) s h =
      run-IsPast calls (dispatch C origin e s).1 (dispatch-IsPast C year origin e s h)

  claim_rewards_taken :
      (s : Storage C)
      → (dispatch C (signed who) (claims year) s).0 ≡ ok tt
      → let s' = (dispatch C (signed who) (claims year) s).1 in
        (s.rewards year ≢ none)
        × (lookup who (s.vip_points year) ≢ none)
        × (lookup who (s'.vip_points year) ≡ none)
        × (s'.current_date ≡ s.current_date)
        × (s'.rewards year ≡ s.rewards year)
  unfolding dispatch call claim_rewards pay
  claim_rewards_taken s paid = ground (arith, lookup-delete who who (s.vip_points year))

  claim_rewards_refused :
      (s : Storage C)
      → lookup who (s.vip_points year) ≡ none
      → dispatch C (signed who) (claims year) s ≡ (err no_rewards_for_account, s)
  unfolding dispatch call claim_rewards pay
  claim_rewards_refused s none_left = ground arith

  -- If the calendar is one, and the year has no rewards yet or is over, which every call keeps: when an account
  -- has claimed its rewards of the year behind a history of calls of the pallet, then after any further history
  -- its next claim for that year is refused and changes nothing.
  pub claim_rewards_once :
      (before after : List (Origin × Extrinsic)) (s₀ : Storage C)
      → IsCalendar C.calendar
      → IsPast C year s₀
      → (dispatch C (signed who) (claims year) (run before s₀)).0 ≡ ok tt
      → let s' = run after (dispatch C (signed who) (claims year) (run before s₀)).1 in
        dispatch C (signed who) (claims year) s' ≡ (err no_rewards_for_account, s')
  claim_rewards_once before after s₀ laws past paid =
      let s = run before s₀ in
      let s₁ = (dispatch C (signed who) (claims year) s).1 in
      let still = run-IsPast before s₀ past in
      let (set, had, taken, date, same) = claim_rewards_taken s paid in
      let over : YearIsOver C year who s₁ = ground arith in
      let (kept, over') = run-Kept after s₁ laws (rw same set) over in
      claim_rewards_refused (run after s₁) (ground arith)
