-- ===== src/Faucet/Metered.antt =====
-- What an account can get from the faucet (pallets/faucet/src/lib.rs).
use power_plant.Prelude.{
  ℕ, ◌+◌, ◌-◌, ◌≤◌, ◌<◌, ◌≡◌, refl, inl, inr, List, [], ◌∷◌, arith, leb, ◌==◌, if◌then◌else◌,
  Bool-cases, u128_max, add128, ok, err, with_storage_layer, insert,
}
use power_plant.Faucet.{
  funds_sent, Config, Storage, none_origin, request_funds, extend_period, request_of,
}

-- The amounts granted, each with its block, from the given block on.
abbrev pub granted_since : ℕ → List (ℕ × ℕ) → ℕ
granted_since start [] = 0
granted_since start ((block, amount) ∷ grants) =
    (if leb start block then amount else 0) + granted_since start grants

-- All grants are before the block.
abbrev pub AreBefore : ℕ → List (ℕ × ℕ) → Type 0
AreBefore block [] = Unit
AreBefore block ((b, _) ∷ grants) = (b < block) × AreBefore block grants

granted_since_later :
    (start : ℕ) (grants : List (ℕ × ℕ)) → AreBefore start grants → granted_since start grants ≡ 0
granted_since_later start [] h = refl
granted_since_later start ((b, a) ∷ grants) (lt, h) =
    ground (arith, granted_since_later start grants h)

AreBefore-weaken :
    (x y : ℕ) (grants : List (ℕ × ℕ)) → x ≤ y → AreBefore x grants → AreBefore y grants
AreBefore-weaken x y [] le h = tt
AreBefore-weaken x y ((b, a) ∷ grants) le (lt, h) = (omega arith, AreBefore-weaken x y grants le h)

-- A history: blocks pass, and funds are requested for accounts.
pub data Step : Type 0 where
  blocks_pass : ℕ → Step
  requests : ℕ → ℕ → Step

module _ (C : Config) (who : ℕ) where
  -- A step, with the grants to the account.
  unfoldable pub take_step : Step → List (ℕ × ℕ) × Storage C → List (ℕ × ℕ) × Storage C
  take_step (blocks_pass n) (grants, s) = (grants, record s { block_number = s.block_number + n })
  take_step (requests account amount) (grants, s) =
      let (r, s') = with_storage_layer (request_funds C none_origin account amount) s in
      (
        elim r [
          | err e ↦ grants
          | ok t ↦ if account == who then (s.block_number, amount) ∷ grants else grants
        ],
        s',
      )

  unfoldable pub run : List Step → List (ℕ × ℕ) × Storage C → List (ℕ × ℕ) × Storage C
  run [] x = x
  run (step ∷ steps) x = run steps (take_step step x)

  -- The recorded total is what was granted since the recorded block, and at most the limit; no grant is a
  -- period behind that block or later.
  pub record IsMetered (grants : List (ℕ × ℕ)) (s : Storage C) : Type 0 where
    pub total_eq : granted_since (request_of C who s).1 grants ≡ (request_of C who s).0
    pub total_le : (request_of C who s).0 ≤ C.max_amount
    pub start_le : (request_of C who s).1 ≤ s.block_number
    pub are_before : AreBefore ((request_of C who s).1 + C.accumulation_period) grants

  request-IsMetered :
      (amount : ℕ) (grants : List (ℕ × ℕ)) (s : Storage C)
      → 0 < C.accumulation_period
      → C.max_amount + C.max_amount ≤ u128_max
      → amount ≤ C.max_amount
      → (extend_period C amount s.block_number (request_of C who s)).0 ≤ C.max_amount
      → IsMetered grants s
      → let (total, start) = extend_period C amount s.block_number (request_of C who s) in
        (granted_since start ((s.block_number, amount) ∷ grants) ≡ total)
        × (start ≤ s.block_number)
        × AreBefore (start + C.accumulation_period) ((s.block_number, amount) ∷ grants)
  unfolding extend_period add128
  request-IsMetered amount grants s pos fits le total_le m =
      let (balance, start) = request_of C who s in
      let total = m.total_eq in
      let bound = m.total_le in
      let begun = m.start_le in
      elim (Bool-cases (leb C.accumulation_period (s.block_number - start))) [
        | inl over ↦
            let passed : start + C.accumulation_period ≤ s.block_number = ground arith in
            let before =
              AreBefore-weaken (start + C.accumulation_period) s.block_number grants passed
                m.are_before in
            let later =
              AreBefore-weaken s.block_number (s.block_number + C.accumulation_period) grants
                (omega arith) before in
            let none_since = granted_since_later s.block_number grants before in ground arith
        | inr inside ↦ let before = m.are_before in ground arith
      ]

  -- The storage behind a request that is granted.
  abbrev granted : ℕ → ℕ → Storage C → Storage C
  granted account amount s = record s {
    requests =
        insert account (extend_period C amount s.block_number (request_of C account s)) s.requests;
    events = funds_sent account amount ∷ s.events;
    others = C.deposit_creating account amount s.others;
  }

  granted-IsMetered :
      (account amount : ℕ) (grants : List (ℕ × ℕ)) (s : Storage C)
      → 0 < C.accumulation_period
      → C.max_amount + C.max_amount ≤ u128_max
      → amount ≤ C.max_amount
      → (extend_period C amount s.block_number (request_of C account s)).0 ≤ C.max_amount
      → IsMetered grants s
      → IsMetered
          (if account == who then (s.block_number, amount) ∷ grants else grants)
          (granted account amount s)
  granted-IsMetered account amount grants s pos fits le total_le m =
      elim (Bool-cases (account == who)) [
        | inl t ↦
            let same : account ≡ who = ground arith in
            let total_le' : (extend_period C amount s.block_number (request_of C who s)).0
                ≤ C.max_amount =
              ground arith in
            let facts = request-IsMetered amount grants s pos fits le total_le' m in
            let at : request_of C who (granted account amount s)
                ≡ extend_period C amount s.block_number (request_of C who s) =
              ground arith in
            record {
              total_eq = ground arith;
              total_le = ground arith;
              start_le = ground arith;
              are_before = ground arith;
            }
        | inr f ↦
            let at : request_of C who (granted account amount s) ≡ request_of C who s =
              ground arith in
            let m₀ = m.total_eq in
            let m₁ = m.total_le in
            let m₂ = m.start_le in
            let m₃ = m.are_before in
            record {
              total_eq = ground arith;
              total_le = ground arith;
              start_le = ground arith;
              are_before = ground arith;
            }
      ]

  step-IsMetered :
      (step : Step) (grants : List (ℕ × ℕ)) (s : Storage C)
      → 0 < C.accumulation_period
      → C.max_amount + C.max_amount ≤ u128_max
      → IsMetered grants s
      → let (grants', s') = take_step step (grants, s) in IsMetered grants' s'
  unfolding take_step request_funds
  step-IsMetered (blocks_pass n) grants s pos fits m = record {
    total_eq = m.total_eq;
    total_le = m.total_le;
    start_le = let begun = m.start_le in ground arith;
    are_before = m.are_before;
  }
  step-IsMetered (requests account amount) grants s pos fits m =
      elim (Bool-cases (leb amount C.max_amount)) [
        | inr f ↦ ground arith
        | inl t ↦
            elim (Bool-cases (
              leb (extend_period C amount s.block_number (request_of C account s)).0
                C.max_amount)) [
                  | inr f ↦ ground arith
                  | inl t' ↦
                      let done =
                        granted-IsMetered account amount grants s pos fits (ground arith)
                          (ground arith) m in
                      ground arith
                ]
      ]

  -- If the period is at least a block and twice the limit fits a balance: after any history of blocks and
  -- requests, an account that was metered is. The total that is recorded for it is exactly what it was granted
  -- since the recorded beginning of its period, is at most the limit, and all its grants are before the end of
  -- that period.
  pub run-IsMetered :
      (steps : List Step) (grants : List (ℕ × ℕ)) (s : Storage C)
      → 0 < C.accumulation_period
      → C.max_amount + C.max_amount ≤ u128_max
      → IsMetered grants s
      → let (grants', s') = run steps (grants, s) in IsMetered grants' s'
  unfolding run
  run-IsMetered [] grants s pos fits m = m
  run-IsMetered (step ∷ steps) grants s pos fits m =
      let (grants', s') = take_step step (grants, s) in
      run-IsMetered steps grants' s' pos fits (step-IsMetered step grants s pos fits m)
