-- ===== src/Examples/Faucet.antt =====
-- A faucet with the limit 100 in a period of 10 blocks, and requests for account 3.
use power_plant.Prelude.{ℕ, ◌+◌, List, [], ◌∷◌, arith, refl, empty}
use power_plant.Faucet.{Config, Storage}
use power_plant.Faucet.Metered.{IsMetered, Step, blocks_pass, requests, run, run-IsMetered}

abbrev config : Config
config = record {
  State = ℕ;
  deposit_creating = λ who amount paid. paid + amount;
  max_amount = 100;
  accumulation_period = 10;
}

abbrev storage : Storage config
storage = record { requests = empty; block_number = 4; events = []; others = 0 }

-- The third request exceeds the limit of the period, the last one begins a new period.
abbrev steps : List Step
steps =
    requests 3 60
    ∷ blocks_pass 2
    ∷ requests 3 30
    ∷ requests 3 30
    ∷ blocks_pass 6
    ∷ requests 3 70
    ∷ []

fresh : IsMetered config 3 [] storage
fresh = record { total_eq = refl; total_le = omega arith; start_le = omega arith; are_before = tt }

run-IsMetered_example :
    let (grants, s) = run config 3 steps ([], storage) in IsMetered config 3 grants s
run-IsMetered_example = run-IsMetered config 3 steps [] storage (omega arith) (omega arith) fresh
