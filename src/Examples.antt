-- ===== src/Examples.antt =====
-- Concrete runs of the models, and concrete instances of their parameters.
mod Toolbox
mod Spans
mod Staking
mod Faucet
mod Calendar
mod Registry
mod Privileges
mod Reports
mod NacManaging
mod EnergyFee
mod Inspect
mod Compute
mod Ledger
mod Reputation
mod Broker
mod Claiming
mod Vesting
