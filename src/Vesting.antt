-- ===== src/Vesting.antt =====
-- Vesting schedules of accounts (pallets/simple-vesting).
pub mod Schedule
pub mod Pallet
