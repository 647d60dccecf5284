-- ===== src/Reputation.antt =====
-- The reputation of accounts (pallets/reputation/src).
pub mod Points
pub mod Tier
pub mod Record
pub mod Order
pub mod Pallet
