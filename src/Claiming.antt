-- ===== src/Claiming.antt =====
-- Claims of Ethereum addresses (pallets/claiming).
pub mod Message
pub mod Claims
