-- ===== src/Broker.antt =====
-- The energy broker, which buys and sells energy at the prices of its converters and burns what it
-- cannot store (pallets/energy-broker).
pub mod Fees
pub mod Assets
pub mod Swaps
pub mod Sessions
