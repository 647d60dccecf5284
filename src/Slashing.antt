-- ===== src/Slashing.antt =====
-- Slashing of validators and cooperators (pallets/energy-generation/src/slashing.rs).
pub mod Spans
pub mod Entity
pub mod Inspect
pub mod Disabling
pub mod Compute
