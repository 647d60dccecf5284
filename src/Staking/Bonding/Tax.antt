-- ===== src/Staking/Bonding/Tax.antt =====
-- The ledger behind `unbond`, with the tax of VIP members
-- (pallets/energy-generation/src/pallet/mod.rs).
