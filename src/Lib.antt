-- ===== src/Lib.antt =====
-- Models of the core pallets of the Vitreus power plant chain, and proofs about them.
--
-- The chain keeps accounts that stake (the staking ledger of pallets/energy-generation), offences that slash
-- their stake and reputation (pallets/energy-generation/src/slashing.rs), sessions and eras in which they are
-- elected and paid (pallets/energy-generation/src/pallet), reputation points and tiers
-- (pallets/reputation), a broker that sells energy (pallets/energy-broker), claims of tokens by Ethereum
-- addresses (pallets/claiming), vesting schedules (pallets/simple-vesting), VIP and VIPP members with their
-- points and rewards (pallets/privileges), NFTs for levels and for large claims
-- (pallets/nac-managing), fees in energy (pallets/energy-fee), and on test networks a faucet
-- (pallets/faucet). A slash reads the reputation of its validator to bound the amount, and
-- is taken from the ledger later. A claim adds to the claim balance of an account and may mint it a VIPP item,
-- whose holder pallets/privileges counts as a VIPP member; leaving the VIP status burns these items.
--
-- Files, by the code they model:
--   Slashing/Spans       slashing spans of a stash: SlashingSpan, SlashingSpans (slashing.rs)
--   Slashing/Entity      SlashEntity and SlashEntityPerbill (slashing.rs)
--   Slashing/Inspect     InspectingSpans; `close` is its destructor (slashing.rs)
--   Slashing/Disabling   UpToLimitDisablingStrategy (pallets/energy-generation/src/lib.rs) and
--                        add_offending_validator (slashing.rs)
--   Slashing/Compute     compute_slash, kick_out_if_recent, slash_cooperators (slashing.rs)
--   Staking              the storage of pallets/energy-generation/src/pallet/mod.rs, and what it asks of others
--   Staking/Roles        validators, cooperators and their targets (pallet/impls.rs)
--   Staking/Stashes, Bonding, Candidacy, Admin, Dispatch   the calls (pallet/mod.rs) and their helpers
--   Staking/Payout       payout_stakers (pallet/impls.rs)
--   Staking/Offences     do_slash, apply_slash, pay_reporters (slashing.rs), on_offence and deferred slashes
--   Staking/Genesis      the genesis build (pallet/mod.rs)
--   Staking/Reports      FilterHistoricalOffences, ChillOnOffence, StashOf, ExposureOf (src/lib.rs)
--   Staking/Elections, Sessions       the session manager, elections and eras (pallet/impls.rs)
--   Ledger               StakingLedger (pallets/energy-generation/src/lib.rs)
--   Reputation/Points, Tier, Record, Order   pallets/reputation/src/lib.rs
--   Reputation/Pallet    pallets/reputation/src/pallet/mod.rs and impls.rs
--   Broker/Fees, Swaps, Sessions      pallets/energy-broker/src/lib.rs
--   Broker/Assets        pallets/energy-broker/src/converter.rs, and the interface of the assets
--   Claiming/Message, Claims          pallets/claiming/src/lib.rs
--   Vesting/Schedule, Pallet          pallets/simple-vesting/src/lib.rs
--   Faucet               pallets/faucet/src/lib.rs
--   Privileges           the storage of pallets/privileges/src/lib.rs, and what it asks of others
--   Privileges/Dates     CurrentDateInfo and penalties (src/contribution_info.rs)
--   Privileges/Points, Membership, Rewards, Pallet      src/lib.rs
--   Privileges/Exit      pallets/privileges with the model of pallets/nac-managing put in for its parameter
--   NacManaging          the storage of pallets/nac-managing/src/lib.rs, and what it asks of others
--   NacManaging/Items, Vipp, Pallet   NAC items, VIPP items, calls and handlers
--   EnergyFee/Exchange, Charge, Multiplier   pallets/energy-fee/src/lib.rs and extension.rs
--   EnergyFee/Charge/Block   the order in which a block's transactions call them, EVM calls among them
--   Prelude              Boolean tests, lists, machine words, calls that may fail, storage maps
--   Examples             concrete instances of the parameters, and runs
--
-- Functions keep their names. A pallet's storage is a record, a storage map a function to options, a call
-- a function from the storage to a result and the new storage; an extrinsic runs in `with_storage_layer`,
-- which undoes the writes of a failed call. A `&mut` argument is returned with the result. Machine integers
-- are native numbers with the wrap-around or saturation of the source written out; accounts, assets,
-- addresses and signatures are numbers.
--
-- Loops over lists are structural recursion. Three loops are on fuel: that of the decimal digits in
-- Claiming/Message, which gets the number itself as fuel, and each turn divides the number by 10; and the two
-- that burn VIPP items (NacManaging/Vipp and Privileges/Membership), which get one more than the VIPP items of the
-- account, and each turn burns one. The loop over days of `update_time` has the bound of the source, 366.
--
-- Parameters: `Perbill` and `Perquintill` of sp_arithmetic (proportions of at most one take at most all),
-- floating point numbers in the rank formula, the assets and handlers that the broker calls, the currency,
-- vesting and signature recovery that claims use, the reserves that vesting uses, what the staking pallet asks of
-- the currency, the energy asset, sessions and VIP members, `select_nth_unstable_by`, and constants of the runtime;
-- the calendar of the crate chrono, the registry of the NFTs, the encoding of balances and the hash function; the
-- kinds of energy, the exchange and the credits that the fees are paid with. The calendar's law is that a day is
-- followed by one of the same year or by the first of the next; the registry's are that an owner can burn its
-- item and that an attribute written is read back and disturbs no other collection. The laws of the
-- broker's assets are that a call changes the one balance by the amount, and that a withdrawal that need not keep
-- the account alive takes a rest below the asset's minimum balance too; those of the credits, that parts sum to
-- the whole and that exactly what is asked is withdrawn.
--
-- The staking model (Staking) is built on the others: its ledgers are those of Ledger, its bookkeeping of
-- slashes is that of Slashing/Compute, and the storage of Reputation/Pallet is a part of its storage. Maps that
-- the pallet iterates, and `BTreeMap`s, are lists in order of their keys; the order in which the chain iterates
-- `Validators` is that of hashed keys, which the model does not have. Checks that only read are functions to a
-- result; weights are left out.
--
-- Not modelled: the try-runtime checks of pallets/energy-generation; the date as a signed year and a panic where an
-- attribute for the level has no byte; the other pallets (dynamic-energy, treasury-extension and smaller
-- ones), storage migrations and weights; and what is
-- input and output: the node, the command line, RPC and the runtime's configuration.
pub mod Prelude
pub mod Slashing
pub mod Staking
pub mod Reputation
pub mod Ledger
pub mod Broker
pub mod Claiming
pub mod Vesting
pub mod Faucet
pub mod Privileges
pub mod NacManaging
pub mod EnergyFee
pub mod Examples
