-- ===== src/Lib.antt =====
-- The Soroban contracts of a utility meter payment system, and what is proved of them.
--
-- Parts, and the files that model them (paths from the repository's root):
--  - Base: numbers and words (`i128`, `u64`, `u128` with checked, saturating and wrapping operations), maps,
--   and `Call`, the state monad of a contract call whose errors are panics.
--  - Common: contracts/common/src. WeightedRate is weighted_rate.rs (256-bit products, long division and the
--   time-weighted average), Scaling is scaling.rs.
--  - Settlement: contracts/settlement/src. Host is the chain as the contract sees it with its reentrancy lock
--   (reentrancy.rs), Fees is fees.rs and token_utils.rs, Rates is rate_application.rs and conversion.rs, Entry
--   is the entry points of lib.rs.
--  - ResourceToken: contracts/resource-token/src. Storage is storage.rs, Contract is admin.rs, auth.rs,
--   operators.rs and lib.rs; the other files hold the theorems.
--  - MeterAggregator: contracts/meter-aggregator/src. Storage is storage.rs, types.rs and constants.rs,
--   Contract the entry points of lib.rs; Pruning, Totals and History hold the theorems.
--  - PriceOracle: contracts/price_oracle/src/lib.rs. Contract is its entry points, Prices the theorems.
--  - UtilityContracts: contracts/utility_contracts/src. Errors is the error type of lib.rs. Meters is the
--   meters of lib.rs: Registration, Claims, Funds and Usage the entry points, Helpers and Payouts what they
--   call, Frame, Shares, Payments and Pools the lemmas, Effects, Funding, Settings and Reports what each
--   entry point changes, Limits, Bills, History and Replay the theorems. AdminTransfer is the transfer of
--   the administration of lib.rs. Stream is the continuous flows of lib.rs with enterprise.rs (Fleet) and
--   the part of temporary_storage.rs that they use (Temporary): Update is the charge that every operation
--   starts with, Creation, Pausing, Rates, Balances and Config the operations, and Charge, Fees, Solvency,
--   Steps, Lifecycle, Slashing, Administration and History the theorems. Multisig is the withdrawals of
--   lib.rs that several wallets approve: Config, Requests and Execution the entry points, Consent, Numbers,
--   Effects, Once, Payout and Safety the theorems. NonceSync is nonce_sync.rs, with Replay and Resets for
--   its theorems. TariffOracle is tariff_oracle.rs: Schedules and Period its functions, Blended, History,
--   Proposals and Notice the theorems. VelocityLimit is velocity_limit.rs: Types its storage and events,
--   Checks its functions, Admission, Day and Overrides the theorems.
--
-- How the model stands to the code: a contract's storage is a record with one field for each kind of key, and a
-- function of the source keeps its name. A panic is an error without a state, because the host reverts a call
-- that panics. `require_auth` asks the environment which addresses authorized the call. Plain `+`, `-` and `*`
-- wrap, as in a release build without overflow checks, where no theorem or guard excludes it; `checked_` and
-- `saturating_` operations are those of Rust. Addresses are natural numbers, since the code only compares them.
-- Tokens and oracles of other contracts are parameters; what a theorem needs of them is a named hypothesis.
--
-- Bounds and fuel: the division of 256 by 128 bits counts its 128 steps down, as the source's loop does. The
-- loops of the meter aggregator count what is left of their range down: the sequence numbers up to the next one
-- to assign, the hours of a day, and, for a volume, one round for each hour of the window, of which every round
-- uses up at least one. The loop over the hours of a tariff period has one unit of fuel for each second of the
-- period and one more; a round takes at least a second.
--
-- Not modelled: the extension of a storage entry's time to live (but what `claim` and `deduct_units` pay for
-- it) and its expiry, the encoding of keys (taken to be injective), and, of contracts/utility_contracts, the
-- referrals, device transfers, disputes, SLA reports, firmware updates, guarantor deposits, billing groups and
-- freezes of lib.rs, its sweep of dust, its gas buffers, its upgrades, the deltas of temporary_storage.rs that
-- streams do not use, the insurance pool, the ghost sweeper, the asset and settlement modules and the wrappers
-- of calls. Gas estimates and the simulator in meter-simulator are no part of the contracts' logic. Where
-- lib.rs passes an error on with `?` in an entry point that returns nothing, the model aborts with it. The
-- field `heartbeat`, which lib.rs uses and its `Meter` does not have, is left out with the entry points that
-- only concern it.
pub mod Base
pub mod Common
pub mod Settlement
pub mod ResourceToken
pub mod PriceOracle
pub mod MeterAggregator
pub mod UtilityContracts
