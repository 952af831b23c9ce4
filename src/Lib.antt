-- ===== src/Lib.antt =====
-- GMX-Solana: the model of a market (crates/gmsol-model) and the market account of the store program
-- (programs/gmsol-store/src/states/market), and utilities of crates/gmsol-utils.
--
-- A market keeps pools of a long and a short token. Liquidity providers deposit tokens for market tokens
-- and withdraw them again, traders swap one token for the other, and both pay a price impact for what
-- they do to the balance of the pool. The crate gmsol-model computes on a market through traits; the
-- store program implements the traits for its accounts. Here a trait of the crate is the function of the
-- store program that implements it, so that one record, `Market`, is the state of all of them.
--
--   Num      crates/gmsol-model/src/num.rs. A value of an unsigned type of w bits is a number, one of the
--            signed type an integer; `half` is 2 ^ (w - 1) and a checked operation gives `none` out of
--            range. Exact, Round and Bounds say what the operations give.
--   Fixed    crates/gmsol-model/src/fixed.rs. `u64_d9` and `u128_d20` are the two number types.
--   Price    crates/gmsol-model/src/price.rs.
--   Utils    crates/gmsol-model/src/utils.rs. Utils/Shares is about market tokens as shares.
--   Pool     crates/gmsol-model/src/pool/mod.rs and pool/balance.rs, with the pools of
--            programs/gmsol-store/src/states/market/pool.rs. Apply and Split are about deltas and amounts.
--   Delta    crates/gmsol-model/src/pool/delta.rs and params/price_impact.rs.
--   Fee      crates/gmsol-model/src/params/fee.rs.
--   FixedMap crates/gmsol-utils/src/fixed_map.rs: the map in a sorted array. Shift, Order and Change are
--            about its loops, its order and its changes, Abstract and Refine about what it promises.
--   Decimal  crates/gmsol-utils/src/price/decimal.rs: the encoding of prices.
--   Market   programs/gmsol-store/src/states/market: Config, Pools, Clock, State, with the computations of
--            crates/gmsol-model/src/market: Base (base.rs, utils.rs), Borrowing (borrowing.rs),
--            PositionImpact (position_impact.rs), SwapImpact (swap.rs), Liquidity (liquidity.rs),
--            Perp (perp.rs, with params/position.rs). Supply is about minting and burning. Balance is the
--            token balances that the account records, of revertible/market.rs and utils.rs.
--   Position crates/gmsol-model/src/position.rs, for the positions of
--            programs/gmsol-store/src/states/market/revertible/revertible_position.rs: State, Value (profit,
--            price impact, fees), Collateral (its checks, liquidation) and Updates (open interest, borrowing).
--   Action   crates/gmsol-model/src/action: Swap, Deposit, Withdraw, DistributePositionImpact,
--            UpdateBorrowing, UpdateFunding and Increase (increase_position.rs), with what each does to the
--            tokens that the pools hold. Decrease is the payments of a decrease of a position
--            (decrease_position/collateral_processor.rs): Costs, Processor and Steps, with Losses about
--            a loss and Charges about the fees. Holdings is what the actions share, Accrual is about the distribution and the borrowing
--            state, Solvency about sequences of actions and transfers.
--   Result   the errors and the `?` operator, with the rules for what a call ensures when it succeeds.
--   Prelude  integers and tests over the native numbers.
--   Tests    a market at work.
--
-- An operation that changes a market takes it and returns the new one, or an error and no market: the
-- store program works on a buffer that is thrown away with the transaction. The error values are those of
-- crates/gmsol-model/src/error.rs, less the numbers that some of them print; a panic is the error `panic`.
-- Assertions that only debug builds check are left out. Loops recur on what is left of their range or
-- their exponent; there is no fuel.
--
-- Parameters: the power with a fractional exponent, which the crate rust_decimal computes, is an argument
-- of the number types and nothing is assumed of it. The time of the runtime is a field of the market,
-- its slot one of the position, with the discount of the order and the result of the validation of the
-- accounts. The function that makes the key of a fixed map, a hash, is an argument; nothing is assumed
-- of it.
--
-- Not modelled: the rest of the decrease of a position; the accounts, instructions and token transfers
-- of the programs, the pricing kinds that a swap inside another instruction may have (the model is that of
-- a plain swap), the buffers behind a revertible market; clients, decoding, oracles and the command line.
pub mod Prelude
pub mod Result
pub mod Num
pub mod Fixed
pub mod Price
pub mod Utils
pub mod FixedMap
pub mod Decimal
pub mod Pool
pub mod Delta
pub mod Fee
pub mod Market
pub mod Position
pub mod Action
pub mod Tests
