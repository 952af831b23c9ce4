-- ===== src/Market.antt =====
-- programs/gmsol-store/src/states/market: the state of a market, with what gmsol-model computes of it.
pub mod Config
pub mod Pools
pub mod Clock
pub mod State
pub mod Supply
pub mod Base
pub mod Borrowing
pub mod PositionImpact
pub mod SwapImpact
pub mod Perp
pub mod Liquidity
pub mod Balance
