-- ===== src/Action.antt =====
-- crates/gmsol-model/src/action: the actions on a market. An action that fails returns no market: its
-- caller throws the changed copy away, and the instruction has no effect.
pub mod Holdings
pub mod Swap
pub mod Deposit
pub mod Withdraw
pub mod DistributePositionImpact
pub mod UpdateBorrowing
pub mod UpdateFunding
pub mod Increase
pub mod Decrease
pub mod Accrual
pub mod Solvency
