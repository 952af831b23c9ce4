-- ===== src/Action/Decrease.antt =====
-- crates/gmsol-model/src/action/decrease_position.
pub mod Costs
pub mod Processor
pub mod Steps
pub mod Losses
pub mod Charges
