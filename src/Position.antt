-- ===== src/Position.antt =====
-- crates/gmsol-model/src/position.rs, for the positions of
-- programs/gmsol-store/src/states/market/revertible/revertible_position.rs.
mod State
mod Value
mod Collateral
mod Updates
unfoldable pub use State.*
unfoldable pub use Value.*
unfoldable pub use Collateral.*
unfoldable pub use Updates.*
