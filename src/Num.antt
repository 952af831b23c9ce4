-- ===== src/Num.antt =====
-- crates/gmsol-model/src/num.rs and the trait of fixed.rs: the number type of a market, an unsigned
-- integer of w bits with its signed partner. `half` is 2 ^ (w - 1), so unsigned values are below
-- `half + half` and a signed value lies from -half to half - 1. Operations of Rust's integers (and of
-- num_traits, which calls those) return `none` out of range.
mod Signed
mod Unsigned
mod MulDiv
pub mod Exact
pub mod Round
pub mod Bounds
unfoldable pub use Unsigned.*
unfoldable pub use MulDiv.*
unfoldable pub use Signed.*
unfoldable pub use Ops.*
mod Ops
