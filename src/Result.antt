-- ===== src/Result.antt =====
-- `crate::Result` of gmsol-model: the errors of crates/gmsol-model/src/error.rs that the modelled code
-- raises, the `?` operator as a bind, and rules to prove what a successful call ensures.
mod Monad
mod Ensure
pub use Monad.*
pub use Ensure.*
