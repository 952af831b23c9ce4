-- ===== src/Market/Base.antt =====
-- `BaseMarketExt` of crates/gmsol-model/src/market/base.rs and `MarketUtils` of market/utils.rs.
mod Values
mod Reserve
unfoldable pub use Values.*
unfoldable pub use Reserve.*
