-- ===== src/Fee.antt =====
-- crates/gmsol-model/src/params/fee.rs: the fees of swaps, orders and liquidations.
use gmx_solana.Prelude.{
  ℕ, ◌+◌, ◌-◌, Bool, true, false, Option, none, some, ltb, ◌==◌, if◌then◌else◌,
}
use gmx_solana.Prelude.Maybe.{◌>>=◌}
use gmx_solana.Result.{Result, ok, err, Error, ok_or}
use gmx_solana.Num.{
  FixedPointOps, checked_add, checked_sub, checked_div, checked_mul_div, checked_round_up_div,
}
use gmx_solana.Utils.{apply_factor}
use gmx_solana.Price.{Price, has_zero, pick_price}
pub mod Base
pub mod Funding
pub mod Position
pub mod Split
unfoldable pub use Base.*
unfoldable pub use Funding.*
unfoldable pub use Position.*
