-- ===== src/Market/PositionImpact.antt =====
-- `PositionImpactMarketExt` of crates/gmsol-model/src/market/position_impact.rs.
use gmx_solana.Prelude.{ℕ, Bool, ◌||◌, ltb, leb, ◌==◌, if◌then◌else◌}
use gmx_solana.Result.{Result, ok, Error, ok_or, ◌>>=◌}
use gmx_solana.Num.{FixedPointOps, checked_sub, narrow}
use gmx_solana.Utils.{apply_factor}
use gmx_solana.Pool.{long_amount}
use gmx_solana.Market.State.{
  Market, PositionImpactDistributionParams, position_impact_distribution_params,
}
pub mod Distribution

unfoldable pub position_impact_pool_amount : Market → ℕ
position_impact_pool_amount m = long_amount m.pools.position_impact

module _ ⦃n : FixedPointOps⦄ where
  -- What to distribute, and what then stays in the pool, by the amount and the parameters.
  unfoldable pub distribution_of : PositionImpactDistributionParams → ℕ → ℕ → Result (ℕ × ℕ)
  distribution_of params current_amount duration_in_secs =
      if params.distribute_factor == 0 || leb current_amount params.min_position_impact_pool_amount
      then ok (0, current_amount)
      else (do
        max_distribution_amount ←
            ok_or (checked_sub current_amount params.min_position_impact_pool_amount)
              (Error.computation "calculating max distribution amount")
        duration_value ← ok_or (narrow duration_in_secs) Error.convert
        uncapped ←
            ok_or (apply_factor duration_value params.distribute_factor)
              (Error.computation "calculating distribution amount")
        let distribution_amount =
            if ltb max_distribution_amount uncapped then max_distribution_amount else uncapped
        next_amount ←
            ok_or (checked_sub current_amount distribution_amount)
              (Error.computation "calculating next position impact amount")
        ok (distribution_amount, next_amount))

  unfoldable pub pending_position_impact_pool_distribution_amount : Market → ℕ → Result (ℕ × ℕ)
  pending_position_impact_pool_distribution_amount m duration_in_secs =
      distribution_of (position_impact_distribution_params m) (position_impact_pool_amount m)
        duration_in_secs
