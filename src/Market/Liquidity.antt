-- ===== src/Market/Liquidity.antt =====
-- `LiquidityMarketExt` of crates/gmsol-model/src/market/liquidity.rs, and the changes of the pools of
-- market/base.rs.
use gmx_solana.Prelude.{ℕ, Bool, true, false, not, ltb, ◌==◌, if◌then◌else◌}
use gmx_solana.Prelude.Maybe.{◌>>=◌ as ◌and_then◌}
use gmx_solana.Prelude.Int.{ℤ, abs, is_negative}
use gmx_solana.Result.{Result, ok, Error, ok_or, err_if, ◌>>=◌, ◌>>◌, PnlFactorKind}
use gmx_solana.Num.{
  FixedPointOps, checked_add, checked_sub, checked_mul, checked_div, to_signed, signed_add,
  signed_sub,
}
use gmx_solana.Utils.{apply_factor, market_token_amount_to_usd}
use gmx_solana.Price.{Prices, pick_price}
use gmx_solana.Pool.{apply_delta_amount}
use gmx_solana.Market.State.{
  Market, borrowing_fee_params, total_supply, max_pool_value_for_deposit, usd_to_amount_divisor,
}
use gmx_solana.Market.Clock.{passed_in_seconds}
use gmx_solana.Market.Base.{pool_value_without_pnl_for_one_side, pnl, cap_pnl, get_msg_by_side}
use gmx_solana.Market.Borrowing.{total_pending_borrowing_fees}
use gmx_solana.Market.PositionImpact.{pending_position_impact_pool_distribution_amount}

module _ ⦃n : FixedPointOps⦄ where
  open n use {unit}

  -- `BaseMarketMutExt::apply_delta`, on the primary pool.
  unfoldable pub apply_delta : Market → Bool → ℤ → Result Market
  apply_delta m is_long_token delta = do
    pool ← apply_delta_amount is_long_token m.pools.primary delta
    ok (record m { pools = record (m.pools) { primary = pool } })

  unfoldable pub apply_delta_to_claimable_fee_pool : Market → Bool → ℤ → Result Market
  apply_delta_to_claimable_fee_pool m is_long_token delta = do
    pool ← apply_delta_amount is_long_token m.pools.claimable_fee delta
    ok (record m { pools = record (m.pools) { claimable_fee = pool } })

  unfoldable pub validate_pool_value_for_deposit : Market → Prices → Bool → Result (Unit {0})
  validate_pool_value_for_deposit m prices is_long_token = do
    pool_value ← pool_value_without_pnl_for_one_side m prices is_long_token true
    err_if (ltb (max_pool_value_for_deposit m is_long_token) pool_value)
        (Error.max_pool_value_exceeded (get_msg_by_side is_long_token))

  -- The share of the pending borrowing fees that belongs to the pool.
  unfoldable pub borrowing_fees_for_pool : Market → Prices → Result ℤ
  borrowing_fees_for_pool m prices = do
    for_long ← total_pending_borrowing_fees m prices true
    for_short ← total_pending_borrowing_fees m prices false
    total ←
        ok_or (checked_add for_long for_short)
          (Error.computation "calculating total pending borrowing fees for pool value")
    share ←
        ok_or
          (◌and_then◌ (checked_sub unit (borrowing_fee_params m).receiver_factor)
            (apply_factor total))
          (Error.computation "calculating total borrowing fees for pool")
    to_signed share

  -- The value of the position impact pool after the pending distribution.
  unfoldable pub impact_pool_value : Market → Prices → Bool → Result ℤ
  impact_pool_value m prices maximize = do
    let duration = passed_in_seconds m.unix_timestamp m.clocks.price_impact_distribution
    (_, left) ← pending_position_impact_pool_distribution_amount m duration
    value ←
        ok_or (checked_mul left (pick_price prices.index_token_price (not maximize)))
          (Error.computation "calculating impact pool value")
    to_signed value

  unfoldable pub pool_value : Market → Prices → PnlFactorKind → Bool → Result ℤ
  pool_value m prices pnl_factor maximize = do
    long_value ← pool_value_without_pnl_for_one_side m prices true maximize
    short_value ← pool_value_without_pnl_for_one_side m prices false maximize
    sum ← ok_or (checked_add long_value short_value) Error.overflow
    tokens ← to_signed sum
    fees ← borrowing_fees_for_pool m prices
    with_fees ←
        ok_or (signed_add tokens fees) (Error.computation "adding total borrowing fees for pool")
    uncapped_long_pnl ← pnl m prices.index_token_price true (not maximize)
    long_pnl ← cap_pnl m true uncapped_long_pnl long_value pnl_factor
    uncapped_short_pnl ← pnl m prices.index_token_price false (not maximize)
    short_pnl ← cap_pnl m false uncapped_short_pnl short_value pnl_factor
    net_pnl ← ok_or (signed_add long_pnl short_pnl) (Error.computation "calculating net pnl")
    without_pnl ← ok_or (signed_sub with_fees net_pnl) (Error.computation "deducting net pnl")
    impact ← impact_pool_value m prices maximize
    ok_or (signed_sub without_pnl impact) (Error.computation "deducting impact pool value")

  unfoldable pub market_token_price : Market → Prices → PnlFactorKind → Bool → Result ℕ
  market_token_price m prices pnl_factor maximize = if total_supply m == 0 then ok unit else (do
    value ← pool_value m prices pnl_factor maximize
    err_if (is_negative value) (Error.invalid_pool_value "the pool value is negative")
    one ←
        ok_or (checked_div unit usd_to_amount_divisor)
          (Error.computation "calculating one market token")
    ok_or (market_token_amount_to_usd one (abs value) (total_supply m))
        (Error.computation "calculating market token price"))
