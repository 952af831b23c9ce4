-- ===== src/Tests/Deposit.antt =====
-- A deposit of both tokens, with a positive price impact.
use gmx_solana.Prelude.{◌+◌, true, false, refl, ◌≡◌, ◌^◌, ◌*◌}
use gmx_solana.Prelude.Int.{pos}
use gmx_solana.Result.{ok}
use gmx_solana.Tests.{u128, market, market_with, pool, prices, market-IsTwoSided}
use gmx_solana.Action.Holdings.{holdings, IsTwoSided}
use gmx_solana.Action.Deposit.Conservation.{deposit_conserves}
use gmx_solana.Num.{
  narrow, checked_add, checked_mul, checked_sub, checked_div, diff, narrow_signed, signed_add,
  signed_sub, signed_neg, signed_div, checked_add_signed, try_signed, to_signed, to_opposite_signed,
  to_signed_with_sign, checked_signed_sub, checked_add_with_signed, checked_sub_with_signed,
  checked_mul_with_signed, as_divisor_to_round_up_magnitude_div, checked_round_up_div,
  bound_magnitude, checked_mul_div, checked_mul_div_ceil, checked_mul_div_with_signed_numerator,
}
use gmx_solana.Fixed.{fixed_mul, pow_loop, checked_pow_fixed, pow_through_u64}
use gmx_solana.Price.{
  pick_price_for_pnl, pick_price, has_zero, collateral_token_price, checked_mid, mid,
  price_is_valid, prices_is_valid, validate,
}
use gmx_solana.Utils.{
  usd_to_market_token_amount, market_token_amount_to_usd, apply_exponent_factor, apply_factors,
  apply_factor, div_to_factor, div_to_factor_signed,
}
use gmx_solana.Pool.{
  new_one_side, new_both_sides, is_pure_pool, set_is_pure, long_amount, short_amount, amount,
  apply_delta_to_long_amount, apply_delta_to_short_amount, apply_delta_amount, checked_apply_delta,
  long_usd_value, short_usd_value, merge, balance_amount,
}
use gmx_solana.Delta.{
  adjusted_factors, diff_value, is_same_side_rebalance, pool_value_of, pool_delta_with_values,
  pool_delta_with_amounts, price_impact_for_same_side_rebalance,
  price_impact_for_cross_over_rebalance, price_impact,
}
use gmx_solana.Fee.Base.{
  factor, discount_factor_of, fee, receiver_fee, apply_fees, order_fees, liquidation_fee,
}
use gmx_solana.Market.State.{
  Market, open_interest_pool, open_interest_in_tokens_pool, collateral_sum_pool, max_pool_amount,
  max_open_interest, max_pool_value_for_deposit, pnl_factor_config, swap_impact_params,
  swap_fee_params, position_impact_distribution_params, borrowing_fee_params, kink_params,
  total_supply, mint, burn,
}
use gmx_solana.Market.Base.{
  pool_value_without_pnl_for_one_side, open_interest, open_interest_in_tokens, pnl_of_side, pnl,
  pnl_factor_with_pool_value, validate_pool_amount, pnl_factor_exceeded, exceeded_pnl,
  validate_pnl_factor, validate_max_pnl, reserved_value, validate_reserve,
  expected_min_token_balance, total_collateral_amount_for_one_token_side, usage_factor, cap_pnl,
}
use gmx_solana.Market.SwapImpact.{
  impact_amount_with_cap, swap_impact_amount_with_cap, apply_swap_impact_value_with_cap,
}
use gmx_solana.Market.Clock.{saturating_sub, passed_in_seconds, just_passed_in_seconds}
use gmx_solana.Market.Borrowing.{
  exponent, factor as borrowing_factor, cumulative_borrowing_factor, kink_factor,
  kink_borrowing_factor_per_second, power_borrowing_factor_per_second, borrowing_factor_of_side,
  borrowing_factor_per_second, next_cumulative_borrowing_factor, total_pending_borrowing_fees,
}
use gmx_solana.Market.PositionImpact.{
  position_impact_pool_amount, distribution_of, pending_position_impact_pool_distribution_amount,
}
use gmx_solana.Market.Liquidity.{
  apply_delta, apply_delta_to_claimable_fee_pool, validate_pool_value_for_deposit,
  borrowing_fees_for_pool, impact_pool_value, pool_value, market_token_price,
}
use gmx_solana.Action.Deposit.{
  DepositReport, reassign_values, try_new, price_impact as deposit_price_impact, charge_fees,
  add_positive_impact, pay_negative_impact, settle_impact, execute_deposit, deposit_one_side,
  execute, deposit,
}
use mathlib.Core.Bool.{xor}

abbrev after : Market
after =
    market_with (pool 100997000000 11994105191) (pool 0 19894809) (pool 3000000 6000000)
      2128617949935 0

abbrev report : DepositReport
report = record {
  params = record { long_token_amount = 10 ^ 9; short_token_amount = 2 * 10 ^ 9; prices = prices };
  minted = 2128617949935;
  price_impact = pos 150775000000000000000;
  long_token_fees = record { fee_amount_for_receiver = 3000000; fee_amount_for_pool = 7000000 };
  short_token_fees = record { fee_amount_for_receiver = 6000000; fee_amount_for_pool = 14000000 };
}

run : deposit ⦃n = u128⦄ market (10 ^ 9) (2 * 10 ^ 9) prices ≡ ok (after, report)
unfolding narrow checked_add checked_mul checked_sub checked_div diff narrow_signed signed_add
    signed_sub signed_neg signed_div checked_add_signed try_signed to_signed to_opposite_signed
    to_signed_with_sign checked_signed_sub checked_add_with_signed checked_sub_with_signed
    checked_mul_with_signed as_divisor_to_round_up_magnitude_div checked_round_up_div
    bound_magnitude checked_mul_div checked_mul_div_ceil checked_mul_div_with_signed_numerator
    fixed_mul pow_loop checked_pow_fixed pow_through_u64 pick_price_for_pnl pick_price has_zero
    collateral_token_price checked_mid mid price_is_valid prices_is_valid validate
    usd_to_market_token_amount market_token_amount_to_usd apply_exponent_factor apply_factors
    apply_factor div_to_factor div_to_factor_signed new_one_side new_both_sides is_pure_pool
    set_is_pure long_amount short_amount amount apply_delta_to_long_amount
    apply_delta_to_short_amount apply_delta_amount checked_apply_delta long_usd_value
    short_usd_value merge balance_amount adjusted_factors diff_value is_same_side_rebalance
    pool_value_of pool_delta_with_values pool_delta_with_amounts
    price_impact_for_same_side_rebalance price_impact_for_cross_over_rebalance price_impact factor
    discount_factor_of fee receiver_fee apply_fees order_fees liquidation_fee open_interest_pool
    open_interest_in_tokens_pool collateral_sum_pool max_pool_amount max_open_interest
    max_pool_value_for_deposit pnl_factor_config swap_impact_params swap_fee_params
    position_impact_distribution_params borrowing_fee_params kink_params total_supply mint burn
    pool_value_without_pnl_for_one_side open_interest open_interest_in_tokens pnl_of_side pnl
    pnl_factor_with_pool_value validate_pool_amount pnl_factor_exceeded exceeded_pnl
    validate_pnl_factor validate_max_pnl reserved_value validate_reserve expected_min_token_balance
    total_collateral_amount_for_one_token_side usage_factor cap_pnl impact_amount_with_cap
    swap_impact_amount_with_cap apply_swap_impact_value_with_cap saturating_sub passed_in_seconds
    just_passed_in_seconds exponent borrowing_factor cumulative_borrowing_factor kink_factor
    kink_borrowing_factor_per_second power_borrowing_factor_per_second borrowing_factor_of_side
    borrowing_factor_per_second next_cumulative_borrowing_factor total_pending_borrowing_fees
    position_impact_pool_amount distribution_of pending_position_impact_pool_distribution_amount
    apply_delta apply_delta_to_claimable_fee_pool validate_pool_value_for_deposit
    borrowing_fees_for_pool impact_pool_value pool_value market_token_price reassign_values try_new
    deposit_price_impact charge_fees add_positive_impact pay_negative_impact settle_impact
    execute_deposit deposit_one_side execute deposit xor
run = refl

deposit_conserves_example :
    (holdings after true ≡ holdings market true + 10 ^ 9)
    × (holdings after false ≡ holdings market false + 2 * 10 ^ 9)
    × (after.to_mint ≡ market.to_mint + 2128617949935)
    × (after.supply ≡ market.supply)
    × (after.to_burn ≡ market.to_burn)
    × IsTwoSided after
deposit_conserves_example =
    deposit_conserves ⦃n = u128⦄ market market-IsTwoSided (10 ^ 9) (2 * 10 ^ 9) prices {m' = after}
      {report = report} run
