-- ===== src/Tests/Swap.antt =====
-- A swap with a positive price impact that the swap impact pool cannot pay: it is paid in the token that
-- comes in.
use gmx_solana.Prelude.{◌+◌, true, false, refl, ◌≡◌, ◌^◌, ◌*◌}
use gmx_solana.Prelude.Int.{pos}
use gmx_solana.Result.{ok}
use gmx_solana.Tests.{u128, market, market_with, pool, prices, market-IsTwoSided}
use gmx_solana.Action.Holdings.{holdings, IsTwoSided}
use gmx_solana.Action.Swap.Conservation.{swap_conserves}
use gmx_solana.Num.{
  narrow, checked_add, checked_mul, checked_sub, checked_div, diff, narrow_signed, signed_add,
  signed_sub, signed_neg, signed_div, checked_add_signed, try_signed, to_signed, to_opposite_signed,
  to_signed_with_sign, checked_signed_sub, checked_add_with_signed, checked_sub_with_signed,
  checked_mul_with_signed, as_divisor_to_round_up_magnitude_div, checked_round_up_div,
  bound_magnitude, checked_mul_div, checked_mul_div_ceil, checked_mul_div_with_signed_numerator,
}
use gmx_solana.Fixed.{fixed_mul, pow_loop, checked_pow_fixed, pow_through_u64}
use gmx_solana.Price.{
  pick_price_for_pnl, pick_price, has_zero, collateral_token_price, checked_mid, mid,
  price_is_valid, prices_is_valid, validate,
}
use gmx_solana.Utils.{
  usd_to_market_token_amount, market_token_amount_to_usd, apply_exponent_factor, apply_factors,
  apply_factor, div_to_factor, div_to_factor_signed,
}
use gmx_solana.Pool.{
  new_one_side, new_both_sides, is_pure_pool, set_is_pure, long_amount, short_amount, amount,
  apply_delta_to_long_amount, apply_delta_to_short_amount, apply_delta_amount, checked_apply_delta,
  long_usd_value, short_usd_value, merge, balance_amount,
}
use gmx_solana.Delta.{
  adjusted_factors, diff_value, is_same_side_rebalance, pool_value_of, pool_delta_with_values,
  pool_delta_with_amounts, price_impact_for_same_side_rebalance,
  price_impact_for_cross_over_rebalance, price_impact,
}
use gmx_solana.Fee.Base.{
  factor, discount_factor_of, fee, receiver_fee, apply_fees, order_fees, liquidation_fee,
}
use gmx_solana.Market.State.{
  Market, open_interest_pool, open_interest_in_tokens_pool, collateral_sum_pool, max_pool_amount,
  max_open_interest, max_pool_value_for_deposit, pnl_factor_config, swap_impact_params,
  swap_fee_params, position_impact_distribution_params, borrowing_fee_params, kink_params,
  total_supply, mint, burn,
}
use gmx_solana.Market.Base.{
  pool_value_without_pnl_for_one_side, open_interest, open_interest_in_tokens, pnl_of_side, pnl,
  pnl_factor_with_pool_value, validate_pool_amount, pnl_factor_exceeded, exceeded_pnl,
  validate_pnl_factor, validate_max_pnl, reserved_value, validate_reserve,
  expected_min_token_balance, total_collateral_amount_for_one_token_side, usage_factor, cap_pnl,
}
use gmx_solana.Market.SwapImpact.{
  impact_amount_with_cap, swap_impact_amount_with_cap, apply_swap_impact_value_with_cap,
}
use gmx_solana.Action.Swap.{
  SwapReport, try_new, reassign_values, charge_fees, capped_diff_token_in, positive_impact_amounts,
  negative_impact_amounts, cache, swap_price_impact, swap_liquidity, try_execute, swap,
}
use mathlib.Core.Bool.{xor}

abbrev pub after : Market
after = market_with (pool 93389333340 10998599999) (pool 0 18400001) (pool 0 3000000) 0 0

abbrev pub report : SwapReport
report = record {
  params = record { is_token_in_long = false; token_in_amount = 10 ^ 9; prices = prices };
  result = record {
    token_in_fees = record { fee_amount_for_receiver = 3000000; fee_amount_for_pool = 7000000 };
    token_out_amount = 6610666660;
    price_impact_value = pos (160 * 10 ^ 18);
    price_impact_amount = 0;
  };
}

pub run : swap ⦃n = u128⦄ market false (10 ^ 9) prices ≡ ok (after, report)
unfolding narrow checked_add checked_mul checked_sub checked_div diff narrow_signed signed_add
    signed_sub signed_neg signed_div checked_add_signed try_signed to_signed to_opposite_signed
    to_signed_with_sign checked_signed_sub checked_add_with_signed checked_sub_with_signed
    checked_mul_with_signed as_divisor_to_round_up_magnitude_div checked_round_up_div
    bound_magnitude checked_mul_div checked_mul_div_ceil checked_mul_div_with_signed_numerator
    fixed_mul pow_loop checked_pow_fixed pow_through_u64 pick_price_for_pnl pick_price has_zero
    collateral_token_price checked_mid mid price_is_valid prices_is_valid validate
    usd_to_market_token_amount market_token_amount_to_usd apply_exponent_factor apply_factors
    apply_factor div_to_factor div_to_factor_signed new_one_side new_both_sides is_pure_pool
    set_is_pure long_amount short_amount amount apply_delta_to_long_amount
    apply_delta_to_short_amount apply_delta_amount checked_apply_delta long_usd_value
    short_usd_value merge balance_amount adjusted_factors diff_value is_same_side_rebalance
    pool_value_of pool_delta_with_values pool_delta_with_amounts
    price_impact_for_same_side_rebalance price_impact_for_cross_over_rebalance price_impact factor
    discount_factor_of fee receiver_fee apply_fees order_fees liquidation_fee open_interest_pool
    open_interest_in_tokens_pool collateral_sum_pool max_pool_amount max_open_interest
    max_pool_value_for_deposit pnl_factor_config swap_impact_params swap_fee_params
    position_impact_distribution_params borrowing_fee_params kink_params total_supply mint burn
    pool_value_without_pnl_for_one_side open_interest open_interest_in_tokens pnl_of_side pnl
    pnl_factor_with_pool_value validate_pool_amount pnl_factor_exceeded exceeded_pnl
    validate_pnl_factor validate_max_pnl reserved_value validate_reserve expected_min_token_balance
    total_collateral_amount_for_one_token_side usage_factor cap_pnl impact_amount_with_cap
    swap_impact_amount_with_cap apply_swap_impact_value_with_cap try_new reassign_values charge_fees
    capped_diff_token_in positive_impact_amounts negative_impact_amounts cache swap_price_impact
    swap_liquidity try_execute swap xor
run = refl

swap_conserves_example :
    (holdings after false ≡ holdings market false + 10 ^ 9)
    × (holdings after true + 6610666660 ≡ holdings market true)
    × (after
        ≡ cache ⦃n = u128⦄ market after.pools.primary after.pools.swap_impact
            after.pools.claimable_fee)
    × IsTwoSided after
swap_conserves_example =
    swap_conserves ⦃n = u128⦄ market market-IsTwoSided false (10 ^ 9) prices {m' = after}
      {report = report} run
