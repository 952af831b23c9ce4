-- ===== src/Tests/Time.antt =====
-- A market in time: its clock, its borrowing factors and the position impact pool.
use gmx_solana.Prelude.{
  ℕ, ◌+◌, ◌-◌, ◌*◌, ◌/◌, ◌^◌, ◌≤◌, ◌<◌, ◌≡◌, ◌⊎◌, true, false, refl, ltb, if◌then◌else◌, arith,
}
use gmx_solana.Prelude.Int.{pos}
use gmx_solana.Result.{ok}
use gmx_solana.Tests.{u128, market, pools, pool, prices, clocks}
use gmx_solana.Market.PositionImpact.Distribution.{distribution_splits}
use gmx_solana.Market.Borrowing.Kink.{kink_factor_shape}
use gmx_solana.Market.Clock.Reading.{clock_read_twice}
use gmx_solana.Action.Accrual.{update_borrowing_records, distribute_position_impact_lem}
use gmx_solana.Action.UpdateBorrowing.{UpdateBorrowingReport, execute_one_side, update_borrowing}
use gmx_solana.Action.UpdateBorrowing.{move_clock as borrowing_clock}
use gmx_solana.Action.DistributePositionImpact.{
  DistributePositionImpactReport, apply_delta_to_position_impact_pool, distribute_position_impact,
}
use gmx_solana.Action.DistributePositionImpact.{move_clock as distribution_clock}
use gmx_solana.Num.{
  narrow, checked_add, checked_mul, checked_sub, checked_div, diff, narrow_signed, signed_add,
  signed_sub, signed_neg, signed_div, checked_add_signed, try_signed, to_signed, to_opposite_signed,
  to_signed_with_sign, checked_signed_sub, checked_add_with_signed, checked_sub_with_signed,
  checked_mul_with_signed, as_divisor_to_round_up_magnitude_div, checked_round_up_div,
  bound_magnitude, checked_mul_div, checked_mul_div_ceil, checked_mul_div_with_signed_numerator,
}
use gmx_solana.Fixed.{fixed_mul, pow_loop, checked_pow_fixed, pow_through_u64}
use gmx_solana.Price.{
  pick_price_for_pnl, pick_price, has_zero, collateral_token_price, checked_mid, mid,
  price_is_valid, prices_is_valid, validate,
}
use gmx_solana.Utils.{
  usd_to_market_token_amount, market_token_amount_to_usd, apply_exponent_factor, apply_factors,
  apply_factor, div_to_factor, div_to_factor_signed,
}
use gmx_solana.Pool.{
  new_one_side, new_both_sides, is_pure_pool, set_is_pure, long_amount, short_amount, amount,
  apply_delta_to_long_amount, apply_delta_to_short_amount, apply_delta_amount, checked_apply_delta,
  long_usd_value, short_usd_value, merge, balance_amount,
}
use gmx_solana.Delta.{
  adjusted_factors, diff_value, is_same_side_rebalance, pool_value_of, pool_delta_with_values,
  pool_delta_with_amounts, price_impact_for_same_side_rebalance,
  price_impact_for_cross_over_rebalance, price_impact,
}
use gmx_solana.Fee.Base.{
  factor, discount_factor_of, fee, receiver_fee, apply_fees, order_fees, liquidation_fee,
}
use gmx_solana.Market.State.{
  Market, PositionImpactDistributionParams, BorrowingFeeKinkModelParamsForOneSide,
  open_interest_pool, open_interest_in_tokens_pool, collateral_sum_pool, max_pool_amount,
  max_open_interest, max_pool_value_for_deposit, pnl_factor_config, swap_impact_params,
  swap_fee_params, position_impact_distribution_params, borrowing_fee_params, kink_params,
  total_supply, mint, burn,
}
use gmx_solana.Market.Base.{
  pool_value_without_pnl_for_one_side, open_interest, open_interest_in_tokens, pnl_of_side, pnl,
  pnl_factor_with_pool_value, validate_pool_amount, pnl_factor_exceeded, exceeded_pnl,
  validate_pnl_factor, validate_max_pnl, reserved_value, validate_reserve,
  expected_min_token_balance, total_collateral_amount_for_one_token_side, usage_factor, cap_pnl,
}
use gmx_solana.Market.SwapImpact.{
  impact_amount_with_cap, swap_impact_amount_with_cap, apply_swap_impact_value_with_cap,
}
use gmx_solana.Market.Clock.{saturating_sub, passed_in_seconds, just_passed_in_seconds}
use gmx_solana.Market.Borrowing.{
  exponent, factor as borrowing_factor, cumulative_borrowing_factor, kink_factor,
  kink_borrowing_factor_per_second, power_borrowing_factor_per_second, borrowing_factor_of_side,
  borrowing_factor_per_second, next_cumulative_borrowing_factor, total_pending_borrowing_fees,
}
use gmx_solana.Market.PositionImpact.{
  position_impact_pool_amount, distribution_of, pending_position_impact_pool_distribution_amount,
}
use gmx_solana.Market.Liquidity.{
  apply_delta, apply_delta_to_claimable_fee_pool, validate_pool_value_for_deposit,
  borrowing_fees_for_pool, impact_pool_value, pool_value, market_token_price,
}
use mathlib.Core.Bool.{xor}

clock_read_twice_example :
    ((just_passed_in_seconds (pos 100) (pos 40)).0 ≡ passed_in_seconds (pos 100) (pos 40))
    × (just_passed_in_seconds (pos 100) (just_passed_in_seconds (pos 100) (pos 40)).1
        ≡ (0, (just_passed_in_seconds (pos 100) (pos 40)).1))
clock_read_twice_example = clock_read_twice (pos 100) (pos 40)

abbrev distribution : PositionImpactDistributionParams
distribution = record { distribute_factor = 10 ^ 21; min_position_impact_pool_amount = 100 }

split : distribution_of ⦃n = u128⦄ distribution 500 30 ≡ ok (300, 200)
unfolding narrow checked_add checked_mul checked_sub checked_div diff narrow_signed signed_add
    signed_sub signed_neg signed_div checked_add_signed try_signed to_signed to_opposite_signed
    to_signed_with_sign checked_signed_sub checked_add_with_signed checked_sub_with_signed
    checked_mul_with_signed as_divisor_to_round_up_magnitude_div checked_round_up_div
    bound_magnitude checked_mul_div checked_mul_div_ceil checked_mul_div_with_signed_numerator
    apply_factor position_impact_pool_amount distribution_of
    pending_position_impact_pool_distribution_amount
split = refl

distribution_splits_example :
    (300 + 200 ≡ 500)
    × ((◌≡◌ {A = ℕ} 200 500) ⊎ (100 ≤ 200))
    × (◌≡◌ {A = ℕ} 300
        (if ltb (500 - 100) (30 * 10 ^ 21 / 10 ^ 20) then 500 - 100 else 30 * 10 ^ 21 / 10 ^ 20))
distribution_splits_example = distribution_splits ⦃n = u128⦄ distribution 500 30 split

abbrev kink : BorrowingFeeKinkModelParamsForOneSide
kink = record {
  optimal_usage_factor = 75 * 10 ^ 18;
  base_borrowing_factor = 10 ^ 12;
  above_optimal_usage_borrowing_factor = 3 * 10 ^ 12;
}

below_kink : kink_factor ⦃n = u128⦄ kink (50 * 10 ^ 18) ≡ ok 500000000000
unfolding narrow checked_add checked_mul checked_sub checked_div diff narrow_signed signed_add
    signed_sub signed_neg signed_div checked_add_signed try_signed to_signed to_opposite_signed
    to_signed_with_sign checked_signed_sub checked_add_with_signed checked_sub_with_signed
    checked_mul_with_signed as_divisor_to_round_up_magnitude_div checked_round_up_div
    bound_magnitude checked_mul_div checked_mul_div_ceil checked_mul_div_with_signed_numerator
    apply_factor kink_factor
below_kink = refl

above_kink : kink_factor ⦃n = u128⦄ kink (80 * 10 ^ 18) ≡ ok 1200000000000
unfolding narrow checked_add checked_mul checked_sub checked_div diff narrow_signed signed_add
    signed_sub signed_neg signed_div checked_add_signed try_signed to_signed to_opposite_signed
    to_signed_with_sign checked_signed_sub checked_add_with_signed checked_sub_with_signed
    checked_mul_with_signed as_divisor_to_round_up_magnitude_div checked_round_up_div
    bound_magnitude checked_mul_div checked_mul_div_ceil checked_mul_div_with_signed_numerator
    apply_factor kink_factor
above_kink = refl

full_kink : kink_factor ⦃n = u128⦄ kink (10 ^ 20) ≡ ok 3000000000000
unfolding narrow checked_add checked_mul checked_sub checked_div diff narrow_signed signed_add
    signed_sub signed_neg signed_div checked_add_signed try_signed to_signed to_opposite_signed
    to_signed_with_sign checked_signed_sub checked_add_with_signed checked_sub_with_signed
    checked_mul_with_signed as_divisor_to_round_up_magnitude_div checked_round_up_div
    bound_magnitude checked_mul_div checked_mul_div_ceil checked_mul_div_with_signed_numerator
    apply_factor kink_factor
full_kink = refl

kink_factor_shape_example :
    (500000000000 ≤ 1200000000000)
    × ((75 * 10 ^ 18 < 50 * 10 ^ 18)
        ⊎ (◌≡◌ {A = ℕ} 500000000000 (50 * 10 ^ 18 * 10 ^ 12 / 10 ^ 20)))
    × (◌≡◌ {A = ℕ} 3000000000000 (if ltb (10 ^ 12) (3 * 10 ^ 12) then 3 * 10 ^ 12 else 10 ^ 12))
kink_factor_shape_example =
    kink_factor_shape ⦃n = u128⦄ kink (50 * 10 ^ 18) (80 * 10 ^ 18) (omega arith) (omega arith)
      below_kink above_kink full_kink

abbrev distributed : Market
distributed = record market {
  pools = record pools { position_impact = pool 999000 0 };
  clocks = record clocks { price_impact_distribution = pos 100 };
}

abbrev distribution_report : DistributePositionImpactReport
distribution_report = record {
  duration_in_seconds = 100;
  distribution_amount = 1000;
  next_position_impact_pool_amount = 999000;
}

distributing : distribute_position_impact ⦃n = u128⦄ market ≡ ok (distributed, distribution_report)
unfolding distribute_position_impact apply_delta_to_position_impact_pool distribution_clock narrow
    checked_add checked_mul checked_sub checked_div diff narrow_signed signed_add signed_sub
    signed_neg signed_div checked_add_signed try_signed to_signed to_opposite_signed
    to_signed_with_sign checked_signed_sub checked_add_with_signed checked_sub_with_signed
    checked_mul_with_signed as_divisor_to_round_up_magnitude_div checked_round_up_div
    bound_magnitude checked_mul_div checked_mul_div_ceil checked_mul_div_with_signed_numerator
    fixed_mul pow_loop checked_pow_fixed pow_through_u64 pick_price_for_pnl pick_price has_zero
    collateral_token_price checked_mid mid price_is_valid prices_is_valid validate
    usd_to_market_token_amount market_token_amount_to_usd apply_exponent_factor apply_factors
    apply_factor div_to_factor div_to_factor_signed new_one_side new_both_sides is_pure_pool
    set_is_pure long_amount short_amount amount apply_delta_to_long_amount
    apply_delta_to_short_amount apply_delta_amount checked_apply_delta long_usd_value
    short_usd_value merge balance_amount adjusted_factors diff_value is_same_side_rebalance
    pool_value_of pool_delta_with_values pool_delta_with_amounts
    price_impact_for_same_side_rebalance price_impact_for_cross_over_rebalance price_impact factor
    discount_factor_of fee receiver_fee apply_fees order_fees liquidation_fee open_interest_pool
    open_interest_in_tokens_pool collateral_sum_pool max_pool_amount max_open_interest
    max_pool_value_for_deposit pnl_factor_config swap_impact_params swap_fee_params
    position_impact_distribution_params borrowing_fee_params kink_params total_supply mint burn
    pool_value_without_pnl_for_one_side open_interest open_interest_in_tokens pnl_of_side pnl
    pnl_factor_with_pool_value validate_pool_amount pnl_factor_exceeded exceeded_pnl
    validate_pnl_factor validate_max_pnl reserved_value validate_reserve expected_min_token_balance
    total_collateral_amount_for_one_token_side usage_factor cap_pnl impact_amount_with_cap
    swap_impact_amount_with_cap apply_swap_impact_value_with_cap saturating_sub passed_in_seconds
    just_passed_in_seconds exponent borrowing_factor cumulative_borrowing_factor kink_factor
    kink_borrowing_factor_per_second power_borrowing_factor_per_second borrowing_factor_of_side
    borrowing_factor_per_second next_cumulative_borrowing_factor total_pending_borrowing_fees
    position_impact_pool_amount distribution_of pending_position_impact_pool_distribution_amount
    apply_delta apply_delta_to_claimable_fee_pool validate_pool_value_for_deposit
    borrowing_fees_for_pool impact_pool_value pool_value market_token_price xor
distributing = refl

distribute_position_impact_lem_example :
    (position_impact_pool_amount distributed ≡ 999000)
    × (position_impact_pool_amount distributed + 1000 ≡ position_impact_pool_amount market)
distribute_position_impact_lem_example =
    distribute_position_impact_lem ⦃n = u128⦄ market refl {m' = distributed}
      {report = distribution_report} distributing

-- A market where longs have 1000 usd of open interest, in a hundred seconds.
abbrev lending : Market
lending = record market {
  config = record (market.config) {
    borrowing_fee_optimal_usage_factor_for_long = 75 * 10 ^ 18;
    borrowing_fee_base_factor_for_long = 10 ^ 12;
    borrowing_fee_above_optimal_usage_factor_for_long = 3 * 10 ^ 12;
    max_open_interest_for_long = 10 ^ 24;
  };
  pools = record pools {
    open_interest_for_long = pool (1000 * 10 ^ 20) 0;
    open_interest_in_tokens_for_long = pool (6 * 10 ^ 9) 0;
  };
}

abbrev lent : Market
lent = record lending {
  pools = record (lending.pools) { borrowing_factor = pool (10 ^ 13) 0 };
  clocks = record clocks { borrowing = pos 100 };
}

abbrev lending_report : UpdateBorrowingReport
lending_report = record {
  duration_in_seconds = 100;
  next_cumulative_borrowing_factor_for_long = 10 ^ 13;
  next_cumulative_borrowing_factor_for_short = 0;
}

borrowing : update_borrowing ⦃n = u128⦄ lending prices ≡ ok (lent, lending_report)
unfolding update_borrowing execute_one_side borrowing_clock narrow checked_add checked_mul
    checked_sub checked_div diff narrow_signed signed_add signed_sub signed_neg signed_div
    checked_add_signed try_signed to_signed to_opposite_signed to_signed_with_sign
    checked_signed_sub checked_add_with_signed checked_sub_with_signed checked_mul_with_signed
    as_divisor_to_round_up_magnitude_div checked_round_up_div bound_magnitude checked_mul_div
    checked_mul_div_ceil checked_mul_div_with_signed_numerator fixed_mul pow_loop checked_pow_fixed
    pow_through_u64 pick_price_for_pnl pick_price has_zero collateral_token_price checked_mid mid
    price_is_valid prices_is_valid validate usd_to_market_token_amount market_token_amount_to_usd
    apply_exponent_factor apply_factors apply_factor div_to_factor div_to_factor_signed new_one_side
    new_both_sides is_pure_pool set_is_pure long_amount short_amount amount
    apply_delta_to_long_amount apply_delta_to_short_amount apply_delta_amount checked_apply_delta
    long_usd_value short_usd_value merge balance_amount adjusted_factors diff_value
    is_same_side_rebalance pool_value_of pool_delta_with_values pool_delta_with_amounts
    price_impact_for_same_side_rebalance price_impact_for_cross_over_rebalance price_impact factor
    discount_factor_of fee receiver_fee apply_fees order_fees liquidation_fee open_interest_pool
    open_interest_in_tokens_pool collateral_sum_pool max_pool_amount max_open_interest
    max_pool_value_for_deposit pnl_factor_config swap_impact_params swap_fee_params
    position_impact_distribution_params borrowing_fee_params kink_params total_supply mint burn
    pool_value_without_pnl_for_one_side open_interest open_interest_in_tokens pnl_of_side pnl
    pnl_factor_with_pool_value validate_pool_amount pnl_factor_exceeded exceeded_pnl
    validate_pnl_factor validate_max_pnl reserved_value validate_reserve expected_min_token_balance
    total_collateral_amount_for_one_token_side usage_factor cap_pnl impact_amount_with_cap
    swap_impact_amount_with_cap apply_swap_impact_value_with_cap saturating_sub passed_in_seconds
    just_passed_in_seconds exponent borrowing_factor cumulative_borrowing_factor kink_factor
    kink_borrowing_factor_per_second power_borrowing_factor_per_second borrowing_factor_of_side
    borrowing_factor_per_second next_cumulative_borrowing_factor total_pending_borrowing_fees
    position_impact_pool_amount distribution_of pending_position_impact_pool_distribution_amount
    apply_delta apply_delta_to_claimable_fee_pool validate_pool_value_for_deposit
    borrowing_fees_for_pool impact_pool_value pool_value market_token_price xor
borrowing = refl

update_borrowing_records_example :
    (cumulative_borrowing_factor lent true ≡ 10 ^ 13)
    × (cumulative_borrowing_factor lent false ≡ 0)
    × (cumulative_borrowing_factor lending true ≤ cumulative_borrowing_factor lent true)
    × (cumulative_borrowing_factor lending false ≤ cumulative_borrowing_factor lent false)
update_borrowing_records_example =
    update_borrowing_records ⦃n = u128⦄ lending refl prices {m' = lent} {report = lending_report}
      borrowing
