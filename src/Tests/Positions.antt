-- ===== src/Tests/Positions.antt =====
-- Positions at work: crates/gmsol-model/src/position.rs and action/increase_position.rs.
use gmx_solana.Prelude.{◌+◌, ◌*◌, ◌^◌, ◌≡◌, true, false, some, none, refl}
use gmx_solana.Prelude.Int.{pos, negsuc}
use gmx_solana.Result.{ok, LiquidatableReason}
use gmx_solana.Tests.{u128, market, pools, pool, price, prices}
use gmx_solana.Market.State.{Market}
use gmx_solana.Position.{Position}
use gmx_solana.Action.Holdings.{holdings}
use gmx_solana.Action.Increase.{IncreasePositionReport}
use gmx_solana.Action.Increase.Effect.{KeepsApart}
use gmx_solana.Action.Increase.Bookkeeping.{increase_balances}
use gmx_solana.Action.Increase.Health.{IsHealthy, increase-IsHealthy}
use mathlib.Core.Bool.{xor}
use gmx_solana.Num.{
  try_signed, to_signed, to_opposite_signed, to_signed_with_sign, checked_signed_sub,
  checked_add_with_signed, checked_sub_with_signed, checked_mul_with_signed,
  as_divisor_to_round_up_magnitude_div, checked_round_up_div, bound_magnitude, checked_mul_div,
  checked_mul_div_ceil, checked_mul_div_with_signed_numerator, narrow_signed, signed_add,
  signed_sub, signed_neg, signed_div, checked_add_signed, narrow, checked_add, checked_mul,
  checked_sub, checked_div, diff,
}
use gmx_solana.Fixed.{fixed_mul, pow_loop, checked_pow_fixed, pow_through_u64}
use gmx_solana.Price.{
  pick_price_for_pnl, pick_price, has_zero, collateral_token_price, checked_mid, mid,
  price_is_valid, prices_is_valid, validate,
}
use gmx_solana.Utils.{
  usd_to_market_token_amount, market_token_amount_to_usd, apply_exponent_factor, apply_factors,
  apply_factor, div_to_factor, div_to_factor_signed,
}
use gmx_solana.Pool.{
  new_one_side, new_both_sides, is_pure_pool, set_is_pure, long_amount, short_amount, amount,
  apply_delta_to_long_amount, apply_delta_to_short_amount, apply_delta_amount, checked_apply_delta,
  long_usd_value, short_usd_value, merge, balance_amount,
}
use gmx_solana.Delta.{
  adjusted_factors, diff_value, is_same_side_rebalance, pool_value_of, pool_delta_with_values,
  pool_delta_with_amounts, price_impact_for_same_side_rebalance,
  price_impact_for_cross_over_rebalance, price_impact,
}
use gmx_solana.Fee.Base.{
  factor, discount_factor_of, fee, receiver_fee, apply_fees, order_fees, liquidation_fee,
}
use gmx_solana.Fee.Position.{
  clear_fees_excluding_funding, set_funding_fees, set_liquidation_fees, borrowing_fee_for_pool,
  liquidation_fee_for_pool, base_position_fees, for_receiver, for_pool,
  total_cost_excluding_funding, total_cost_amount, set_borrowing_fees,
}
use gmx_solana.Market.Config.{init}
use gmx_solana.Market.Pools.{init as pools_init, get, set}
use gmx_solana.Market.State.{
  open_interest_pool, open_interest_in_tokens_pool, collateral_sum_pool, max_pool_amount,
  max_open_interest, max_pool_value_for_deposit, pnl_factor_config, swap_impact_params,
  position_impact_params, swap_fee_params, position_impact_distribution_params,
  borrowing_fee_params, kink_params, total_supply, mint, burn,
}
use gmx_solana.Market.Base.{
  pool_value_without_pnl_for_one_side, open_interest, open_interest_in_tokens, pnl_of_side, pnl,
  pnl_factor_with_pool_value, validate_pool_amount, pnl_factor_exceeded, exceeded_pnl,
  validate_pnl_factor, validate_max_pnl, reserved_value, validate_reserve,
  expected_min_token_balance, total_collateral_amount_for_one_token_side, usage_factor, cap_pnl,
}
use gmx_solana.Market.Clock.{saturating_sub, passed_in_seconds, just_passed_in_seconds}
use gmx_solana.Market.Borrowing.{
  exponent, factor as borrowing_factor, cumulative_borrowing_factor, kink_factor,
  kink_borrowing_factor_per_second, power_borrowing_factor_per_second, borrowing_factor_of_side,
  borrowing_factor_per_second, next_cumulative_borrowing_factor, total_pending_borrowing_fees,
}
use gmx_solana.Market.PositionImpact.{
  position_impact_pool_amount, distribution_of, pending_position_impact_pool_distribution_amount,
}
use gmx_solana.Market.Liquidity.{
  apply_delta, apply_delta_to_claimable_fee_pool, validate_pool_value_for_deposit,
  borrowing_fees_for_pool, impact_pool_value, pool_value, market_token_price,
}
use gmx_solana.Market.Perp.{
  funding_amount_per_size_kind, claimable_funding_amount_per_size_kind, funding_fee_params,
  position_params, order_fee_params, liquidation_fee_params,
  min_collateral_factor_for_open_interest_multiplier, funding_fee_amount_per_size,
  claimable_funding_fee_amount_per_size, max_negative_impact_factor, cap_at, apply_delta_to_pool,
  apply_delta_to_funding_amount_per_size, apply_delta_to_claimable_funding_amount_per_size,
  validate_open_interest_reserve, min_collateral_factor_for_open_interest,
  cap_positive_position_price_impact, cap_negative_position_price_impact,
}
use gmx_solana.Action.UpdateFunding.{
  empty, move_clock, set_deltas_for, set_deltas, value_for_collateral, next_funding_amount_per_size,
  apply_entry, execute, update_funding, entry, set_entry, pack_to_funding_amount_per_size,
  unpack_to_funding_amount_delta, fallback_factor, increased, decreased, changed, adaptive_factor,
  next_funding_factor_per_second,
}
use gmx_solana.Action.DistributePositionImpact.{
  move_clock as distributepositionimpact_move_clock, apply_delta_to_position_impact_pool,
  distribute_position_impact,
}
use gmx_solana.Position.{claimable_per_size, is_empty, on_increased}
use gmx_solana.Position.{
  collateral_price, collateral_value, uncapped_total_pnl, cap_total_pnl, size_delta_in_tokens,
  pnl_value, position_price_impact, capped_positive_position_price_impact,
  capped_position_price_impact, pending_borrowing_fee_value, pending_funding_fees, liquidation_fees,
  position_fees,
}
use gmx_solana.Position.{
  is_sufficient, is_below, below_zero, liquidatable_reason, sufficiency, err_if_liquidatable,
  check_collateral, will_collateral_be_sufficient, impact_for_liquidation,
  remaining_collateral_value, check_liquidatable, validate as collateral_validate,
}
use gmx_solana.Position.{
  open_interest_kind, open_interest_in_tokens_kind, is_exceeded, update_open_interest,
  update_total_borrowing,
}
use gmx_solana.Action.Increase.{
  settle_funding, initialize_position_if_empty, is_acceptable, get_execution_price_for_increase,
  try_new, impact_amount, base_size_delta_in_tokens, get_execution_params, collateral_sum_kind,
  process_collateral, validate_increase, increase_size, execute_initialized,
  execute as increase_execute, increase,
}

-- Longs and shorts in a market with fees for orders, borrowing and funding, and an impact of orders
-- on the price.
abbrev perpetual : Market
perpetual = record market {
  config = record (market.config) {
    position_impact_exponent = 2 * 10 ^ 20;
    position_impact_positive_factor = 5 * 10 ^ 12;
    position_impact_negative_factor = 10 ^ 13;
    max_positive_position_impact_factor = 5 * 10 ^ 17;
    max_negative_position_impact_factor = 5 * 10 ^ 17;
    order_fee_receiver_factor = 30 * 10 ^ 18;
    order_fee_factor_for_positive_impact = 5 * 10 ^ 16;
    order_fee_factor_for_negative_impact = 7 * 10 ^ 16;
    borrowing_fee_receiver_factor = 30 * 10 ^ 18;
    min_position_size_usd = 10 ^ 20;
    min_collateral_value = 10 ^ 20;
    min_collateral_factor = 10 ^ 18;
    max_open_interest_for_long = 10 ^ 26;
    max_open_interest_for_short = 10 ^ 26;
    max_pnl_factor_for_long_trader = 10 ^ 20;
    max_pnl_factor_for_short_trader = 10 ^ 20;
  };
  pools = record pools {
    open_interest_for_long = pool (3000 * 10 ^ 20) 0;
    open_interest_in_tokens_for_long = pool (20 * 10 ^ 9) 0;
    collateral_sum_for_long = pool (5 * 10 ^ 9) 0;
    borrowing_factor = pool (10 ^ 17) 0;
    funding_amount_per_size_for_long = pool (3 * 10 ^ 13) 0;
  };
}

-- A long position of 3000 USD with five of the long tokens, worth 750 USD, as collateral.
abbrev position : Position
position = record {
  market = perpetual;
  is_long = true;
  is_collateral_token_long = true;
  collateral_amount = 5 * 10 ^ 9;
  size_in_usd = 3000 * 10 ^ 20;
  size_in_tokens = 20 * 10 ^ 9;
  borrowing_factor = 0;
  funding_fee_amount_per_size = 0;
  claimable_for_long = 0;
  claimable_for_short = 0;
  trade_id = 7;
  updated_at_slot = 1000;
  increased_at = pos 10;
  trade_count = 41;
  slot = 2000;
  order_fee_discount = none;
  on_validate = ok tt;
}

position-KeepsApart : KeepsApart true perpetual
unfolding collateral_sum_pool open_interest_pool
position-KeepsApart = record {
  primary = refl;
  claimable_fee = refl;
  collateral_sum = refl;
  open_interest = refl;
}

abbrev position_after : Position
position_after = record position {
  market = record perpetual {
    pools = record (perpetual.pools) {
      primary = pool 100018900000 (10000 * 10 ^ 6);
      claimable_fee = pool 8100000 0;
      open_interest_for_long = pool (4500 * 10 ^ 20) 0;
      open_interest_in_tokens_for_long = pool 29992500000 0;
      position_impact = pool 8500000 0;
      collateral_sum_for_long = pool 6964000000 0;
      total_borrowing = pool 450000000000000000000 0;
    };
  };
  collateral_amount = 6964000000;
  size_in_usd = 4500 * 10 ^ 20;
  size_in_tokens = 29992500000;
  borrowing_factor = 10 ^ 17;
  funding_fee_amount_per_size = 3 * 10 ^ 13;
  trade_id = 42;
  updated_at_slot = 2000;
  increased_at = pos 100;
  trade_count = 42;
}

abbrev report : IncreasePositionReport
report = record {
  params = record {
    collateral_increment_amount = 2 * 10 ^ 9;
    size_delta_usd = 1500 * 10 ^ 20;
    acceptable_price = some (160 * 10 ^ 11);
    prices = prices;
  };
  execution = record {
    price_impact_value = negsuc 112499999999999999999;
    price_impact_amount = negsuc 7499999;
    size_delta_in_tokens = 9992500000;
    execution_price = 15011258443832;
  };
  collateral_delta_amount = pos 1964000000;
  fees = record {
    paid_order_fee_value = 105 * 10 ^ 18;
    order = record {
      base = record { fee_amount_for_receiver = 2100000; fee_amount_for_pool = 4900000 };
      fee_value = 105 * 10 ^ 18;
    };
    borrowing = record { fee_amount = 20000000; fee_amount_for_receiver = 6000000 };
    funding = record {
      amount = 9000000;
      claimable_long_token_amount = 0;
      claimable_short_token_amount = 0;
    };
    liquidation = none;
  };
}

run :
    increase ⦃n = u128⦄ position prices (2 * 10 ^ 9) (1500 * 10 ^ 20) (some (160 * 10 ^ 11))
    ≡ ok (position_after, report)
unfolding xor try_signed to_signed to_opposite_signed to_signed_with_sign checked_signed_sub
    checked_add_with_signed checked_sub_with_signed checked_mul_with_signed
    as_divisor_to_round_up_magnitude_div checked_round_up_div bound_magnitude checked_mul_div
    checked_mul_div_ceil checked_mul_div_with_signed_numerator narrow_signed signed_add signed_sub
    signed_neg signed_div checked_add_signed narrow checked_add checked_mul checked_sub checked_div
    diff fixed_mul pow_loop checked_pow_fixed pow_through_u64 pick_price_for_pnl pick_price has_zero
    collateral_token_price checked_mid mid price_is_valid prices_is_valid validate
    usd_to_market_token_amount market_token_amount_to_usd apply_exponent_factor apply_factors
    apply_factor div_to_factor div_to_factor_signed new_one_side new_both_sides is_pure_pool
    set_is_pure long_amount short_amount amount apply_delta_to_long_amount
    apply_delta_to_short_amount apply_delta_amount checked_apply_delta long_usd_value
    short_usd_value merge balance_amount adjusted_factors diff_value is_same_side_rebalance
    pool_value_of pool_delta_with_values pool_delta_with_amounts
    price_impact_for_same_side_rebalance price_impact_for_cross_over_rebalance price_impact factor
    discount_factor_of fee receiver_fee apply_fees order_fees liquidation_fee
    clear_fees_excluding_funding set_funding_fees set_liquidation_fees borrowing_fee_for_pool
    liquidation_fee_for_pool base_position_fees for_receiver for_pool total_cost_excluding_funding
    total_cost_amount set_borrowing_fees init pools_init get set open_interest_pool
    open_interest_in_tokens_pool collateral_sum_pool max_pool_amount max_open_interest
    max_pool_value_for_deposit pnl_factor_config swap_impact_params position_impact_params
    swap_fee_params position_impact_distribution_params borrowing_fee_params kink_params
    total_supply mint burn pool_value_without_pnl_for_one_side open_interest open_interest_in_tokens
    pnl_of_side pnl pnl_factor_with_pool_value validate_pool_amount pnl_factor_exceeded exceeded_pnl
    validate_pnl_factor validate_max_pnl reserved_value validate_reserve expected_min_token_balance
    total_collateral_amount_for_one_token_side usage_factor cap_pnl saturating_sub passed_in_seconds
    just_passed_in_seconds exponent borrowing_factor cumulative_borrowing_factor kink_factor
    kink_borrowing_factor_per_second power_borrowing_factor_per_second borrowing_factor_of_side
    borrowing_factor_per_second next_cumulative_borrowing_factor total_pending_borrowing_fees
    position_impact_pool_amount distribution_of pending_position_impact_pool_distribution_amount
    apply_delta apply_delta_to_claimable_fee_pool validate_pool_value_for_deposit
    borrowing_fees_for_pool impact_pool_value pool_value market_token_price
    funding_amount_per_size_kind claimable_funding_amount_per_size_kind funding_fee_params
    position_params order_fee_params liquidation_fee_params
    min_collateral_factor_for_open_interest_multiplier funding_fee_amount_per_size
    claimable_funding_fee_amount_per_size max_negative_impact_factor cap_at apply_delta_to_pool
    apply_delta_to_funding_amount_per_size apply_delta_to_claimable_funding_amount_per_size
    validate_open_interest_reserve min_collateral_factor_for_open_interest
    cap_positive_position_price_impact cap_negative_position_price_impact empty move_clock
    set_deltas_for set_deltas value_for_collateral next_funding_amount_per_size apply_entry execute
    update_funding entry set_entry pack_to_funding_amount_per_size unpack_to_funding_amount_delta
    fallback_factor increased decreased changed adaptive_factor next_funding_factor_per_second
    distributepositionimpact_move_clock apply_delta_to_position_impact_pool
    distribute_position_impact claimable_per_size is_empty on_increased collateral_price
    collateral_value uncapped_total_pnl cap_total_pnl size_delta_in_tokens pnl_value
    position_price_impact capped_positive_position_price_impact capped_position_price_impact
    pending_borrowing_fee_value pending_funding_fees liquidation_fees position_fees is_sufficient
    is_below below_zero liquidatable_reason sufficiency err_if_liquidatable check_collateral
    will_collateral_be_sufficient impact_for_liquidation remaining_collateral_value
    check_liquidatable collateral_validate open_interest_kind open_interest_in_tokens_kind
    is_exceeded update_open_interest update_total_borrowing settle_funding
    initialize_position_if_empty is_acceptable get_execution_price_for_increase try_new
    impact_amount base_size_delta_in_tokens get_execution_params collateral_sum_kind
    process_collateral validate_increase increase_size execute_initialized increase_execute increase
run = refl

-- The long pool, the claimable fees and the collateral hold two more long tokens, less the funding fee.
increase_balances_example :
    (holdings position_after.market true
        + amount (collateral_sum_pool position_after.market true) true
        + 9000000
      ≡ holdings perpetual true + amount (collateral_sum_pool perpetual true) true + 2 * 10 ^ 9)
    × (holdings position_after.market false ≡ holdings perpetual false)
    × (amount (collateral_sum_pool position_after.market true) true + 5 * 10 ^ 9
        ≡ amount (collateral_sum_pool perpetual true) true + 6964000000)
    × (amount (open_interest_pool position_after.market true) true
        ≡ amount (open_interest_pool perpetual true) true + 1500 * 10 ^ 20)
    × (4500 * 10 ^ 20 ≡ 3000 * 10 ^ 20 + 1500 * 10 ^ 20)
increase_balances_example =
    increase_balances ⦃n = u128⦄ position prices (2 * 10 ^ 9) (1500 * 10 ^ 20)
      (some (160 * 10 ^ 11)) position-KeepsApart run

-- At a price of 121 the loss leaves less than a hundredth of the size as collateral.
liquidation :
    check_liquidatable ⦃n = u128⦄ position
      (record prices {
        index_token_price = price (121 * 10 ^ 11);
        long_token_price = price (121 * 10 ^ 11);
      })
      true
    ≡ ok (some LiquidatableReason.min_collateral_for_leverage)
unfolding xor try_signed to_signed to_opposite_signed to_signed_with_sign checked_signed_sub
    checked_add_with_signed checked_sub_with_signed checked_mul_with_signed
    as_divisor_to_round_up_magnitude_div checked_round_up_div bound_magnitude checked_mul_div
    checked_mul_div_ceil checked_mul_div_with_signed_numerator narrow_signed signed_add signed_sub
    signed_neg signed_div checked_add_signed narrow checked_add checked_mul checked_sub checked_div
    diff fixed_mul pow_loop checked_pow_fixed pow_through_u64 pick_price_for_pnl pick_price has_zero
    collateral_token_price checked_mid mid price_is_valid prices_is_valid validate
    usd_to_market_token_amount market_token_amount_to_usd apply_exponent_factor apply_factors
    apply_factor div_to_factor div_to_factor_signed new_one_side new_both_sides is_pure_pool
    set_is_pure long_amount short_amount amount apply_delta_to_long_amount
    apply_delta_to_short_amount apply_delta_amount checked_apply_delta long_usd_value
    short_usd_value merge balance_amount adjusted_factors diff_value is_same_side_rebalance
    pool_value_of pool_delta_with_values pool_delta_with_amounts
    price_impact_for_same_side_rebalance price_impact_for_cross_over_rebalance price_impact factor
    discount_factor_of fee receiver_fee apply_fees order_fees liquidation_fee
    clear_fees_excluding_funding set_funding_fees set_liquidation_fees borrowing_fee_for_pool
    liquidation_fee_for_pool base_position_fees for_receiver for_pool total_cost_excluding_funding
    total_cost_amount set_borrowing_fees init pools_init get set open_interest_pool
    open_interest_in_tokens_pool collateral_sum_pool max_pool_amount max_open_interest
    max_pool_value_for_deposit pnl_factor_config swap_impact_params position_impact_params
    swap_fee_params position_impact_distribution_params borrowing_fee_params kink_params
    total_supply mint burn pool_value_without_pnl_for_one_side open_interest open_interest_in_tokens
    pnl_of_side pnl pnl_factor_with_pool_value validate_pool_amount pnl_factor_exceeded exceeded_pnl
    validate_pnl_factor validate_max_pnl reserved_value validate_reserve expected_min_token_balance
    total_collateral_amount_for_one_token_side usage_factor cap_pnl saturating_sub passed_in_seconds
    just_passed_in_seconds exponent borrowing_factor cumulative_borrowing_factor kink_factor
    kink_borrowing_factor_per_second power_borrowing_factor_per_second borrowing_factor_of_side
    borrowing_factor_per_second next_cumulative_borrowing_factor total_pending_borrowing_fees
    position_impact_pool_amount distribution_of pending_position_impact_pool_distribution_amount
    apply_delta apply_delta_to_claimable_fee_pool validate_pool_value_for_deposit
    borrowing_fees_for_pool impact_pool_value pool_value market_token_price
    funding_amount_per_size_kind claimable_funding_amount_per_size_kind funding_fee_params
    position_params order_fee_params liquidation_fee_params
    min_collateral_factor_for_open_interest_multiplier funding_fee_amount_per_size
    claimable_funding_fee_amount_per_size max_negative_impact_factor cap_at apply_delta_to_pool
    apply_delta_to_funding_amount_per_size apply_delta_to_claimable_funding_amount_per_size
    validate_open_interest_reserve min_collateral_factor_for_open_interest
    cap_positive_position_price_impact cap_negative_position_price_impact empty move_clock
    set_deltas_for set_deltas value_for_collateral next_funding_amount_per_size apply_entry execute
    update_funding entry set_entry pack_to_funding_amount_per_size unpack_to_funding_amount_delta
    fallback_factor increased decreased changed adaptive_factor next_funding_factor_per_second
    distributepositionimpact_move_clock apply_delta_to_position_impact_pool
    distribute_position_impact claimable_per_size is_empty on_increased collateral_price
    collateral_value uncapped_total_pnl cap_total_pnl size_delta_in_tokens pnl_value
    position_price_impact capped_positive_position_price_impact capped_position_price_impact
    pending_borrowing_fee_value pending_funding_fees liquidation_fees position_fees is_sufficient
    is_below below_zero liquidatable_reason sufficiency err_if_liquidatable check_collateral
    will_collateral_be_sufficient impact_for_liquidation remaining_collateral_value
    check_liquidatable collateral_validate open_interest_kind open_interest_in_tokens_kind
    is_exceeded update_open_interest update_total_borrowing settle_funding
    initialize_position_if_empty is_acceptable get_execution_price_for_increase try_new
    impact_amount base_size_delta_in_tokens get_execution_params collateral_sum_kind
    process_collateral validate_increase increase_size execute_initialized increase_execute increase
liquidation = refl

no_liquidation : check_liquidatable ⦃n = u128⦄ position prices true ≡ ok none
unfolding xor try_signed to_signed to_opposite_signed to_signed_with_sign checked_signed_sub
    checked_add_with_signed checked_sub_with_signed checked_mul_with_signed
    as_divisor_to_round_up_magnitude_div checked_round_up_div bound_magnitude checked_mul_div
    checked_mul_div_ceil checked_mul_div_with_signed_numerator narrow_signed signed_add signed_sub
    signed_neg signed_div checked_add_signed narrow checked_add checked_mul checked_sub checked_div
    diff fixed_mul pow_loop checked_pow_fixed pow_through_u64 pick_price_for_pnl pick_price has_zero
    collateral_token_price checked_mid mid price_is_valid prices_is_valid validate
    usd_to_market_token_amount market_token_amount_to_usd apply_exponent_factor apply_factors
    apply_factor div_to_factor div_to_factor_signed new_one_side new_both_sides is_pure_pool
    set_is_pure long_amount short_amount amount apply_delta_to_long_amount
    apply_delta_to_short_amount apply_delta_amount checked_apply_delta long_usd_value
    short_usd_value merge balance_amount adjusted_factors diff_value is_same_side_rebalance
    pool_value_of pool_delta_with_values pool_delta_with_amounts
    price_impact_for_same_side_rebalance price_impact_for_cross_over_rebalance price_impact factor
    discount_factor_of fee receiver_fee apply_fees order_fees liquidation_fee
    clear_fees_excluding_funding set_funding_fees set_liquidation_fees borrowing_fee_for_pool
    liquidation_fee_for_pool base_position_fees for_receiver for_pool total_cost_excluding_funding
    total_cost_amount set_borrowing_fees init pools_init get set open_interest_pool
    open_interest_in_tokens_pool collateral_sum_pool max_pool_amount max_open_interest
    max_pool_value_for_deposit pnl_factor_config swap_impact_params position_impact_params
    swap_fee_params position_impact_distribution_params borrowing_fee_params kink_params
    total_supply mint burn pool_value_without_pnl_for_one_side open_interest open_interest_in_tokens
    pnl_of_side pnl pnl_factor_with_pool_value validate_pool_amount pnl_factor_exceeded exceeded_pnl
    validate_pnl_factor validate_max_pnl reserved_value validate_reserve expected_min_token_balance
    total_collateral_amount_for_one_token_side usage_factor cap_pnl saturating_sub passed_in_seconds
    just_passed_in_seconds exponent borrowing_factor cumulative_borrowing_factor kink_factor
    kink_borrowing_factor_per_second power_borrowing_factor_per_second borrowing_factor_of_side
    borrowing_factor_per_second next_cumulative_borrowing_factor total_pending_borrowing_fees
    position_impact_pool_amount distribution_of pending_position_impact_pool_distribution_amount
    apply_delta apply_delta_to_claimable_fee_pool validate_pool_value_for_deposit
    borrowing_fees_for_pool impact_pool_value pool_value market_token_price
    funding_amount_per_size_kind claimable_funding_amount_per_size_kind funding_fee_params
    position_params order_fee_params liquidation_fee_params
    min_collateral_factor_for_open_interest_multiplier funding_fee_amount_per_size
    claimable_funding_fee_amount_per_size max_negative_impact_factor cap_at apply_delta_to_pool
    apply_delta_to_funding_amount_per_size apply_delta_to_claimable_funding_amount_per_size
    validate_open_interest_reserve min_collateral_factor_for_open_interest
    cap_positive_position_price_impact cap_negative_position_price_impact empty move_clock
    set_deltas_for set_deltas value_for_collateral next_funding_amount_per_size apply_entry execute
    update_funding entry set_entry pack_to_funding_amount_per_size unpack_to_funding_amount_delta
    fallback_factor increased decreased changed adaptive_factor next_funding_factor_per_second
    distributepositionimpact_move_clock apply_delta_to_position_impact_pool
    distribute_position_impact claimable_per_size is_empty on_increased collateral_price
    collateral_value uncapped_total_pnl cap_total_pnl size_delta_in_tokens pnl_value
    position_price_impact capped_positive_position_price_impact capped_position_price_impact
    pending_borrowing_fee_value pending_funding_fees liquidation_fees position_fees is_sufficient
    is_below below_zero liquidatable_reason sufficiency err_if_liquidatable check_collateral
    will_collateral_be_sufficient impact_for_liquidation remaining_collateral_value
    check_liquidatable collateral_validate open_interest_kind open_interest_in_tokens_kind
    is_exceeded update_open_interest update_total_borrowing settle_funding
    initialize_position_if_empty is_acceptable get_execution_price_for_increase try_new
    impact_amount base_size_delta_in_tokens get_execution_params collateral_sum_kind
    process_collateral validate_increase increase_size execute_initialized increase_execute increase
no_liquidation = refl

increase-IsHealthy_example : IsHealthy ⦃n = u128⦄ position_after prices
increase-IsHealthy_example =
    increase-IsHealthy ⦃n = u128⦄ position prices (2 * 10 ^ 9) (1500 * 10 ^ 20)
      (some (160 * 10 ^ 11)) run
