-- ===== src/Tests/Funding.antt =====
-- Funding at work: crates/gmsol-model/src/action/update_funding_state.rs.
use gmx_solana.Prelude.{
  ◌⊎◌, ltb, ℕ, ◌+◌, ◌*◌, ◌^◌, ◌≤◌, ◌≡◌, ◌≢◌, true, false, some, List, [], ◌∷◌, refl, leb,
  if◌then◌else◌, ◌-◌, arith,
}
use gmx_solana.Prelude.Int.{pos, negsuc, abs, is_negative}
use gmx_solana.Result.{ok}
use gmx_solana.Tests.{u128, market, pools, pool, prices, clocks}
use gmx_solana.Num.{
  narrow, checked_add, checked_mul, checked_sub, checked_div, diff, narrow_signed, signed_add,
  signed_sub, signed_neg, signed_div, checked_add_signed, try_signed, to_signed, to_opposite_signed,
  to_signed_with_sign, checked_signed_sub, checked_add_with_signed, checked_sub_with_signed,
  checked_mul_with_signed, as_divisor_to_round_up_magnitude_div, checked_round_up_div,
  bound_magnitude, checked_mul_div, checked_mul_div_ceil, checked_mul_div_with_signed_numerator,
}
use gmx_solana.Fixed.{fixed_mul, pow_loop, checked_pow_fixed, pow_through_u64}
use gmx_solana.Price.{
  pick_price_for_pnl, pick_price, has_zero, collateral_token_price, checked_mid, mid,
  price_is_valid, prices_is_valid, validate,
}
use gmx_solana.Utils.{
  usd_to_market_token_amount, market_token_amount_to_usd, apply_exponent_factor, apply_factors,
  apply_factor, div_to_factor, div_to_factor_signed,
}
use gmx_solana.Pool.{
  new_one_side, new_both_sides, is_pure_pool, set_is_pure, long_amount, short_amount, amount,
  apply_delta_to_long_amount, apply_delta_to_short_amount, apply_delta_amount, checked_apply_delta,
  long_usd_value, short_usd_value, merge, balance_amount,
}
use gmx_solana.Delta.{
  adjusted_factors, diff_value, is_same_side_rebalance, pool_value_of, pool_delta_with_values,
  pool_delta_with_amounts, price_impact_for_same_side_rebalance,
  price_impact_for_cross_over_rebalance, price_impact,
}
use gmx_solana.Fee.Base.{
  factor, discount_factor_of, fee, receiver_fee, apply_fees, order_fees, liquidation_fee,
}
use gmx_solana.Market.State.{
  Market, open_interest_pool, open_interest_in_tokens_pool, collateral_sum_pool, max_pool_amount,
  max_open_interest, max_pool_value_for_deposit, pnl_factor_config, swap_impact_params,
  swap_fee_params, position_impact_distribution_params, borrowing_fee_params, kink_params,
  total_supply, mint, burn,
}
use gmx_solana.Market.Base.{
  pool_value_without_pnl_for_one_side, open_interest, open_interest_in_tokens, pnl_of_side, pnl,
  pnl_factor_with_pool_value, validate_pool_amount, pnl_factor_exceeded, exceeded_pnl,
  validate_pnl_factor, validate_max_pnl, reserved_value, validate_reserve,
  expected_min_token_balance, total_collateral_amount_for_one_token_side, usage_factor, cap_pnl,
}
use gmx_solana.Market.SwapImpact.{
  impact_amount_with_cap, swap_impact_amount_with_cap, apply_swap_impact_value_with_cap,
}
use mathlib.Core.Bool.{xor}
use gmx_solana.Market.Clock.{saturating_sub, just_passed_in_seconds}
use gmx_solana.Market.Pools.{get, set}
use gmx_solana.Fee.{FundingFeeParams, is_skew_the_same_direction_as_funding, change}
use gmx_solana.Market.Perp.{
  funding_amount_per_size_kind, claimable_funding_amount_per_size_kind, funding_fee_params,
  funding_fee_amount_per_size, claimable_funding_fee_amount_per_size, apply_delta_to_pool,
  apply_delta_to_funding_amount_per_size, apply_delta_to_claimable_funding_amount_per_size,
}
use gmx_solana.Action.UpdateFunding.{
  entry, set_entry, pack_to_funding_amount_per_size, unpack_to_funding_amount_delta,
}
use gmx_solana.Action.UpdateFunding.{
  fallback_factor, increased, decreased, changed, adaptive_factor, next_funding_factor_per_second,
}
use gmx_solana.Action.UpdateFunding.{
  UpdateFundingReport, move_clock, set_deltas_for, set_deltas, value_for_collateral,
  next_funding_amount_per_size, apply_entry, execute, update_funding,
}
use gmx_solana.Action.UpdateFunding.Payment.{total_funding, funding_payments_cover}
use gmx_solana.Action.UpdateFunding.Bounds.{next_funding_factor_bounds, decreased_lem}
use gmx_solana.Action.UpdateFunding.Record.{KeepsApart, update_funding_records}

-- Longs hold 30000 USD of open interest, 20000 of it with collateral in the long token, and shorts
-- 10000; the funding clock was last read 60 seconds ago.
abbrev skewed : Market
skewed = record market {
  config = record (market.config) {
    funding_fee_exponent = 10 ^ 20;
    funding_fee_factor = 2 * 10 ^ 12;
    funding_fee_increase_factor_per_second = 10 ^ 10;
    funding_fee_max_factor_per_second = 10 ^ 13;
    funding_fee_min_factor_per_second = 10 ^ 9;
    funding_fee_threshold_for_stable_funding = 5 * 10 ^ 18;
  };
  pools = record pools {
    open_interest_for_long = pool (20000 * 10 ^ 20) (10000 * 10 ^ 20);
    open_interest_for_short = pool (4000 * 10 ^ 20) (6000 * 10 ^ 20);
  };
  clocks = record clocks { funding = pos 40 };
}

rate :
    next_funding_factor_per_second ⦃n = u128⦄ skewed 60 (30000 * 10 ^ 20) (10000 * 10 ^ 20)
    ≡ ok (300000000000, true, pos 300000000000)
unfolding narrow checked_add checked_mul checked_sub checked_div diff narrow_signed signed_add
    signed_sub signed_neg signed_div checked_add_signed try_signed to_signed to_opposite_signed
    to_signed_with_sign checked_signed_sub checked_add_with_signed checked_sub_with_signed
    checked_mul_with_signed as_divisor_to_round_up_magnitude_div checked_round_up_div
    bound_magnitude checked_mul_div checked_mul_div_ceil checked_mul_div_with_signed_numerator
    fixed_mul pow_loop checked_pow_fixed pow_through_u64 pick_price_for_pnl pick_price has_zero
    collateral_token_price checked_mid mid price_is_valid prices_is_valid validate
    usd_to_market_token_amount market_token_amount_to_usd apply_exponent_factor apply_factors
    apply_factor div_to_factor div_to_factor_signed new_one_side new_both_sides is_pure_pool
    set_is_pure long_amount short_amount amount apply_delta_to_long_amount
    apply_delta_to_short_amount apply_delta_amount checked_apply_delta long_usd_value
    short_usd_value merge balance_amount adjusted_factors diff_value is_same_side_rebalance
    pool_value_of pool_delta_with_values pool_delta_with_amounts
    price_impact_for_same_side_rebalance price_impact_for_cross_over_rebalance price_impact factor
    discount_factor_of fee receiver_fee apply_fees order_fees liquidation_fee open_interest_pool
    open_interest_in_tokens_pool collateral_sum_pool max_pool_amount max_open_interest
    max_pool_value_for_deposit pnl_factor_config swap_impact_params swap_fee_params
    position_impact_distribution_params borrowing_fee_params kink_params total_supply mint burn
    pool_value_without_pnl_for_one_side open_interest open_interest_in_tokens pnl_of_side pnl
    pnl_factor_with_pool_value validate_pool_amount pnl_factor_exceeded exceeded_pnl
    validate_pnl_factor validate_max_pnl reserved_value validate_reserve expected_min_token_balance
    total_collateral_amount_for_one_token_side usage_factor cap_pnl impact_amount_with_cap
    swap_impact_amount_with_cap apply_swap_impact_value_with_cap xor saturating_sub
    just_passed_in_seconds get set is_skew_the_same_direction_as_funding change
    funding_amount_per_size_kind claimable_funding_amount_per_size_kind funding_fee_params
    funding_fee_amount_per_size claimable_funding_fee_amount_per_size apply_delta_to_pool
    apply_delta_to_funding_amount_per_size apply_delta_to_claimable_funding_amount_per_size entry
    set_entry pack_to_funding_amount_per_size unpack_to_funding_amount_delta fallback_factor
    increased decreased changed adaptive_factor next_funding_factor_per_second move_clock
    set_deltas_for set_deltas value_for_collateral next_funding_amount_per_size apply_entry execute
    update_funding total_funding
rate = refl

next_funding_factor_bounds_example :
    (300000000000 ≤ 10 ^ 13)
    × (abs (pos 300000000000) ≤ 10 ^ 13)
    × (((◌≡◌ {A = ℕ} (10 ^ 10) 0) × (pos 300000000000 ≡ pos 0))
        ⊎ ((◌≢◌ {A = ℕ} (10 ^ 10) 0)
            × (◌≡◌ {A = ℕ} 300000000000
                (if ltb 300000000000 (10 ^ 9) then 10 ^ 9 else 300000000000))))
next_funding_factor_bounds_example =
    next_funding_factor_bounds ⦃n = u128⦄ skewed 60 (30000 * 10 ^ 20) (10000 * 10 ^ 20) rate

abbrev falling : FundingFeeParams
falling = record {
  exponent = 10 ^ 20;
  funding_factor = 0;
  increase_factor_per_second = 10 ^ 10;
  decrease_factor_per_second = 10 ^ 8;
  max_factor_per_second = 10 ^ 13;
  min_factor_per_second = 0;
  threshold_for_stable_funding = 5 * 10 ^ 18;
  threshold_for_decrease_funding = 10 ^ 18;
}

fell : decreased ⦃n = u128⦄ falling (negsuc (10 ^ 11)) 60 ≡ ok (negsuc 94000000000)
unfolding narrow checked_add checked_mul checked_sub checked_div diff narrow_signed signed_add
    signed_sub signed_neg signed_div checked_add_signed try_signed to_signed to_opposite_signed
    to_signed_with_sign checked_signed_sub checked_add_with_signed checked_sub_with_signed
    checked_mul_with_signed as_divisor_to_round_up_magnitude_div checked_round_up_div
    bound_magnitude checked_mul_div checked_mul_div_ceil checked_mul_div_with_signed_numerator
    fixed_mul pow_loop checked_pow_fixed pow_through_u64 pick_price_for_pnl pick_price has_zero
    collateral_token_price checked_mid mid price_is_valid prices_is_valid validate
    usd_to_market_token_amount market_token_amount_to_usd apply_exponent_factor apply_factors
    apply_factor div_to_factor div_to_factor_signed new_one_side new_both_sides is_pure_pool
    set_is_pure long_amount short_amount amount apply_delta_to_long_amount
    apply_delta_to_short_amount apply_delta_amount checked_apply_delta long_usd_value
    short_usd_value merge balance_amount adjusted_factors diff_value is_same_side_rebalance
    pool_value_of pool_delta_with_values pool_delta_with_amounts
    price_impact_for_same_side_rebalance price_impact_for_cross_over_rebalance price_impact factor
    discount_factor_of fee receiver_fee apply_fees order_fees liquidation_fee open_interest_pool
    open_interest_in_tokens_pool collateral_sum_pool max_pool_amount max_open_interest
    max_pool_value_for_deposit pnl_factor_config swap_impact_params swap_fee_params
    position_impact_distribution_params borrowing_fee_params kink_params total_supply mint burn
    pool_value_without_pnl_for_one_side open_interest open_interest_in_tokens pnl_of_side pnl
    pnl_factor_with_pool_value validate_pool_amount pnl_factor_exceeded exceeded_pnl
    validate_pnl_factor validate_max_pnl reserved_value validate_reserve expected_min_token_balance
    total_collateral_amount_for_one_token_side usage_factor cap_pnl impact_amount_with_cap
    swap_impact_amount_with_cap apply_swap_impact_value_with_cap xor saturating_sub
    just_passed_in_seconds get set is_skew_the_same_direction_as_funding change
    funding_amount_per_size_kind claimable_funding_amount_per_size_kind funding_fee_params
    funding_fee_amount_per_size claimable_funding_fee_amount_per_size apply_delta_to_pool
    apply_delta_to_funding_amount_per_size apply_delta_to_claimable_funding_amount_per_size entry
    set_entry pack_to_funding_amount_per_size unpack_to_funding_amount_delta fallback_factor
    increased decreased changed adaptive_factor next_funding_factor_per_second move_clock
    set_deltas_for set_deltas value_for_collateral next_funding_amount_per_size apply_entry execute
    update_funding total_funding
fell = refl

decreased_lem_example :
    (is_negative (negsuc 94000000000) ≡ is_negative (negsuc (10 ^ 11)))
    × (abs (negsuc 94000000000)
        ≡ (if leb (10 ^ 11 + 1) (10 ^ 8 * 60) then 1 else 10 ^ 11 + 1 - 10 ^ 8 * 60))
decreased_lem_example = decreased_lem ⦃n = u128⦄ falling (negsuc (10 ^ 11)) 60 (omega arith) fell

paid_rate :
    pack_to_funding_amount_per_size ⦃n = u128⦄
      (10 ^ 10)
      (7 * 10 ^ 20)
      (20000 * 10 ^ 20)
      (150 * 10 ^ 11)
      true
    ≡ some 23333333333334
unfolding narrow checked_add checked_mul checked_sub checked_div diff narrow_signed signed_add
    signed_sub signed_neg signed_div checked_add_signed try_signed to_signed to_opposite_signed
    to_signed_with_sign checked_signed_sub checked_add_with_signed checked_sub_with_signed
    checked_mul_with_signed as_divisor_to_round_up_magnitude_div checked_round_up_div
    bound_magnitude checked_mul_div checked_mul_div_ceil checked_mul_div_with_signed_numerator
    fixed_mul pow_loop checked_pow_fixed pow_through_u64 pick_price_for_pnl pick_price has_zero
    collateral_token_price checked_mid mid price_is_valid prices_is_valid validate
    usd_to_market_token_amount market_token_amount_to_usd apply_exponent_factor apply_factors
    apply_factor div_to_factor div_to_factor_signed new_one_side new_both_sides is_pure_pool
    set_is_pure long_amount short_amount amount apply_delta_to_long_amount
    apply_delta_to_short_amount apply_delta_amount checked_apply_delta long_usd_value
    short_usd_value merge balance_amount adjusted_factors diff_value is_same_side_rebalance
    pool_value_of pool_delta_with_values pool_delta_with_amounts
    price_impact_for_same_side_rebalance price_impact_for_cross_over_rebalance price_impact factor
    discount_factor_of fee receiver_fee apply_fees order_fees liquidation_fee open_interest_pool
    open_interest_in_tokens_pool collateral_sum_pool max_pool_amount max_open_interest
    max_pool_value_for_deposit pnl_factor_config swap_impact_params swap_fee_params
    position_impact_distribution_params borrowing_fee_params kink_params total_supply mint burn
    pool_value_without_pnl_for_one_side open_interest open_interest_in_tokens pnl_of_side pnl
    pnl_factor_with_pool_value validate_pool_amount pnl_factor_exceeded exceeded_pnl
    validate_pnl_factor validate_max_pnl reserved_value validate_reserve expected_min_token_balance
    total_collateral_amount_for_one_token_side usage_factor cap_pnl impact_amount_with_cap
    swap_impact_amount_with_cap apply_swap_impact_value_with_cap xor saturating_sub
    just_passed_in_seconds get set is_skew_the_same_direction_as_funding change
    funding_amount_per_size_kind claimable_funding_amount_per_size_kind funding_fee_params
    funding_fee_amount_per_size claimable_funding_fee_amount_per_size apply_delta_to_pool
    apply_delta_to_funding_amount_per_size apply_delta_to_claimable_funding_amount_per_size entry
    set_entry pack_to_funding_amount_per_size unpack_to_funding_amount_delta fallback_factor
    increased decreased changed adaptive_factor next_funding_factor_per_second move_clock
    set_deltas_for set_deltas value_for_collateral next_funding_amount_per_size apply_entry execute
    update_funding total_funding
paid_rate = refl

received_rate :
    pack_to_funding_amount_per_size ⦃n = u128⦄
      (10 ^ 10)
      (7 * 10 ^ 20)
      (10000 * 10 ^ 20)
      (150 * 10 ^ 11)
      false
    ≡ some 46666666666666
unfolding narrow checked_add checked_mul checked_sub checked_div diff narrow_signed signed_add
    signed_sub signed_neg signed_div checked_add_signed try_signed to_signed to_opposite_signed
    to_signed_with_sign checked_signed_sub checked_add_with_signed checked_sub_with_signed
    checked_mul_with_signed as_divisor_to_round_up_magnitude_div checked_round_up_div
    bound_magnitude checked_mul_div checked_mul_div_ceil checked_mul_div_with_signed_numerator
    fixed_mul pow_loop checked_pow_fixed pow_through_u64 pick_price_for_pnl pick_price has_zero
    collateral_token_price checked_mid mid price_is_valid prices_is_valid validate
    usd_to_market_token_amount market_token_amount_to_usd apply_exponent_factor apply_factors
    apply_factor div_to_factor div_to_factor_signed new_one_side new_both_sides is_pure_pool
    set_is_pure long_amount short_amount amount apply_delta_to_long_amount
    apply_delta_to_short_amount apply_delta_amount checked_apply_delta long_usd_value
    short_usd_value merge balance_amount adjusted_factors diff_value is_same_side_rebalance
    pool_value_of pool_delta_with_values pool_delta_with_amounts
    price_impact_for_same_side_rebalance price_impact_for_cross_over_rebalance price_impact factor
    discount_factor_of fee receiver_fee apply_fees order_fees liquidation_fee open_interest_pool
    open_interest_in_tokens_pool collateral_sum_pool max_pool_amount max_open_interest
    max_pool_value_for_deposit pnl_factor_config swap_impact_params swap_fee_params
    position_impact_distribution_params borrowing_fee_params kink_params total_supply mint burn
    pool_value_without_pnl_for_one_side open_interest open_interest_in_tokens pnl_of_side pnl
    pnl_factor_with_pool_value validate_pool_amount pnl_factor_exceeded exceeded_pnl
    validate_pnl_factor validate_max_pnl reserved_value validate_reserve expected_min_token_balance
    total_collateral_amount_for_one_token_side usage_factor cap_pnl impact_amount_with_cap
    swap_impact_amount_with_cap apply_swap_impact_value_with_cap xor saturating_sub
    just_passed_in_seconds get set is_skew_the_same_direction_as_funding change
    funding_amount_per_size_kind claimable_funding_amount_per_size_kind funding_fee_params
    funding_fee_amount_per_size claimable_funding_fee_amount_per_size apply_delta_to_pool
    apply_delta_to_funding_amount_per_size apply_delta_to_claimable_funding_amount_per_size entry
    set_entry pack_to_funding_amount_per_size unpack_to_funding_amount_delta fallback_factor
    increased decreased changed adaptive_factor next_funding_factor_per_second move_clock
    set_deltas_for set_deltas value_for_collateral next_funding_amount_per_size apply_entry execute
    update_funding total_funding
received_rate = refl

abbrev payers : List ℕ
payers = 12000 * 10 ^ 20 ∷ 8000 * 10 ^ 20 ∷ []

abbrev receivers : List ℕ
receivers = 4000 * 10 ^ 20 ∷ 6000 * 10 ^ 20 ∷ []

paid : total_funding ⦃n = u128⦄ (10 ^ 10) (5 + 23333333333334) 5 payers true ≡ some 46666668
unfolding narrow checked_add checked_mul checked_sub checked_div diff narrow_signed signed_add
    signed_sub signed_neg signed_div checked_add_signed try_signed to_signed to_opposite_signed
    to_signed_with_sign checked_signed_sub checked_add_with_signed checked_sub_with_signed
    checked_mul_with_signed as_divisor_to_round_up_magnitude_div checked_round_up_div
    bound_magnitude checked_mul_div checked_mul_div_ceil checked_mul_div_with_signed_numerator
    fixed_mul pow_loop checked_pow_fixed pow_through_u64 pick_price_for_pnl pick_price has_zero
    collateral_token_price checked_mid mid price_is_valid prices_is_valid validate
    usd_to_market_token_amount market_token_amount_to_usd apply_exponent_factor apply_factors
    apply_factor div_to_factor div_to_factor_signed new_one_side new_both_sides is_pure_pool
    set_is_pure long_amount short_amount amount apply_delta_to_long_amount
    apply_delta_to_short_amount apply_delta_amount checked_apply_delta long_usd_value
    short_usd_value merge balance_amount adjusted_factors diff_value is_same_side_rebalance
    pool_value_of pool_delta_with_values pool_delta_with_amounts
    price_impact_for_same_side_rebalance price_impact_for_cross_over_rebalance price_impact factor
    discount_factor_of fee receiver_fee apply_fees order_fees liquidation_fee open_interest_pool
    open_interest_in_tokens_pool collateral_sum_pool max_pool_amount max_open_interest
    max_pool_value_for_deposit pnl_factor_config swap_impact_params swap_fee_params
    position_impact_distribution_params borrowing_fee_params kink_params total_supply mint burn
    pool_value_without_pnl_for_one_side open_interest open_interest_in_tokens pnl_of_side pnl
    pnl_factor_with_pool_value validate_pool_amount pnl_factor_exceeded exceeded_pnl
    validate_pnl_factor validate_max_pnl reserved_value validate_reserve expected_min_token_balance
    total_collateral_amount_for_one_token_side usage_factor cap_pnl impact_amount_with_cap
    swap_impact_amount_with_cap apply_swap_impact_value_with_cap xor saturating_sub
    just_passed_in_seconds get set is_skew_the_same_direction_as_funding change
    funding_amount_per_size_kind claimable_funding_amount_per_size_kind funding_fee_params
    funding_fee_amount_per_size claimable_funding_fee_amount_per_size apply_delta_to_pool
    apply_delta_to_funding_amount_per_size apply_delta_to_claimable_funding_amount_per_size entry
    set_entry pack_to_funding_amount_per_size unpack_to_funding_amount_delta fallback_factor
    increased decreased changed adaptive_factor next_funding_factor_per_second move_clock
    set_deltas_for set_deltas value_for_collateral next_funding_amount_per_size apply_entry execute
    update_funding total_funding
paid = refl

claimed : total_funding ⦃n = u128⦄ (10 ^ 10) (9 + 46666666666666) 9 receivers false ≡ some 46666665
unfolding narrow checked_add checked_mul checked_sub checked_div diff narrow_signed signed_add
    signed_sub signed_neg signed_div checked_add_signed try_signed to_signed to_opposite_signed
    to_signed_with_sign checked_signed_sub checked_add_with_signed checked_sub_with_signed
    checked_mul_with_signed as_divisor_to_round_up_magnitude_div checked_round_up_div
    bound_magnitude checked_mul_div checked_mul_div_ceil checked_mul_div_with_signed_numerator
    fixed_mul pow_loop checked_pow_fixed pow_through_u64 pick_price_for_pnl pick_price has_zero
    collateral_token_price checked_mid mid price_is_valid prices_is_valid validate
    usd_to_market_token_amount market_token_amount_to_usd apply_exponent_factor apply_factors
    apply_factor div_to_factor div_to_factor_signed new_one_side new_both_sides is_pure_pool
    set_is_pure long_amount short_amount amount apply_delta_to_long_amount
    apply_delta_to_short_amount apply_delta_amount checked_apply_delta long_usd_value
    short_usd_value merge balance_amount adjusted_factors diff_value is_same_side_rebalance
    pool_value_of pool_delta_with_values pool_delta_with_amounts
    price_impact_for_same_side_rebalance price_impact_for_cross_over_rebalance price_impact factor
    discount_factor_of fee receiver_fee apply_fees order_fees liquidation_fee open_interest_pool
    open_interest_in_tokens_pool collateral_sum_pool max_pool_amount max_open_interest
    max_pool_value_for_deposit pnl_factor_config swap_impact_params swap_fee_params
    position_impact_distribution_params borrowing_fee_params kink_params total_supply mint burn
    pool_value_without_pnl_for_one_side open_interest open_interest_in_tokens pnl_of_side pnl
    pnl_factor_with_pool_value validate_pool_amount pnl_factor_exceeded exceeded_pnl
    validate_pnl_factor validate_max_pnl reserved_value validate_reserve expected_min_token_balance
    total_collateral_amount_for_one_token_side usage_factor cap_pnl impact_amount_with_cap
    swap_impact_amount_with_cap apply_swap_impact_value_with_cap xor saturating_sub
    just_passed_in_seconds get set is_skew_the_same_direction_as_funding change
    funding_amount_per_size_kind claimable_funding_amount_per_size_kind funding_fee_params
    funding_fee_amount_per_size claimable_funding_fee_amount_per_size apply_delta_to_pool
    apply_delta_to_funding_amount_per_size apply_delta_to_claimable_funding_amount_per_size entry
    set_entry pack_to_funding_amount_per_size unpack_to_funding_amount_delta fallback_factor
    increased decreased changed adaptive_factor next_funding_factor_per_second move_clock
    set_deltas_for set_deltas value_for_collateral next_funding_amount_per_size apply_entry execute
    update_funding total_funding
claimed = refl

funding_payments_cover_example : 46666665 ≤ 46666668
funding_payments_cover_example =
    funding_payments_cover ⦃n = u128⦄ (10 ^ 10) (7 * 10 ^ 20) (20000 * 10 ^ 20) (10000 * 10 ^ 20)
      (150 * 10 ^ 11) 5 9 payers receivers (omega arith) (omega arith) (omega arith) (omega arith)
      (omega arith) paid_rate received_rate paid claimed

skewed-KeepsApart : KeepsApart skewed
skewed-KeepsApart = record {
  paid_long = refl;
  paid_short = refl;
  claimable_long = refl;
  claimable_short = refl;
}

abbrev updated : Market
updated = record skewed {
  pools = record (skewed.pools) {
    funding_amount_per_size_for_long = pool 12000000000 1800000000;
    claimable_funding_amount_per_size_for_short = pool 24000000000 1800000000;
  };
  clocks = record clocks { funding = pos 100 };
  funding_factor_per_second = pos 300000000000;
}

abbrev report : UpdateFundingReport
report = record {
  duration_in_seconds = 60;
  next_funding_factor_per_second = pos 300000000000;
  delta_funding_amount_per_size = record {
    long_in_long = 12000000000;
    short_in_long = 0;
    long_in_short = 1800000000;
    short_in_short = 0;
  };
  delta_claimable_funding_amount_per_size = record {
    long_in_long = 0;
    short_in_long = 24000000000;
    long_in_short = 0;
    short_in_short = 1800000000;
  };
}

update : update_funding ⦃n = u128⦄ skewed prices ≡ ok (updated, report)
unfolding narrow checked_add checked_mul checked_sub checked_div diff narrow_signed signed_add
    signed_sub signed_neg signed_div checked_add_signed try_signed to_signed to_opposite_signed
    to_signed_with_sign checked_signed_sub checked_add_with_signed checked_sub_with_signed
    checked_mul_with_signed as_divisor_to_round_up_magnitude_div checked_round_up_div
    bound_magnitude checked_mul_div checked_mul_div_ceil checked_mul_div_with_signed_numerator
    fixed_mul pow_loop checked_pow_fixed pow_through_u64 pick_price_for_pnl pick_price has_zero
    collateral_token_price checked_mid mid price_is_valid prices_is_valid validate
    usd_to_market_token_amount market_token_amount_to_usd apply_exponent_factor apply_factors
    apply_factor div_to_factor div_to_factor_signed new_one_side new_both_sides is_pure_pool
    set_is_pure long_amount short_amount amount apply_delta_to_long_amount
    apply_delta_to_short_amount apply_delta_amount checked_apply_delta long_usd_value
    short_usd_value merge balance_amount adjusted_factors diff_value is_same_side_rebalance
    pool_value_of pool_delta_with_values pool_delta_with_amounts
    price_impact_for_same_side_rebalance price_impact_for_cross_over_rebalance price_impact factor
    discount_factor_of fee receiver_fee apply_fees order_fees liquidation_fee open_interest_pool
    open_interest_in_tokens_pool collateral_sum_pool max_pool_amount max_open_interest
    max_pool_value_for_deposit pnl_factor_config swap_impact_params swap_fee_params
    position_impact_distribution_params borrowing_fee_params kink_params total_supply mint burn
    pool_value_without_pnl_for_one_side open_interest open_interest_in_tokens pnl_of_side pnl
    pnl_factor_with_pool_value validate_pool_amount pnl_factor_exceeded exceeded_pnl
    validate_pnl_factor validate_max_pnl reserved_value validate_reserve expected_min_token_balance
    total_collateral_amount_for_one_token_side usage_factor cap_pnl impact_amount_with_cap
    swap_impact_amount_with_cap apply_swap_impact_value_with_cap xor saturating_sub
    just_passed_in_seconds get set is_skew_the_same_direction_as_funding change
    funding_amount_per_size_kind claimable_funding_amount_per_size_kind funding_fee_params
    funding_fee_amount_per_size claimable_funding_fee_amount_per_size apply_delta_to_pool
    apply_delta_to_funding_amount_per_size apply_delta_to_claimable_funding_amount_per_size entry
    set_entry pack_to_funding_amount_per_size unpack_to_funding_amount_delta fallback_factor
    increased decreased changed adaptive_factor next_funding_factor_per_second move_clock
    set_deltas_for set_deltas value_for_collateral next_funding_amount_per_size apply_entry execute
    update_funding total_funding
update = refl

update_funding_records_example :
    (funding_fee_amount_per_size updated true false
      ≡ funding_fee_amount_per_size skewed true false
        + entry report.delta_funding_amount_per_size true false)
    × (claimable_funding_fee_amount_per_size updated true false
        ≡ claimable_funding_fee_amount_per_size skewed true false
          + entry report.delta_claimable_funding_amount_per_size true false)
    × (pos 300000000000 ≡ pos 300000000000)
update_funding_records_example =
    update_funding_records ⦃n = u128⦄ skewed prices true false skewed-KeepsApart update
