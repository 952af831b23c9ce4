-- ===== src/Tests/Impact.antt =====
-- The price impact of a change and of the change back, at concrete numbers.
use mathlib.Core.Bool.{xor}
use gmx_solana.Prelude.{ℕ, ◌-◌, ◌*◌, ◌^◌, ◌≡◌, refl}
use gmx_solana.Prelude.Int.{pos, negsuc, ◌+ℤ◌, ◌≤ℤ◌}
use gmx_solana.Result.{ok}
use gmx_solana.Tests.{u128}
use gmx_solana.Delta.Impact.{reverse, cross_over_round_trip, price_impact_round_trip}
use gmx_solana.Num.{
  narrow, checked_add, checked_mul, checked_sub, checked_div, diff, narrow_signed, signed_add,
  signed_sub, signed_neg, signed_div, checked_add_signed, try_signed, to_signed, to_opposite_signed,
  to_signed_with_sign, checked_signed_sub, checked_add_with_signed, checked_sub_with_signed,
  checked_mul_with_signed, as_divisor_to_round_up_magnitude_div, checked_round_up_div,
  bound_magnitude, checked_mul_div, checked_mul_div_ceil, checked_mul_div_with_signed_numerator,
}
use gmx_solana.Fixed.{fixed_mul, pow_loop, checked_pow_fixed, pow_through_u64}
use gmx_solana.Utils.{
  usd_to_market_token_amount, market_token_amount_to_usd, apply_exponent_factor, apply_factors,
  apply_factor, div_to_factor, div_to_factor_signed,
}
use gmx_solana.Pool.{
  new_one_side, new_both_sides, is_pure_pool, set_is_pure, long_amount, short_amount, amount,
  apply_delta_to_long_amount, apply_delta_to_short_amount, apply_delta_amount, checked_apply_delta,
  long_usd_value, short_usd_value, merge, balance_amount,
}
use gmx_solana.Delta.{
  PriceImpactParams, PoolValue, PoolDelta, adjusted_factors, diff_value, is_same_side_rebalance,
  pool_value_of, pool_delta_with_values, pool_delta_with_amounts,
  price_impact_for_same_side_rebalance, price_impact_for_cross_over_rebalance, price_impact,
}

abbrev impact_params : PriceImpactParams
impact_params = record {
  exponent = 2 * 10 ^ 20;
  positive_factor = 10 ^ 18;
  negative_factor = 2 * 10 ^ 18;
}

abbrev values : ℕ → ℕ → PoolValue ℕ
values long short = record {
  long_token_usd_value = long * 10 ^ 20;
  short_token_usd_value = short * 10 ^ 20;
}

abbrev crossing : PoolDelta
crossing = record {
  current = values 20 10;
  next = values 15 16;
  delta = record {
    long_token_usd_value = negsuc (5 * 10 ^ 20 - 1);
    short_token_usd_value = pos (6 * 10 ^ 20);
  };
}

gain :
    price_impact_for_cross_over_rebalance ⦃n = u128⦄ crossing impact_params
    ≡ ok (pos (98 * 10 ^ 18))
unfolding narrow checked_add checked_mul checked_sub checked_div diff narrow_signed signed_add
    signed_sub signed_neg signed_div checked_add_signed try_signed to_signed to_opposite_signed
    to_signed_with_sign checked_signed_sub checked_add_with_signed checked_sub_with_signed
    checked_mul_with_signed as_divisor_to_round_up_magnitude_div checked_round_up_div
    bound_magnitude checked_mul_div checked_mul_div_ceil checked_mul_div_with_signed_numerator
    fixed_mul pow_loop checked_pow_fixed pow_through_u64 usd_to_market_token_amount
    market_token_amount_to_usd apply_exponent_factor apply_factors apply_factor div_to_factor
    div_to_factor_signed new_one_side new_both_sides is_pure_pool set_is_pure long_amount
    short_amount amount apply_delta_to_long_amount apply_delta_to_short_amount apply_delta_amount
    checked_apply_delta long_usd_value short_usd_value merge balance_amount adjusted_factors
    diff_value is_same_side_rebalance xor pool_value_of pool_delta_with_values
    pool_delta_with_amounts price_impact_for_same_side_rebalance
    price_impact_for_cross_over_rebalance price_impact
gain = refl

loss :
    price_impact_for_cross_over_rebalance ⦃n = u128⦄ (reverse crossing) impact_params
    ≡ ok (negsuc (199 * 10 ^ 18 - 1))
unfolding narrow checked_add checked_mul checked_sub checked_div diff narrow_signed signed_add
    signed_sub signed_neg signed_div checked_add_signed try_signed to_signed to_opposite_signed
    to_signed_with_sign checked_signed_sub checked_add_with_signed checked_sub_with_signed
    checked_mul_with_signed as_divisor_to_round_up_magnitude_div checked_round_up_div
    bound_magnitude checked_mul_div checked_mul_div_ceil checked_mul_div_with_signed_numerator
    fixed_mul pow_loop checked_pow_fixed pow_through_u64 usd_to_market_token_amount
    market_token_amount_to_usd apply_exponent_factor apply_factors apply_factor div_to_factor
    div_to_factor_signed new_one_side new_both_sides is_pure_pool set_is_pure long_amount
    short_amount amount apply_delta_to_long_amount apply_delta_to_short_amount apply_delta_amount
    checked_apply_delta long_usd_value short_usd_value merge balance_amount adjusted_factors
    diff_value is_same_side_rebalance xor pool_value_of pool_delta_with_values
    pool_delta_with_amounts price_impact_for_same_side_rebalance
    price_impact_for_cross_over_rebalance price_impact
loss = refl

cross_over_round_trip_example : pos (98 * 10 ^ 18) +ℤ negsuc (199 * 10 ^ 18 - 1) ≤ℤ pos 0
cross_over_round_trip_example = cross_over_round_trip ⦃n = u128⦄ impact_params crossing gain loss

abbrev same_side : PoolDelta
same_side = record {
  current = values 20 10;
  next = values 18 13;
  delta = record {
    long_token_usd_value = negsuc (2 * 10 ^ 20 - 1);
    short_token_usd_value = pos (3 * 10 ^ 20);
  };
}

same_side_gain : price_impact ⦃n = u128⦄ same_side impact_params ≡ ok (pos (75 * 10 ^ 18))
unfolding narrow checked_add checked_mul checked_sub checked_div diff narrow_signed signed_add
    signed_sub signed_neg signed_div checked_add_signed try_signed to_signed to_opposite_signed
    to_signed_with_sign checked_signed_sub checked_add_with_signed checked_sub_with_signed
    checked_mul_with_signed as_divisor_to_round_up_magnitude_div checked_round_up_div
    bound_magnitude checked_mul_div checked_mul_div_ceil checked_mul_div_with_signed_numerator
    fixed_mul pow_loop checked_pow_fixed pow_through_u64 usd_to_market_token_amount
    market_token_amount_to_usd apply_exponent_factor apply_factors apply_factor div_to_factor
    div_to_factor_signed new_one_side new_both_sides is_pure_pool set_is_pure long_amount
    short_amount amount apply_delta_to_long_amount apply_delta_to_short_amount apply_delta_amount
    checked_apply_delta long_usd_value short_usd_value merge balance_amount adjusted_factors
    diff_value is_same_side_rebalance xor pool_value_of pool_delta_with_values
    pool_delta_with_amounts price_impact_for_same_side_rebalance
    price_impact_for_cross_over_rebalance price_impact
same_side_gain = refl

same_side_loss :
    price_impact ⦃n = u128⦄ (reverse same_side) impact_params ≡ ok (negsuc (150 * 10 ^ 18 - 1))
unfolding narrow checked_add checked_mul checked_sub checked_div diff narrow_signed signed_add
    signed_sub signed_neg signed_div checked_add_signed try_signed to_signed to_opposite_signed
    to_signed_with_sign checked_signed_sub checked_add_with_signed checked_sub_with_signed
    checked_mul_with_signed as_divisor_to_round_up_magnitude_div checked_round_up_div
    bound_magnitude checked_mul_div checked_mul_div_ceil checked_mul_div_with_signed_numerator
    fixed_mul pow_loop checked_pow_fixed pow_through_u64 usd_to_market_token_amount
    market_token_amount_to_usd apply_exponent_factor apply_factors apply_factor div_to_factor
    div_to_factor_signed new_one_side new_both_sides is_pure_pool set_is_pure long_amount
    short_amount amount apply_delta_to_long_amount apply_delta_to_short_amount apply_delta_amount
    checked_apply_delta long_usd_value short_usd_value merge balance_amount adjusted_factors
    diff_value is_same_side_rebalance xor pool_value_of pool_delta_with_values
    pool_delta_with_amounts price_impact_for_same_side_rebalance
    price_impact_for_cross_over_rebalance price_impact
same_side_loss = refl

price_impact_round_trip_example : pos (75 * 10 ^ 18) +ℤ negsuc (150 * 10 ^ 18 - 1) ≤ℤ pos 1
price_impact_round_trip_example =
    price_impact_round_trip ⦃n = u128⦄ impact_params same_side same_side_gain same_side_loss
