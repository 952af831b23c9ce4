-- ===== src/Tests/Parts.antt =====
-- Pools, shares and fees at concrete numbers.
use gmx_solana.Prelude.{◌+◌, ◌*◌, ◌^◌, ◌≤◌, ◌≡◌, true, false, some, refl, arith}
use gmx_solana.Prelude.Int.{pos, negsuc}
use gmx_solana.Result.{ok}
use gmx_solana.Tests.{u128, pool}
use gmx_solana.Pool.Split.{long_amount-add-short_amount, pure_pool_split, stock, IsConsistent}
use gmx_solana.Pool.Apply.{checked_apply_delta_exact}
use gmx_solana.Utils.Shares.{mint_keeps_price, mint-redeem_le}
use gmx_solana.Fee.Split.{apply_fees_conserve, for_pool-add-for_receiver}
use gmx_solana.Fee.Position.{
  PositionFees, no_funding_fees, for_pool, for_receiver, total_cost_excluding_funding,
  borrowing_fee_for_pool, liquidation_fee_for_pool,
}
use gmx_solana.Num.{
  narrow, checked_add, checked_mul, checked_sub, checked_div, diff, narrow_signed, signed_add,
  signed_sub, signed_neg, signed_div, checked_add_signed, try_signed, to_signed, to_opposite_signed,
  to_signed_with_sign, checked_signed_sub, checked_add_with_signed, checked_sub_with_signed,
  checked_mul_with_signed, as_divisor_to_round_up_magnitude_div, checked_round_up_div,
  bound_magnitude, checked_mul_div, checked_mul_div_ceil, checked_mul_div_with_signed_numerator,
}
use gmx_solana.Utils.{
  usd_to_market_token_amount, market_token_amount_to_usd, apply_exponent_factor, apply_factors,
  apply_factor, div_to_factor, div_to_factor_signed,
}
use gmx_solana.Pool.{
  Pool, new_one_side, new_both_sides, is_pure_pool, set_is_pure, long_amount, short_amount, amount,
  apply_delta_to_long_amount, apply_delta_to_short_amount, apply_delta_amount, checked_apply_delta,
  long_usd_value, short_usd_value, merge, balance_amount,
}
use gmx_solana.Fee.Base.{
  FeeParams, factor, discount_factor_of, fee, receiver_fee, apply_fees, order_fees, liquidation_fee,
}

abbrev pure_pool : Pool
pure_pool = record { is_pure = 1; long_token_amount = 7; short_token_amount = 0 }

consistent : IsConsistent pure_pool
unfolding is_pure_pool
consistent = refl

long_amount-add-short_amount_example :
    long_amount pure_pool + short_amount pure_pool ≡ stock pure_pool
long_amount-add-short_amount_example = long_amount-add-short_amount pure_pool consistent

is_pure : is_pure_pool pure_pool ≡ true
unfolding is_pure_pool
is_pure = refl

abbrev pure_after : Pool
pure_after = record { is_pure = 1; long_token_amount = 9; short_token_amount = 0 }

pure_moved :
    checked_apply_delta ⦃n = u128⦄ pure_pool (new_both_sides false (pos 5) (negsuc 2))
    ≡ ok pure_after
unfolding narrow checked_add checked_mul checked_sub checked_div diff narrow_signed signed_add
    signed_sub signed_neg signed_div checked_add_signed try_signed to_signed to_opposite_signed
    to_signed_with_sign checked_signed_sub checked_add_with_signed checked_sub_with_signed
    checked_mul_with_signed as_divisor_to_round_up_magnitude_div checked_round_up_div
    bound_magnitude checked_mul_div checked_mul_div_ceil checked_mul_div_with_signed_numerator
    usd_to_market_token_amount market_token_amount_to_usd apply_exponent_factor apply_factors
    apply_factor div_to_factor div_to_factor_signed new_one_side new_both_sides is_pure_pool
    set_is_pure long_amount short_amount amount apply_delta_to_long_amount
    apply_delta_to_short_amount apply_delta_amount checked_apply_delta long_usd_value
    short_usd_value merge balance_amount factor discount_factor_of fee receiver_fee apply_fees
    order_fees liquidation_fee
pure_moved = refl

pure_pool_split_example :
    (long_amount pure_after + short_amount pure_after + 0 + 3
      ≡ long_amount pure_pool + short_amount pure_pool + 5 + 0)
    × (short_amount pure_after ≤ long_amount pure_after)
    × (long_amount pure_after ≤ short_amount pure_after + 1)
pure_pool_split_example =
    pure_pool_split ⦃n = u128⦄ pure_pool is_pure false (pos 5) (negsuc 2) pure_moved

moved :
    checked_apply_delta ⦃n = u128⦄ (pool 7 5) (new_both_sides true (pos 3) (negsuc 1))
    ≡ ok (pool 10 3)
unfolding narrow checked_add checked_mul checked_sub checked_div diff narrow_signed signed_add
    signed_sub signed_neg signed_div checked_add_signed try_signed to_signed to_opposite_signed
    to_signed_with_sign checked_signed_sub checked_add_with_signed checked_sub_with_signed
    checked_mul_with_signed as_divisor_to_round_up_magnitude_div checked_round_up_div
    bound_magnitude checked_mul_div checked_mul_div_ceil checked_mul_div_with_signed_numerator
    usd_to_market_token_amount market_token_amount_to_usd apply_exponent_factor apply_factors
    apply_factor div_to_factor div_to_factor_signed new_one_side new_both_sides is_pure_pool
    set_is_pure long_amount short_amount amount apply_delta_to_long_amount
    apply_delta_to_short_amount apply_delta_amount checked_apply_delta long_usd_value
    short_usd_value merge balance_amount factor discount_factor_of fee receiver_fee apply_fees
    order_fees liquidation_fee
moved = refl

checked_apply_delta_exact_example :
    (amount (pool 10 3) true + 0 ≡ amount (pool 7 5) true + 3)
    × (amount (pool 10 3) false + 2 ≡ amount (pool 7 5) false + 0)
    × ((pool 10 3).is_pure ≡ 0)
checked_apply_delta_exact_example =
    checked_apply_delta_exact ⦃n = u128⦄ (pool 7 5) refl true (pos 3) (negsuc 1) moved

minted : usd_to_market_token_amount ⦃n = u128⦄ 100 300 20 1 ≡ some 6
unfolding narrow checked_add checked_mul checked_sub checked_div diff narrow_signed signed_add
    signed_sub signed_neg signed_div checked_add_signed try_signed to_signed to_opposite_signed
    to_signed_with_sign checked_signed_sub checked_add_with_signed checked_sub_with_signed
    checked_mul_with_signed as_divisor_to_round_up_magnitude_div checked_round_up_div
    bound_magnitude checked_mul_div checked_mul_div_ceil checked_mul_div_with_signed_numerator
    usd_to_market_token_amount market_token_amount_to_usd apply_exponent_factor apply_factors
    apply_factor div_to_factor div_to_factor_signed new_one_side new_both_sides is_pure_pool
    set_is_pure long_amount short_amount amount apply_delta_to_long_amount
    apply_delta_to_short_amount apply_delta_amount checked_apply_delta long_usd_value
    short_usd_value merge balance_amount factor discount_factor_of fee receiver_fee apply_fees
    order_fees liquidation_fee
minted = refl

mint_keeps_price_example : 300 * (20 + 6) ≤ (300 + 100) * 20
mint_keeps_price_example = mint_keeps_price ⦃n = u128⦄ 100 300 20 1 (omega arith) minted

redeemed : market_token_amount_to_usd ⦃n = u128⦄ 6 (300 + 100) (20 + 6) ≡ some 92
unfolding narrow checked_add checked_mul checked_sub checked_div diff narrow_signed signed_add
    signed_sub signed_neg signed_div checked_add_signed try_signed to_signed to_opposite_signed
    to_signed_with_sign checked_signed_sub checked_add_with_signed checked_sub_with_signed
    checked_mul_with_signed as_divisor_to_round_up_magnitude_div checked_round_up_div
    bound_magnitude checked_mul_div checked_mul_div_ceil checked_mul_div_with_signed_numerator
    usd_to_market_token_amount market_token_amount_to_usd apply_exponent_factor apply_factors
    apply_factor div_to_factor div_to_factor_signed new_one_side new_both_sides is_pure_pool
    set_is_pure long_amount short_amount amount apply_delta_to_long_amount
    apply_delta_to_short_amount apply_delta_amount checked_apply_delta long_usd_value
    short_usd_value merge balance_amount factor discount_factor_of fee receiver_fee apply_fees
    order_fees liquidation_fee
redeemed = refl

mint-redeem_le_example : 92 ≤ 100
mint-redeem_le_example = mint-redeem_le ⦃n = u128⦄ 100 300 20 1 (omega arith) minted redeemed

abbrev fee_params : FeeParams
fee_params = record {
  positive_impact_fee_factor = 10 ^ 18;
  negative_impact_fee_factor = 2 * 10 ^ 18;
  fee_receiver_factor = 30 * 10 ^ 18;
  discount_factor = some (10 * 10 ^ 18);
}

fees_charged :
    apply_fees ⦃n = u128⦄ fee_params false 1000
    ≡ some (982, record { fee_amount_for_receiver = 5; fee_amount_for_pool = 13 })
unfolding narrow checked_add checked_mul checked_sub checked_div diff narrow_signed signed_add
    signed_sub signed_neg signed_div checked_add_signed try_signed to_signed to_opposite_signed
    to_signed_with_sign checked_signed_sub checked_add_with_signed checked_sub_with_signed
    checked_mul_with_signed as_divisor_to_round_up_magnitude_div checked_round_up_div
    bound_magnitude checked_mul_div checked_mul_div_ceil checked_mul_div_with_signed_numerator
    usd_to_market_token_amount market_token_amount_to_usd apply_exponent_factor apply_factors
    apply_factor div_to_factor div_to_factor_signed new_one_side new_both_sides is_pure_pool
    set_is_pure long_amount short_amount amount apply_delta_to_long_amount
    apply_delta_to_short_amount apply_delta_amount checked_apply_delta long_usd_value
    short_usd_value merge balance_amount factor discount_factor_of fee receiver_fee apply_fees
    order_fees liquidation_fee
fees_charged = refl

apply_fees_conserve_example : 982 + 13 + 5 ≡ 1000
apply_fees_conserve_example = apply_fees_conserve ⦃n = u128⦄ fee_params false 1000 fees_charged

abbrev position_fees : PositionFees
position_fees = record {
  paid_order_fee_value = 0;
  order = record {
    base = record { fee_amount_for_receiver = 5; fee_amount_for_pool = 13 };
    fee_value = 0;
  };
  borrowing = record { fee_amount = 20; fee_amount_for_receiver = 7 };
  funding = no_funding_fees;
  liquidation = some (record { fee_value = 0; fee_amount = 9; fee_amount_for_receiver = 4 });
}

cost : total_cost_excluding_funding ⦃n = u128⦄ position_fees ≡ ok 47
unfolding total_cost_excluding_funding narrow checked_add checked_mul checked_sub checked_div diff
    narrow_signed signed_add signed_sub signed_neg signed_div checked_add_signed try_signed
    to_signed to_opposite_signed to_signed_with_sign checked_signed_sub checked_add_with_signed
    checked_sub_with_signed checked_mul_with_signed as_divisor_to_round_up_magnitude_div
    checked_round_up_div bound_magnitude checked_mul_div checked_mul_div_ceil
    checked_mul_div_with_signed_numerator usd_to_market_token_amount market_token_amount_to_usd
    apply_exponent_factor apply_factors apply_factor div_to_factor div_to_factor_signed new_one_side
    new_both_sides is_pure_pool set_is_pure long_amount short_amount amount
    apply_delta_to_long_amount apply_delta_to_short_amount apply_delta_amount checked_apply_delta
    long_usd_value short_usd_value merge balance_amount factor discount_factor_of fee receiver_fee
    apply_fees order_fees liquidation_fee
cost = refl

pool_part : for_pool ⦃n = u128⦄ position_fees ≡ ok 31
unfolding for_pool borrowing_fee_for_pool liquidation_fee_for_pool narrow checked_add checked_mul
    checked_sub checked_div diff narrow_signed signed_add signed_sub signed_neg signed_div
    checked_add_signed try_signed to_signed to_opposite_signed to_signed_with_sign
    checked_signed_sub checked_add_with_signed checked_sub_with_signed checked_mul_with_signed
    as_divisor_to_round_up_magnitude_div checked_round_up_div bound_magnitude checked_mul_div
    checked_mul_div_ceil checked_mul_div_with_signed_numerator usd_to_market_token_amount
    market_token_amount_to_usd apply_exponent_factor apply_factors apply_factor div_to_factor
    div_to_factor_signed new_one_side new_both_sides is_pure_pool set_is_pure long_amount
    short_amount amount apply_delta_to_long_amount apply_delta_to_short_amount apply_delta_amount
    checked_apply_delta long_usd_value short_usd_value merge balance_amount factor
    discount_factor_of fee receiver_fee apply_fees order_fees liquidation_fee
pool_part = refl

receiver_part : for_receiver ⦃n = u128⦄ position_fees ≡ ok 16
unfolding for_receiver narrow checked_add checked_mul checked_sub checked_div diff narrow_signed
    signed_add signed_sub signed_neg signed_div checked_add_signed try_signed to_signed
    to_opposite_signed to_signed_with_sign checked_signed_sub checked_add_with_signed
    checked_sub_with_signed checked_mul_with_signed as_divisor_to_round_up_magnitude_div
    checked_round_up_div bound_magnitude checked_mul_div checked_mul_div_ceil
    checked_mul_div_with_signed_numerator usd_to_market_token_amount market_token_amount_to_usd
    apply_exponent_factor apply_factors apply_factor div_to_factor div_to_factor_signed new_one_side
    new_both_sides is_pure_pool set_is_pure long_amount short_amount amount
    apply_delta_to_long_amount apply_delta_to_short_amount apply_delta_amount checked_apply_delta
    long_usd_value short_usd_value merge balance_amount factor discount_factor_of fee receiver_fee
    apply_fees order_fees liquidation_fee
receiver_part = refl

for_pool-add-for_receiver_example : 31 + 16 ≡ 47
for_pool-add-for_receiver_example =
    for_pool-add-for_receiver ⦃n = u128⦄ position_fees cost pool_part receiver_part
