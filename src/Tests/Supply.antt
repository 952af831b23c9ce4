-- ===== src/Tests/Supply.antt =====
-- The market tokens of a market, its price impact in tokens, and the balance that it must hold.
use gmx_solana.Prelude.{ℕ, ◌+◌, ◌*◌, ◌^◌, ◌≤◌, ◌<◌, ◌≡◌, true, false, refl, arith}
use gmx_solana.Prelude.Int.{pos, negsuc, pos_part, neg_part}
use gmx_solana.Result.{ok}
use gmx_solana.Tests.{u128, market, market_with, pool, price}
use gmx_solana.Market.Supply.{mint-total_supply, burn-total_supply}
use gmx_solana.Market.SwapImpact.Amount.{positive_impact_amount, negative_impact_amount}
use gmx_solana.Num.{
  narrow, checked_add, checked_mul, checked_sub, checked_div, diff, narrow_signed, signed_add,
  signed_sub, signed_neg, signed_div, checked_add_signed, try_signed, to_signed, to_opposite_signed,
  to_signed_with_sign, checked_signed_sub, checked_add_with_signed, checked_sub_with_signed,
  checked_mul_with_signed, as_divisor_to_round_up_magnitude_div, checked_round_up_div,
  bound_magnitude, checked_mul_div, checked_mul_div_ceil, checked_mul_div_with_signed_numerator,
}
use gmx_solana.Price.{
  pick_price_for_pnl, pick_price, has_zero, collateral_token_price, checked_mid, mid,
  price_is_valid, prices_is_valid, validate,
}
use gmx_solana.Pool.{
  Pool, new_one_side, new_both_sides, is_pure_pool, set_is_pure, long_amount, short_amount, amount,
  apply_delta_to_long_amount, apply_delta_to_short_amount, apply_delta_amount, checked_apply_delta,
  long_usd_value, short_usd_value, merge, balance_amount,
}
use gmx_solana.Market.State.{Market, total_supply, mint, burn}
use gmx_solana.Market.SwapImpact.{
  impact_amount_with_cap, swap_impact_amount_with_cap, apply_swap_impact_value_with_cap,
}

abbrev p₀ : Pool
p₀ = pool (100 * 10 ^ 9) (10000 * 10 ^ 6)

abbrev with_supply : ℕ → ℕ → Market
with_supply to_mint to_burn = market_with p₀ (pool 0 (20 * 10 ^ 6)) (pool 0 0) to_mint to_burn

minting : mint 5 market ≡ ok (with_supply 5 0)
unfolding mint
minting = refl

mint-total_supply_example : total_supply (with_supply 5 0) ≡ total_supply market + 5
mint-total_supply_example = mint-total_supply 5 market (omega arith) minting

burning : burn 5 market ≡ ok (with_supply 0 5)
unfolding burn
burning = refl

burn-total_supply_example :
    (total_supply (with_supply 0 5) + 5 ≡ total_supply market) × (5 ≤ 25000 * 10 ^ 9)
burn-total_supply_example = burn-total_supply 5 market burning

capped : impact_amount_with_cap ⦃n = u128⦄ (pool 0 20) false (price 10) (pos 255) ≡ ok (pos 20, 50)
unfolding narrow checked_add checked_mul checked_sub checked_div diff narrow_signed signed_add
    signed_sub signed_neg signed_div checked_add_signed try_signed to_signed to_opposite_signed
    to_signed_with_sign checked_signed_sub checked_add_with_signed checked_sub_with_signed
    checked_mul_with_signed as_divisor_to_round_up_magnitude_div checked_round_up_div
    bound_magnitude checked_mul_div checked_mul_div_ceil checked_mul_div_with_signed_numerator
    pick_price_for_pnl pick_price has_zero collateral_token_price checked_mid mid price_is_valid
    prices_is_valid validate new_one_side new_both_sides is_pure_pool set_is_pure long_amount
    short_amount amount apply_delta_to_long_amount apply_delta_to_short_amount apply_delta_amount
    checked_apply_delta long_usd_value short_usd_value merge balance_amount impact_amount_with_cap
    swap_impact_amount_with_cap apply_swap_impact_value_with_cap
capped = refl

positive_impact_amount_example :
    (neg_part (pos 20) ≡ 0)
    × (20 ≤ amount (pool 0 20) false)
    × (20 * pick_price (price 10) true + 50 ≤ 255)
positive_impact_amount_example =
    positive_impact_amount ⦃n = u128⦄ (pool 0 20) false (price 10) 255 (omega arith) capped

charged :
    impact_amount_with_cap ⦃n = u128⦄ (pool 0 20) false (price 10) (negsuc 254) ≡ ok (negsuc 25, 0)
unfolding narrow checked_add checked_mul checked_sub checked_div diff narrow_signed signed_add
    signed_sub signed_neg signed_div checked_add_signed try_signed to_signed to_opposite_signed
    to_signed_with_sign checked_signed_sub checked_add_with_signed checked_sub_with_signed
    checked_mul_with_signed as_divisor_to_round_up_magnitude_div checked_round_up_div
    bound_magnitude checked_mul_div checked_mul_div_ceil checked_mul_div_with_signed_numerator
    pick_price_for_pnl pick_price has_zero collateral_token_price checked_mid mid price_is_valid
    prices_is_valid validate new_one_side new_both_sides is_pure_pool set_is_pure long_amount
    short_amount amount apply_delta_to_long_amount apply_delta_to_short_amount apply_delta_amount
    checked_apply_delta long_usd_value short_usd_value merge balance_amount impact_amount_with_cap
    swap_impact_amount_with_cap apply_swap_impact_value_with_cap
charged = refl

negative_impact_amount_example :
    (pos_part (negsuc 25) ≡ 0)
    × (255 ≤ 26 * pick_price (price 10) false)
    × (26 * pick_price (price 10) false < 255 + pick_price (price 10) false)
negative_impact_amount_example =
    negative_impact_amount ⦃n = u128⦄ (pool 0 20) false (price 10) 254 charged
