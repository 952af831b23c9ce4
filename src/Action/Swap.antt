-- ===== src/Action/Swap.antt =====
-- crates/gmsol-model/src/action/swap.rs.
use gmx_solana.Prelude.{ℕ, Bool, true, false, not, ◌==◌, if◌then◌else◌}
use gmx_solana.Prelude.Int.{ℤ, pos, abs, is_positive}
use gmx_solana.Result.{Result, ok, err, Error, ok_or, err_if, ◌>>=◌, ◌>>◌, PnlFactorKind}
use gmx_solana.Num.{
  FixedPointOps, checked_add, checked_sub, checked_mul, checked_mul_div, to_signed,
  to_opposite_signed, try_signed, signed_neg,
}
use gmx_solana.Price.{Price, Prices, mid, pick_price, validate}
use gmx_solana.Pool.{Pool, new_one_side, new_both_sides, checked_apply_delta, balance}
use gmx_solana.Delta.{pool_delta_with_values, price_impact}
use gmx_solana.Fee.{Fees, apply_fees}
use gmx_solana.Market.State.{Market, swap_fee_params, swap_impact_params}
use gmx_solana.Market.Base.{validate_pool_amount, validate_reserve, validate_max_pnl}
use gmx_solana.Market.SwapImpact.{swap_impact_amount_with_cap}
pub mod Branch
pub mod Conservation

pub record SwapParams : Type 0 where
  pub is_token_in_long : Bool
  pub token_in_amount : ℕ
  pub prices : Prices

pub record SwapResult : Type 0 where
  pub token_in_fees : Fees
  pub token_out_amount : ℕ
  pub price_impact_value : ℤ
  pub price_impact_amount : ℕ

pub record SwapReport : Type 0 where
  pub params : SwapParams
  pub result : SwapResult

pub record ReassignedValues : Type 0 where
  pub long_token_delta_value : ℤ
  pub short_token_delta_value : ℤ
  pub token_in_price : Price
  pub token_out_price : Price
  pub long_pnl_factor_kind : PnlFactorKind
  pub short_pnl_factor_kind : PnlFactorKind

-- The variables that both branches of `try_execute` assign.
pub record SwapAmounts : Type 0 where
  pub token_in_amount : ℕ
  pub token_out_amount : ℕ
  pub pool_amount_out : ℕ
  pub price_impact_amount : ℕ
  pub swap_impact : Pool

module _ ⦃n : FixedPointOps⦄ where
  -- `Swap::try_new`.
  unfoldable pub try_new : Bool → ℕ → Prices → Result SwapParams
  try_new is_token_in_long token_in_amount prices = do
    err_if (token_in_amount == 0) Error.empty_swap
    validate prices
    ok (record {
      is_token_in_long = is_token_in_long;
      token_in_amount = token_in_amount;
      prices = prices;
    })

  unfoldable pub reassign_values : SwapParams → Result ReassignedValues
  reassign_values p =
      if p.is_token_in_long
      then (do
        price ← mid p.prices.long_token_price
        product ← ok_or (checked_mul p.token_in_amount price) (Error.computation "long delta value")
        value ← ok_or (try_signed product) Error.convert
        opposite ← ok_or (signed_neg value) (Error.computation "negating long delta value")
        ok (record {
          long_token_delta_value = value;
          short_token_delta_value = opposite;
          token_in_price = p.prices.long_token_price;
          token_out_price = p.prices.short_token_price;
          long_pnl_factor_kind = PnlFactorKind.max_after_deposit;
          short_pnl_factor_kind = PnlFactorKind.max_after_withdrawal;
        }))
      else (do
        price ← mid p.prices.short_token_price
        product ←
            ok_or (checked_mul p.token_in_amount price) (Error.computation "short delta value")
        value ← ok_or (try_signed product) Error.convert
        opposite ← ok_or (signed_neg value) (Error.computation "negating short delta value")
        ok (record {
          long_token_delta_value = opposite;
          short_token_delta_value = value;
          token_in_price = p.prices.short_token_price;
          token_out_price = p.prices.long_token_price;
          long_pnl_factor_kind = PnlFactorKind.max_after_withdrawal;
          short_pnl_factor_kind = PnlFactorKind.max_after_deposit;
        }))

  unfoldable pub charge_fees : Market → SwapParams → Bool → Result (ℕ × Fees)
  charge_fees m p is_positive_impact =
      ok_or (apply_fees (swap_fee_params m) is_positive_impact p.token_in_amount)
        (Error.computation "apply fees")

  -- What the token_in side of the swap impact pool pays where the positive impact was capped.
  unfoldable pub capped_diff_token_in : Market → SwapParams → Price → ℕ → Result ℤ
  capped_diff_token_in m p token_in_price capped_diff_value =
      if capped_diff_value == 0 then ok (pos 0) else (do
        usd ← to_signed capped_diff_value
        (capped_diff, _) ← swap_impact_amount_with_cap m p.is_token_in_long token_in_price usd
        ok capped_diff)

  -- The branch of a positive price impact.
  unfoldable pub positive_impact_amounts :
      Market → SwapParams → Price → Price → ℤ → ℕ → Result SwapAmounts
  positive_impact_amounts m p token_in_price token_out_price impact amount_after_fees = do
    let deduct_side = not p.is_token_in_long
    (signed_amount, capped_diff_value) ←
        swap_impact_amount_with_cap m deduct_side token_out_price impact
    capped_diff ← capped_diff_token_in m p token_in_price capped_diff_value
    token_in ←
        ok_or (checked_add amount_after_fees (abs capped_diff))
          (Error.computation "swap: adding capped diff amount")
    negated ←
        ok_or (signed_neg signed_amount)
          (Error.computation "negating positive price impact amount ")
    negated_diff ← ok_or (signed_neg capped_diff) (Error.computation "negating capped diff amount ")
    swap_impact ←
        checked_apply_delta m.pools.swap_impact (new_both_sides deduct_side negated negated_diff)
    pool_out ←
        ok_or
          (checked_mul_div token_in (pick_price token_in_price false)
            (pick_price token_out_price true))
          (Error.computation "pool amount out for positive impact")
    token_out ←
        ok_or (checked_add pool_out (abs signed_amount))
          (Error.computation "token out amount for positive impact")
    ok (record {
      token_in_amount = token_in;
      token_out_amount = token_out;
      pool_amount_out = pool_out;
      price_impact_amount = abs signed_amount;
      swap_impact = swap_impact;
    })

  -- The branch of a price impact that is negative or zero.
  unfoldable pub negative_impact_amounts :
      Market → SwapParams → Price → Price → ℤ → ℕ → Result SwapAmounts
  negative_impact_amounts m p token_in_price token_out_price impact amount_after_fees = do
    (signed_amount, _) ← swap_impact_amount_with_cap m p.is_token_in_long token_in_price impact
    negated ←
        ok_or (signed_neg signed_amount)
          (Error.computation "negating negative price impact amount ")
    swap_impact ← checked_apply_delta m.pools.swap_impact (new_one_side p.is_token_in_long negated)
    token_in ←
        ok_or (checked_sub amount_after_fees (abs signed_amount))
          (Error.computation "swap: not enough fund to pay price impact")
    err_if (token_in == 0) (Error.computation "swap: not enough fund to pay price impact")
    token_out ←
        ok_or
          (checked_mul_div token_in (pick_price token_in_price false)
            (pick_price token_out_price true))
          (Error.computation "token out amount for negative impact")
    ok (record {
      token_in_amount = token_in;
      token_out_amount = token_out;
      pool_amount_out = token_out;
      price_impact_amount = abs signed_amount;
      swap_impact = swap_impact;
    })

  -- `Cache`: the market with the three pools that the swap changes.
  unfoldable pub cache : Market → Pool → Pool → Pool → Market
  cache m liquidity swap_impact claimable_fee = record m {
    pools = record (m.pools) {
      primary = liquidity;
      swap_impact = swap_impact;
      claimable_fee = claimable_fee;
    };
  }

  -- The price impact of the swap in usd.
  unfoldable pub swap_price_impact : Market → SwapParams → ReassignedValues → Result ℤ
  swap_price_impact m p v = do
    long_price ← mid p.prices.long_token_price
    short_price ← mid p.prices.short_token_price
    delta ←
        pool_delta_with_values (balance m.pools.primary) v.long_token_delta_value
          v.short_token_delta_value long_price short_price
    price_impact delta (swap_impact_params m)

  -- The new liquidity pool. `token_in_amount` is assumed to have been transferred in.
  unfoldable pub swap_liquidity : Market → SwapParams → Fees → SwapAmounts → Result Pool
  swap_liquidity m p fees a = do
    total_in ← ok_or (checked_add a.token_in_amount fees.fee_amount_for_pool) Error.overflow
    pool_in ← to_signed total_in
    pool_out ← to_opposite_signed a.pool_amount_out
    checked_apply_delta m.pools.primary (new_both_sides p.is_token_in_long pool_in pool_out)

  -- The market that `execute` leaves, and the result.
  unfoldable pub try_execute : Market → SwapParams → Result (Market × SwapResult)
  try_execute m p = do
    v ← reassign_values p
    impact ← swap_price_impact m p v
    (amount_after_fees, fees) ← charge_fees m p (is_positive impact)
    receiver ← to_signed fees.fee_amount_for_receiver
    claimable_fee ←
        checked_apply_delta m.pools.claimable_fee (new_one_side p.is_token_in_long receiver)
    a ←
        if is_positive impact
        then positive_impact_amounts m p v.token_in_price v.token_out_price impact amount_after_fees
        else negative_impact_amounts m p v.token_in_price v.token_out_price impact amount_after_fees
    liquidity ← swap_liquidity m p fees a
    let m' = cache m liquidity a.swap_impact claimable_fee
    validate_pool_amount m' p.is_token_in_long
    validate_reserve m' p.prices (not p.is_token_in_long)
    validate_max_pnl m' p.prices v.long_pnl_factor_kind v.short_pnl_factor_kind
    ok (
      m',
      record {
        token_in_fees = fees;
        token_out_amount = a.token_out_amount;
        price_impact_value = impact;
        price_impact_amount = a.price_impact_amount;
      },
    )

  -- `market.swap(…)?.execute()`.
  unfoldable pub swap : Market → Bool → ℕ → Prices → Result (Market × SwapReport)
  swap m is_token_in_long token_in_amount prices = do
    p ← try_new is_token_in_long token_in_amount prices
    (m', result) ← try_execute m p
    ok (m', record { params = p; result = result })
