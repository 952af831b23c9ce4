-- ===== src/Market/Base/Reserve.antt =====
-- Reserves, token balances, and `MarketUtils`.
use gmx_solana.Prelude.{ℕ, Bool, true, false, ltb, if◌then◌else◌}
use gmx_solana.Prelude.Int.{ℤ, is_positive, ltb_ℤ}
use gmx_solana.Result.{Result, ok, Error, ok_or, err_if, ◌>>=◌, PnlFactorKind}
use gmx_solana.Num.{FixedPointOps, checked_add, to_signed}
use gmx_solana.Utils.{apply_factor, div_to_factor}
use gmx_solana.Price.{Price, Prices, pick_price}
use gmx_solana.Pool.{amount, balance_amount, long_usd_value}
use gmx_solana.Market.State.{Market, collateral_sum_pool, max_open_interest, pnl_factor_config}
use gmx_solana.Market.Base.Values.{
  pool_value_without_pnl_for_one_side, open_interest, open_interest_in_tokens,
}

module _ ⦃n : FixedPointOps⦄ where
  unfoldable pub reserved_value : Market → Price → Bool → Result ℕ
  reserved_value m index_token_price is_long =
      if is_long
      then long_usd_value (open_interest_in_tokens m) (pick_price index_token_price true)
      else balance_amount (open_interest m) false

  unfoldable pub validate_reserve : Market → Prices → Bool → Result (Unit {0})
  validate_reserve m prices is_long = do
    pool_value ← pool_value_without_pnl_for_one_side m prices is_long false
    max_reserved_value ←
        ok_or (apply_factor pool_value m.config.reserve_factor)
          (Error.computation "calculating max reserved value")
    reserved ← reserved_value m prices.index_token_price is_long
    err_if (ltb max_reserved_value reserved) Error.insufficient_reserve

  -- What the market must hold of one token, its collateral left out:
  -- `expected_min_token_balance_excluding_collateral_amount_for_one_token_side`.
  unfoldable pub expected_min_token_balance : Market → Bool → Result ℕ
  expected_min_token_balance m is_long_side = do
    with_swap_impact ←
        ok_or
          (checked_add (amount m.pools.primary is_long_side)
            (amount m.pools.swap_impact is_long_side))
          (Error.computation "overflow adding swap impact pool amount")
    ok_or (checked_add with_swap_impact (amount m.pools.claimable_fee is_long_side))
        (Error.computation "overflow adding claimable fee amount")

  unfoldable pub total_collateral_amount_for_one_token_side : Market → Bool → Result ℕ
  total_collateral_amount_for_one_token_side m is_long_side =
      ok_or
        (checked_add (amount (collateral_sum_pool m true) is_long_side)
          (amount (collateral_sum_pool m false) is_long_side))
        (Error.computation "calculating total collateral sum for one side")

  unfoldable pub usage_factor : Market → Bool → ℕ → ℕ → Result ℕ
  usage_factor m is_long reserved pool_value = do
    max_reserved_value ←
        ok_or (apply_factor pool_value m.config.open_interest_reserve_factor)
          (Error.computation "usage factor: calculating max reserved factor")
    reserve_usage_factor ←
        ok_or (div_to_factor reserved max_reserved_value false)
          (Error.computation "usage factor: calculating reserve usage factor")
    if m.config.ignore_open_interest_for_usage_factor then ok reserve_usage_factor else (do
      interest ← balance_amount (open_interest m) is_long
      open_interest_usage_factor ←
          ok_or (div_to_factor interest (max_open_interest m is_long) false)
            (Error.computation "usage factor: calculating open interest usage factor")
      ok (
          if ltb open_interest_usage_factor reserve_usage_factor
          then reserve_usage_factor
          else open_interest_usage_factor))

  unfoldable pub cap_pnl : Market → Bool → ℤ → ℕ → PnlFactorKind → Result ℤ
  cap_pnl m is_long pnl pool_value kind =
      if is_positive pnl
      then (do
        cap ←
            ok_or (apply_factor pool_value (pnl_factor_config m kind is_long))
              (Error.computation "calculating max pnl")
        max_pnl ← to_signed cap
        ok (if ltb_ℤ max_pnl pnl then max_pnl else pnl))
      else ok pnl
