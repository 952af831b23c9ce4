-- ===== src/Position/Value.antt =====
-- The value of a position: its collateral, its profit, its price impact and its fees.
use gmx_solana.Prelude.{ℕ, Bool, true, false, not, Option, none, some, ◌&&◌, ◌==◌, if◌then◌else◌}
use gmx_solana.Prelude.Int.{ℤ, pos, abs, is_positive, is_negative, ltb_ℤ}
use gmx_solana.Result.{Result, ok, Error, ok_or, ◌>>=◌, PnlFactorKind}
use gmx_solana.Num.{
  FixedPointOps, checked_mul, checked_sub, checked_mul_div, checked_mul_div_ceil,
  checked_mul_div_with_signed_numerator, signed_sub, try_signed,
}
use gmx_solana.Utils.{apply_factor}
use gmx_solana.Price.{Price, Prices, pick_price, pick_price_for_pnl}
use gmx_solana.Delta.{pool_delta_with_values, price_impact}
use gmx_solana.Fee.{
  FundingFees, PositionFees, LiquidationFees, base_position_fees, set_borrowing_fees,
  set_funding_fees, set_liquidation_fees, liquidation_fee,
}
use gmx_solana.Market.State.{position_impact_params, borrowing_fee_params}
use gmx_solana.Market.Base.{pool_value_without_pnl_for_one_side, pnl, cap_pnl, open_interest}
use gmx_solana.Market.Borrowing.{cumulative_borrowing_factor}
use gmx_solana.Market.Perp.{
  funding_amount_per_size_adjustment, funding_fee_amount_per_size,
  claimable_funding_fee_amount_per_size, cap_positive_position_price_impact,
  cap_negative_position_price_impact, order_fee_params, liquidation_fee_params,
}
use gmx_solana.Action.UpdateFunding.{unpack_to_funding_amount_delta}
use gmx_solana.Position.State.{Position, claimable_per_size}

unfoldable pub collateral_price : Position → Prices → Price
collateral_price p prices =
    if p.is_collateral_token_long then prices.long_token_price else prices.short_token_price

-- `!=` on signed values.
abbrev differs : ℤ → ℤ → Bool
differs a b = if ltb_ℤ a b then true else ltb_ℤ b a

module _ ⦃n : FixedPointOps⦄ where
  unfoldable pub collateral_value : Position → Prices → Result ℕ
  unfolding collateral_price
  collateral_value p prices =
      ok_or (checked_mul p.collateral_amount (pick_price (collateral_price p prices) false))
        (Error.computation "overflow calculating collateral value")

  -- The profit of the whole position at the given price.
  unfoldable pub uncapped_total_pnl : Position → ℕ → Result ℤ
  uncapped_total_pnl p execution_price = do
    value ←
        ok_or (checked_mul p.size_in_tokens execution_price)
          (Error.computation "overflow calculating position value")
    position_value ← ok_or (try_signed value) Error.convert
    size_in_usd ← ok_or (try_signed p.size_in_usd) Error.convert
    ok_or
        (if p.is_long
          then signed_sub position_value size_in_usd
          else signed_sub size_in_usd position_value)
        (Error.computation "calculating total pnl")

  -- A profit is cut in the proportion in which that of its side of the pool is capped.
  unfoldable pub cap_total_pnl : Position → Prices → ℤ → Result ℤ
  cap_total_pnl p prices total_pnl =
      if is_positive total_pnl
      then (do
        pool_value ← pool_value_without_pnl_for_one_side p.market prices p.is_long false
        pool_pnl ← pnl p.market prices.index_token_price p.is_long true
        capped_pool_pnl ←
            cap_pnl p.market p.is_long pool_pnl pool_value PnlFactorKind.max_for_trader
        if differs capped_pool_pnl pool_pnl
              && (not (is_negative capped_pool_pnl) && is_positive pool_pnl)
            then ok_or
                (checked_mul_div_with_signed_numerator (abs capped_pool_pnl) total_pnl
                  (abs pool_pnl))
                (Error.computation "calculating capped total pnl")
            else ok total_pnl)
      else ok total_pnl

  unfoldable pub size_delta_in_tokens : Position → ℕ → Result ℕ
  size_delta_in_tokens p size_delta_usd =
      if p.size_in_usd == size_delta_usd
      then ok p.size_in_tokens
      else if p.is_long
      then ok_or (checked_mul_div_ceil p.size_in_tokens size_delta_usd p.size_in_usd)
          (Error.computation "calculating size delta in tokens for long")
      else ok_or (checked_mul_div p.size_in_tokens size_delta_usd p.size_in_usd)
          (Error.computation "calculating size delta in tokens for short")

  unfoldable pub pnl_value : Position → Prices → ℕ → Result (ℤ × ℤ × ℕ)
  unfolding uncapped_total_pnl cap_total_pnl size_delta_in_tokens
  pnl_value p prices size_delta_usd = do
    uncapped ← uncapped_total_pnl p (pick_price_for_pnl prices.index_token_price p.is_long false)
    total_pnl ← cap_total_pnl p prices uncapped
    tokens ← size_delta_in_tokens p size_delta_usd
    pnl_usd ←
        ok_or (checked_mul_div_with_signed_numerator tokens total_pnl p.size_in_tokens)
          (Error.computation "calculating pnl_usd")
    uncapped_pnl_usd ←
        ok_or (checked_mul_div_with_signed_numerator tokens uncapped p.size_in_tokens)
          (Error.computation "calculating uncapped_pnl_usd")
    ok (pnl_usd, uncapped_pnl_usd, tokens)

  -- The open interest is in usd, so its prices are one.
  unfoldable pub position_price_impact : Position → ℤ → Result ℤ
  position_price_impact p size_delta_usd = do
    delta ←
        pool_delta_with_values (open_interest p.market)
          (if p.is_long then size_delta_usd else pos 0)
          (if p.is_long then pos 0 else size_delta_usd) 1 1
    price_impact delta (position_impact_params p.market)

  unfoldable pub capped_positive_position_price_impact : Position → Price → ℤ → Result ℤ
  unfolding position_price_impact
  capped_positive_position_price_impact p index_token_price size_delta_usd = do
    impact ← position_price_impact p size_delta_usd
    cap_positive_position_price_impact p.market index_token_price size_delta_usd impact

  unfoldable pub capped_position_price_impact : Position → Price → ℤ → Result (ℤ × ℕ)
  unfolding capped_positive_position_price_impact
  capped_position_price_impact p index_token_price size_delta_usd = do
    impact ← capped_positive_position_price_impact p index_token_price size_delta_usd
    cap_negative_position_price_impact p.market size_delta_usd false impact

  unfoldable pub pending_borrowing_fee_value : Position → Result ℕ
  pending_borrowing_fee_value p = do
    diff_factor ←
        ok_or (checked_sub (cumulative_borrowing_factor p.market p.is_long) p.borrowing_factor)
          (Error.computation "invalid latest borrowing factor")
    ok_or (apply_factor p.size_in_usd diff_factor)
        (Error.computation "calculating borrowing fee value")

  unfoldable pub pending_funding_fees : Position → Result FundingFees
  unfolding claimable_per_size
  pending_funding_fees p = do
    amount ←
        ok_or
          (unpack_to_funding_amount_delta funding_amount_per_size_adjustment
            (funding_fee_amount_per_size p.market p.is_long p.is_collateral_token_long)
            p.funding_fee_amount_per_size p.size_in_usd true)
          (Error.computation "calculating funding fee amount")
    claimable_long ←
        ok_or
          (unpack_to_funding_amount_delta funding_amount_per_size_adjustment
            (claimable_funding_fee_amount_per_size p.market p.is_long true)
            (claimable_per_size p true) p.size_in_usd false)
          (Error.computation "calculating claimable long token funding fee amount")
    claimable_short ←
        ok_or
          (unpack_to_funding_amount_delta funding_amount_per_size_adjustment
            (claimable_funding_fee_amount_per_size p.market p.is_long false)
            (claimable_per_size p false) p.size_in_usd false)
          (Error.computation "calculating claimable short token funding fee amount")
    ok (record {
      amount = amount;
      claimable_long_token_amount = claimable_long;
      claimable_short_token_amount = claimable_short;
    })

  unfoldable pub liquidation_fees : Position → Price → ℕ → Bool → Result (Option LiquidationFees)
  liquidation_fees p price size_delta_usd is_liquidation =
      if is_liquidation
      then (do
        fees ← liquidation_fee (liquidation_fee_params p.market) size_delta_usd price
        ok (some fees))
      else ok none

  unfoldable pub position_fees : Position → Price → ℕ → Bool → Bool → Result PositionFees
  unfolding liquidation_fees pending_borrowing_fee_value pending_funding_fees
  position_fees p price size_delta_usd is_positive_impact is_liquidation = do
    liquidation ← liquidation_fees p price size_delta_usd is_liquidation
    base ←
        base_position_fees (order_fee_params p.market p.order_fee_discount) price size_delta_usd
          is_positive_impact
    borrowing_value ← pending_borrowing_fee_value p
    with_borrowing ←
        set_borrowing_fees base (borrowing_fee_params p.market).receiver_factor price
          borrowing_value
    funding ← pending_funding_fees p
    ok (set_liquidation_fees (set_funding_fees with_borrowing funding) liquidation)
