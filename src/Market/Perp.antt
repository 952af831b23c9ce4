-- ===== src/Market/Perp.antt =====
-- `PerpMarketExt` and `PerpMarketMutExt` of crates/gmsol-model/src/market/perp.rs, with the getters of
-- the store program's market and the parameters of params/position.rs.
use gmx_solana.Prelude.{ℕ, ◌^◌, Bool, Option, ltb, if◌then◌else◌}
use gmx_solana.Prelude.Int.{ℤ, abs, is_positive, is_negative, ltb_ℤ}
use gmx_solana.Result.{Result, ok, Error, ok_or, err_if, ◌>>=◌}
use gmx_solana.Num.{
  FixedPointOps, checked_mul, checked_add_with_signed, to_signed, to_opposite_signed, signed_sub,
}
use gmx_solana.Utils.{apply_factor}
use gmx_solana.Price.{Price, Prices, pick_price}
use gmx_solana.Pool.{amount, balance_amount, apply_delta_amount}
use gmx_solana.Fee.{FeeParams, LiquidationFeeParams, FundingFeeParams}
use gmx_solana.Market.Pools.{PoolKind, get, set}
use gmx_solana.Market.State.{Market}
use gmx_solana.Market.Base.{pool_value_without_pnl_for_one_side, reserved_value, open_interest}
use gmx_solana.Market.PositionImpact.{position_impact_pool_amount}

unfoldable pub funding_amount_per_size_kind : Bool → PoolKind
funding_amount_per_size_kind is_long =
    if is_long
    then PoolKind.funding_amount_per_size_for_long
    else PoolKind.funding_amount_per_size_for_short

unfoldable pub claimable_funding_amount_per_size_kind : Bool → PoolKind
claimable_funding_amount_per_size_kind is_long =
    if is_long
    then PoolKind.claimable_funding_amount_per_size_for_long
    else PoolKind.claimable_funding_amount_per_size_for_short

-- `FUNDING_AMOUNT_PER_SIZE_ADJUSTMENT` of programs/gmsol-store/src/constants/mod.rs.
abbrev pub funding_amount_per_size_adjustment : ℕ
funding_amount_per_size_adjustment = 10 ^ 10

unfoldable pub funding_fee_params : Market → FundingFeeParams
funding_fee_params m = record {
  exponent = m.config.funding_fee_exponent;
  funding_factor = m.config.funding_fee_factor;
  max_factor_per_second = m.config.funding_fee_max_factor_per_second;
  min_factor_per_second = m.config.funding_fee_min_factor_per_second;
  increase_factor_per_second = m.config.funding_fee_increase_factor_per_second;
  decrease_factor_per_second = m.config.funding_fee_decrease_factor_per_second;
  threshold_for_stable_funding = m.config.funding_fee_threshold_for_stable_funding;
  threshold_for_decrease_funding = m.config.funding_fee_threshold_for_decrease_funding;
}

pub record PositionParams : Type 0 where
  pub min_position_size_usd : ℕ
  pub min_collateral_value : ℕ
  pub min_collateral_factor : ℕ
  pub max_positive_position_impact_factor : ℕ
  pub max_negative_position_impact_factor : ℕ
  pub max_position_impact_factor_for_liquidations : ℕ

unfoldable pub position_params : Market → PositionParams
position_params m = record {
  min_position_size_usd = m.config.min_position_size_usd;
  min_collateral_value = m.config.min_collateral_value;
  min_collateral_factor = m.config.min_collateral_factor;
  max_positive_position_impact_factor = m.config.max_positive_position_impact_factor;
  max_negative_position_impact_factor = m.config.max_negative_position_impact_factor;
  max_position_impact_factor_for_liquidations =
      m.config.max_position_impact_factor_for_liquidations;
}

-- `discount` is the discount of the order that the market is opened for.
unfoldable pub order_fee_params : Market → Option ℕ → FeeParams
order_fee_params m discount = record {
  positive_impact_fee_factor = m.config.order_fee_factor_for_positive_impact;
  negative_impact_fee_factor = m.config.order_fee_factor_for_negative_impact;
  fee_receiver_factor = m.config.order_fee_receiver_factor;
  discount_factor = discount;
}

unfoldable pub liquidation_fee_params : Market → LiquidationFeeParams
liquidation_fee_params m = record {
  factor = m.config.liquidation_fee_factor;
  receiver_factor = m.config.liquidation_fee_receiver_factor;
}

unfoldable pub min_collateral_factor_for_open_interest_multiplier : Market → Bool → ℕ
min_collateral_factor_for_open_interest_multiplier m is_long =
    if is_long
    then m.config.min_collateral_factor_for_open_interest_multiplier_for_long
    else m.config.min_collateral_factor_for_open_interest_multiplier_for_short

unfoldable pub funding_fee_amount_per_size : Market → Bool → Bool → ℕ
unfolding funding_amount_per_size_kind
funding_fee_amount_per_size m is_long is_long_collateral =
    amount (get (funding_amount_per_size_kind is_long) m.pools) is_long_collateral

unfoldable pub claimable_funding_fee_amount_per_size : Market → Bool → Bool → ℕ
unfolding claimable_funding_amount_per_size_kind
claimable_funding_fee_amount_per_size m is_long is_long_collateral =
    amount (get (claimable_funding_amount_per_size_kind is_long) m.pools) is_long_collateral

unfoldable pub max_negative_impact_factor : Market → Bool → ℕ
unfolding position_params
max_negative_impact_factor m for_liquidations =
    if for_liquidations
    then (position_params m).max_position_impact_factor_for_liquidations
    else (position_params m).max_negative_position_impact_factor

-- `if *impact > max_impact { *impact = max_impact; }`.
unfoldable pub cap_at : ℤ → ℤ → ℤ
cap_at max_impact impact = if ltb_ℤ max_impact impact then max_impact else impact

module _ ⦃n : FixedPointOps⦄ where
  -- A delta to one side of the pool of a kind.
  unfoldable pub apply_delta_to_pool : PoolKind → Bool → ℤ → Market → Result Market
  apply_delta_to_pool kind is_long_token delta m = do
    pool ← apply_delta_amount is_long_token (get kind m.pools) delta
    ok (record m { pools = set kind pool m.pools })

  unfoldable pub apply_delta_to_funding_amount_per_size : Bool → Bool → ℤ → Market → Result Market
  unfolding apply_delta_to_pool funding_amount_per_size_kind
  apply_delta_to_funding_amount_per_size is_long is_long_collateral delta m =
      apply_delta_to_pool (funding_amount_per_size_kind is_long) is_long_collateral delta m

  unfoldable pub apply_delta_to_claimable_funding_amount_per_size :
      Bool → Bool → ℤ → Market → Result Market
  unfolding apply_delta_to_pool claimable_funding_amount_per_size_kind
  apply_delta_to_claimable_funding_amount_per_size is_long is_long_collateral delta m =
      apply_delta_to_pool (claimable_funding_amount_per_size_kind is_long) is_long_collateral delta
        m

  unfoldable pub validate_open_interest_reserve : Market → Prices → Bool → Result (Unit {0})
  validate_open_interest_reserve m prices is_long = do
    pool_value ← pool_value_without_pnl_for_one_side m prices is_long Bool.false
    max_reserved_value ←
        ok_or (apply_factor pool_value m.config.open_interest_reserve_factor)
          (Error.computation "calculating max reserved value")
    reserved ← reserved_value m prices.index_token_price is_long
    err_if (ltb max_reserved_value reserved) Error.insufficient_reserve_for_open_interest

  unfoldable pub min_collateral_factor_for_open_interest : Market → ℤ → Bool → Result ℕ
  min_collateral_factor_for_open_interest m delta is_long = do
    interest ← balance_amount (open_interest m) is_long
    next_open_interest ←
        ok_or (checked_add_with_signed interest delta)
          (Error.computation "calculating next OI for min collateral factor")
    ok_or
        (apply_factor next_open_interest
          (min_collateral_factor_for_open_interest_multiplier m is_long))
        (Error.computation "calculating min collateral factor for OI")

  unfoldable pub cap_positive_position_price_impact : Market → Price → ℤ → ℤ → Result ℤ
  cap_positive_position_price_impact m index_token_price size_delta_usd impact =
      if is_positive impact
      then (do
        by_pool ←
            ok_or
              (checked_mul (position_impact_pool_amount m)
                (pick_price index_token_price Bool.false))
              (Error.computation
                "overflow calculating max positive position impact based on pool amount")
        max_by_pool ← to_signed by_pool
        let capped_by_pool = cap_at max_by_pool impact
        by_factor ←
            ok_or
              (apply_factor (abs size_delta_usd)
                (position_params m).max_positive_position_impact_factor)
              (Error.computation "calculating max positive position impact based on max factor")
        max_by_factor ← to_signed by_factor
        ok (cap_at max_by_factor capped_by_pool))
      else ok impact

  -- The capped impact, and the amount by which it was capped.
  unfoldable pub cap_negative_position_price_impact : Market → ℤ → Bool → ℤ → Result (ℤ × ℕ)
  cap_negative_position_price_impact m size_delta_usd for_liquidations impact =
      if is_negative impact
      then (do
        magnitude ←
            ok_or
              (apply_factor (abs size_delta_usd) (max_negative_impact_factor m for_liquidations))
              (Error.computation "calculating max negative position impact based on max factor")
        min_impact ← to_opposite_signed magnitude
        if ltb_ℤ impact min_impact
            then (do
              impact_diff ←
                  ok_or (signed_sub min_impact impact)
                    (Error.computation "overflow calculating impact diff")
              ok (min_impact, abs impact_diff))
            else ok (impact, 0))
      else ok (impact, 0)
