-- ===== src/Market/State.antt =====
-- `Market` of programs/gmsol-store/src/states/market/mod.rs with its market token, the getters of
-- states/market/model.rs, and minting and burning of states/market/revertible/liquidity_market.rs.
use gmx_solana.Prelude.{ℕ, ◌+◌, ◌-◌, ◌^◌, Bool, true, false, not, none, ltb, if◌then◌else◌}
use gmx_solana.Prelude.Int.{ℤ}
use gmx_solana.Result.{Result, ok, err, Error, PnlFactorKind}
use gmx_solana.Pool.{Pool}
use gmx_solana.Delta.{PriceImpactParams}
use gmx_solana.Fee.{FeeParams}
use gmx_solana.Market.Config.{MarketConfig}
use gmx_solana.Market.Pools.{Pools}

pub record Clocks : Type 0 where
  pub price_impact_distribution : ℤ
  pub borrowing : ℤ
  pub funding : ℤ
  pub adl_for_long : ℤ
  pub adl_for_short : ℤ

-- `supply` is what the mint account says; `to_mint` and `to_burn` wait for the commit.
-- `unix_timestamp` is the time that the runtime gives the instruction.
pub record Market : Type 0 where
  pub config : MarketConfig
  pub pools : Pools
  pub clocks : Clocks
  pub supply : ℕ
  pub to_mint : ℕ
  pub to_burn : ℕ
  pub funding_factor_per_second : ℤ
  pub unix_timestamp : ℤ

unfoldable pub open_interest_pool : Market → Bool → Pool
open_interest_pool m is_long =
    if is_long then m.pools.open_interest_for_long else m.pools.open_interest_for_short

unfoldable pub open_interest_in_tokens_pool : Market → Bool → Pool
open_interest_in_tokens_pool m is_long =
    if is_long
    then m.pools.open_interest_in_tokens_for_long
    else m.pools.open_interest_in_tokens_for_short

unfoldable pub collateral_sum_pool : Market → Bool → Pool
collateral_sum_pool m is_long =
    if is_long then m.pools.collateral_sum_for_long else m.pools.collateral_sum_for_short

-- `MARKET_USD_TO_AMOUNT_DIVISOR`, 10 ^ (20 - 9).
abbrev pub usd_to_amount_divisor : ℕ
usd_to_amount_divisor = 10 ^ 11

unfoldable pub max_pool_amount : Market → Bool → ℕ
max_pool_amount m is_long_token =
    if is_long_token
    then m.config.max_pool_amount_for_long_token
    else m.config.max_pool_amount_for_short_token

unfoldable pub max_open_interest : Market → Bool → ℕ
max_open_interest m is_long =
    if is_long then m.config.max_open_interest_for_long else m.config.max_open_interest_for_short

unfoldable pub max_pool_value_for_deposit : Market → Bool → ℕ
max_pool_value_for_deposit m is_long_token =
    if is_long_token
    then m.config.max_pool_value_for_deposit_for_long_token
    else m.config.max_pool_value_for_deposit_for_short_token

unfoldable pub pnl_factor_config : Market → PnlFactorKind → Bool → ℕ
pnl_factor_config m PnlFactorKind.max_after_deposit true = m.config.max_pnl_factor_for_long_deposit
pnl_factor_config m PnlFactorKind.max_after_deposit false =
    m.config.max_pnl_factor_for_short_deposit
pnl_factor_config m PnlFactorKind.max_after_withdrawal true =
    m.config.max_pnl_factor_for_long_withdrawal
pnl_factor_config m PnlFactorKind.max_after_withdrawal false =
    m.config.max_pnl_factor_for_short_withdrawal
pnl_factor_config m PnlFactorKind.max_for_trader true = m.config.max_pnl_factor_for_long_trader
pnl_factor_config m PnlFactorKind.max_for_trader false = m.config.max_pnl_factor_for_short_trader
pnl_factor_config m PnlFactorKind.for_adl true = m.config.max_pnl_factor_for_long_adl
pnl_factor_config m PnlFactorKind.for_adl false = m.config.max_pnl_factor_for_short_adl
pnl_factor_config m PnlFactorKind.min_after_adl true = m.config.min_pnl_factor_after_long_adl
pnl_factor_config m PnlFactorKind.min_after_adl false = m.config.min_pnl_factor_after_short_adl

unfoldable pub swap_impact_params : Market → PriceImpactParams
swap_impact_params m = record {
  exponent = m.config.swap_impact_exponent;
  positive_factor = m.config.swap_impact_positive_factor;
  negative_factor = m.config.swap_impact_negative_factor;
}

unfoldable pub position_impact_params : Market → PriceImpactParams
position_impact_params m = record {
  exponent = m.config.position_impact_exponent;
  positive_factor = m.config.position_impact_positive_factor;
  negative_factor = m.config.position_impact_negative_factor;
}

unfoldable pub swap_fee_params : Market → FeeParams
swap_fee_params m = record {
  positive_impact_fee_factor = m.config.swap_fee_factor_for_positive_impact;
  negative_impact_fee_factor = m.config.swap_fee_factor_for_negative_impact;
  fee_receiver_factor = m.config.swap_fee_receiver_factor;
  discount_factor = none;
}

-- `PositionImpactDistributionParams` of crates/gmsol-model/src/params/position.rs.
pub record PositionImpactDistributionParams : Type 0 where
  pub distribute_factor : ℕ
  pub min_position_impact_pool_amount : ℕ

unfoldable pub position_impact_distribution_params : Market → PositionImpactDistributionParams
position_impact_distribution_params m = record {
  distribute_factor = m.config.position_impact_distribute_factor;
  min_position_impact_pool_amount = m.config.min_position_impact_pool_amount;
}

-- `BorrowingFeeParams` and the parameters of the kink model, of crates/gmsol-model/src/params/fee.rs.
pub record BorrowingFeeParams : Type 0 where
  pub receiver_factor : ℕ
  pub exponent_for_long : ℕ
  pub exponent_for_short : ℕ
  pub factor_for_long : ℕ
  pub factor_for_short : ℕ
  pub skip_borrowing_fee_for_smaller_side : Bool

unfoldable pub borrowing_fee_params : Market → BorrowingFeeParams
borrowing_fee_params m = record {
  receiver_factor = m.config.borrowing_fee_receiver_factor;
  exponent_for_long = m.config.borrowing_fee_exponent_for_long;
  exponent_for_short = m.config.borrowing_fee_exponent_for_short;
  factor_for_long = m.config.borrowing_fee_factor_for_long;
  factor_for_short = m.config.borrowing_fee_factor_for_short;
  skip_borrowing_fee_for_smaller_side = m.config.skip_borrowing_fee_for_smaller_side;
}

pub record BorrowingFeeKinkModelParamsForOneSide : Type 0 where
  pub optimal_usage_factor : ℕ
  pub base_borrowing_factor : ℕ
  pub above_optimal_usage_borrowing_factor : ℕ

-- `borrowing_fee_kink_model_params`, for one side.
unfoldable pub kink_params : Market → Bool → BorrowingFeeKinkModelParamsForOneSide
kink_params m is_long =
    if is_long
    then record {
      optimal_usage_factor = m.config.borrowing_fee_optimal_usage_factor_for_long;
      base_borrowing_factor = m.config.borrowing_fee_base_factor_for_long;
      above_optimal_usage_borrowing_factor =
          m.config.borrowing_fee_above_optimal_usage_factor_for_long;
    }
    else record {
      optimal_usage_factor = m.config.borrowing_fee_optimal_usage_factor_for_short;
      base_borrowing_factor = m.config.borrowing_fee_base_factor_for_short;
      above_optimal_usage_borrowing_factor =
          m.config.borrowing_fee_above_optimal_usage_factor_for_short;
    }

-- Amounts of market tokens are u64: `checked_add` and `try_into` of that type.
abbrev fits_u64 : ℕ → Bool
fits_u64 a = ltb a (2 ^ 64)

-- `saturating_add` and `saturating_sub` of u128: the first cannot saturate on two u64s.
unfoldable pub total_supply : Market → ℕ
total_supply m = m.supply + m.to_mint - m.to_burn

unfoldable pub mint : ℕ → Market → Result Market
mint amount m =
    if not (fits_u64 amount)
    then err Error.overflow
    else if not (fits_u64 (m.to_mint + amount))
    then err Error.overflow
    else if not (fits_u64 (m.supply + (m.to_mint + amount)))
    then err Error.overflow
    else ok (record m { to_mint = m.to_mint + amount })

unfoldable pub burn : ℕ → Market → Result Market
burn amount m =
    if not (fits_u64 amount)
    then err Error.overflow
    else if not (fits_u64 (m.to_burn + amount))
    then err Error.overflow
    else if ltb m.supply (m.to_burn + amount)
    then err (Error.computation "not enough market tokens to burn")
    else ok (record m { to_burn = m.to_burn + amount })
