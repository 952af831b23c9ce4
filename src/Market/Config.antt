-- ===== src/Market/Config.antt =====
-- programs/gmsol-store/src/states/market/config.rs: the configuration of a market and its defaults, with
-- the constants of programs/gmsol-store/src/constants/market.rs.
use gmx_solana.Prelude.{ℕ, ◌*◌, ◌/◌, ◌^◌, Bool, true, false}

-- `Factor` is u128. Of the flags the two that exist are fields of their own.
pub record MarketConfig : Type 0 where
  pub skip_borrowing_fee_for_smaller_side : Bool
  pub ignore_open_interest_for_usage_factor : Bool
  pub swap_impact_exponent : ℕ
  pub swap_impact_positive_factor : ℕ
  pub swap_impact_negative_factor : ℕ
  pub swap_fee_receiver_factor : ℕ
  pub swap_fee_factor_for_positive_impact : ℕ
  pub swap_fee_factor_for_negative_impact : ℕ
  pub min_position_size_usd : ℕ
  pub min_collateral_value : ℕ
  pub min_collateral_factor : ℕ
  pub min_collateral_factor_for_open_interest_multiplier_for_long : ℕ
  pub min_collateral_factor_for_open_interest_multiplier_for_short : ℕ
  pub max_positive_position_impact_factor : ℕ
  pub max_negative_position_impact_factor : ℕ
  pub max_position_impact_factor_for_liquidations : ℕ
  pub position_impact_exponent : ℕ
  pub position_impact_positive_factor : ℕ
  pub position_impact_negative_factor : ℕ
  pub order_fee_receiver_factor : ℕ
  pub order_fee_factor_for_positive_impact : ℕ
  pub order_fee_factor_for_negative_impact : ℕ
  pub liquidation_fee_receiver_factor : ℕ
  pub liquidation_fee_factor : ℕ
  pub position_impact_distribute_factor : ℕ
  pub min_position_impact_pool_amount : ℕ
  pub borrowing_fee_receiver_factor : ℕ
  pub borrowing_fee_factor_for_long : ℕ
  pub borrowing_fee_factor_for_short : ℕ
  pub borrowing_fee_exponent_for_long : ℕ
  pub borrowing_fee_exponent_for_short : ℕ
  pub borrowing_fee_optimal_usage_factor_for_long : ℕ
  pub borrowing_fee_optimal_usage_factor_for_short : ℕ
  pub borrowing_fee_base_factor_for_long : ℕ
  pub borrowing_fee_base_factor_for_short : ℕ
  pub borrowing_fee_above_optimal_usage_factor_for_long : ℕ
  pub borrowing_fee_above_optimal_usage_factor_for_short : ℕ
  pub funding_fee_exponent : ℕ
  pub funding_fee_factor : ℕ
  pub funding_fee_max_factor_per_second : ℕ
  pub funding_fee_min_factor_per_second : ℕ
  pub funding_fee_increase_factor_per_second : ℕ
  pub funding_fee_decrease_factor_per_second : ℕ
  pub funding_fee_threshold_for_stable_funding : ℕ
  pub funding_fee_threshold_for_decrease_funding : ℕ
  pub reserve_factor : ℕ
  pub open_interest_reserve_factor : ℕ
  pub max_pnl_factor_for_long_deposit : ℕ
  pub max_pnl_factor_for_short_deposit : ℕ
  pub max_pnl_factor_for_long_withdrawal : ℕ
  pub max_pnl_factor_for_short_withdrawal : ℕ
  pub max_pnl_factor_for_long_trader : ℕ
  pub max_pnl_factor_for_short_trader : ℕ
  pub max_pnl_factor_for_long_adl : ℕ
  pub max_pnl_factor_for_short_adl : ℕ
  pub min_pnl_factor_after_long_adl : ℕ
  pub min_pnl_factor_after_short_adl : ℕ
  pub max_pool_amount_for_long_token : ℕ
  pub max_pool_amount_for_short_token : ℕ
  pub max_pool_value_for_deposit_for_long_token : ℕ
  pub max_pool_value_for_deposit_for_short_token : ℕ
  pub max_open_interest_for_long : ℕ
  pub max_open_interest_for_short : ℕ
  pub min_tokens_for_first_deposit : ℕ

abbrev pub market_usd_unit : ℕ
market_usd_unit = 10 ^ 20

abbrev seconds_per_year : ℕ
seconds_per_year = 3600 * 24 * 365

abbrev pub default_swap_impact_exponent : ℕ
default_swap_impact_exponent = market_usd_unit

abbrev pub default_swap_impact_positive_factor : ℕ
default_swap_impact_positive_factor = 0

abbrev pub default_swap_impact_negative_factor : ℕ
default_swap_impact_negative_factor = 0

abbrev pub default_receiver_factor : ℕ
default_receiver_factor = 70_000_000_000_000_000_000

abbrev pub default_swap_fee_factor_for_positive_impact : ℕ
default_swap_fee_factor_for_positive_impact = 0

abbrev pub default_swap_fee_factor_for_negative_impact : ℕ
default_swap_fee_factor_for_negative_impact = 0

abbrev pub default_min_position_size_usd : ℕ
default_min_position_size_usd = market_usd_unit

abbrev pub default_min_collateral_value : ℕ
default_min_collateral_value = market_usd_unit

abbrev pub default_min_collateral_factor : ℕ
default_min_collateral_factor = market_usd_unit / 100

abbrev pub default_min_collateral_factor_for_open_interest_for_long : ℕ
default_min_collateral_factor_for_open_interest_for_long = 380_000_000_000

abbrev pub default_min_collateral_factor_for_open_interest_for_short : ℕ
default_min_collateral_factor_for_open_interest_for_short = 380_000_000_000

abbrev pub default_max_positive_position_impact_factor : ℕ
default_max_positive_position_impact_factor = 500_000_000_000_000_000

abbrev pub default_max_negative_position_impact_factor : ℕ
default_max_negative_position_impact_factor = 500_000_000_000_000_000

abbrev pub default_max_position_impact_factor_for_liquidations : ℕ
default_max_position_impact_factor_for_liquidations = 0

abbrev pub default_position_impact_exponent : ℕ
default_position_impact_exponent = 2 * market_usd_unit

abbrev pub default_position_impact_positive_factor : ℕ
default_position_impact_positive_factor = 10_000_000_000_000

abbrev pub default_position_impact_negative_factor : ℕ
default_position_impact_negative_factor = 20_000_000_000_000

abbrev pub default_order_fee_factor_for_positive_impact : ℕ
default_order_fee_factor_for_positive_impact = 50_000_000_000_000_000

abbrev pub default_order_fee_factor_for_negative_impact : ℕ
default_order_fee_factor_for_negative_impact = 70_000_000_000_000_000

abbrev pub default_liquidation_fee_factor : ℕ
default_liquidation_fee_factor = 20 * market_usd_unit / 10_000

abbrev pub default_position_impact_distribute_factor : ℕ
default_position_impact_distribute_factor = 230_000_000_000_000_000

abbrev pub default_min_position_impact_pool_amount : ℕ
default_min_position_impact_pool_amount = 1_500_000_000

abbrev pub default_borrowing_fee_factor_for_long : ℕ
default_borrowing_fee_factor_for_long = 2_780_000_000_000

abbrev pub default_borrowing_fee_factor_for_short : ℕ
default_borrowing_fee_factor_for_short = 2_780_000_000_000

abbrev pub default_borrowing_fee_exponent_for_long : ℕ
default_borrowing_fee_exponent_for_long = market_usd_unit

abbrev pub default_borrowing_fee_exponent_for_short : ℕ
default_borrowing_fee_exponent_for_short = market_usd_unit

abbrev pub default_borrowing_fee_optimal_usage_factor_for_long : ℕ
default_borrowing_fee_optimal_usage_factor_for_long = 75 * market_usd_unit / 100

abbrev pub default_borrowing_fee_optimal_usage_factor_for_short : ℕ
default_borrowing_fee_optimal_usage_factor_for_short = 75 * market_usd_unit / 100

abbrev pub default_borrowing_fee_base_factor_for_long : ℕ
default_borrowing_fee_base_factor_for_long = 60 * market_usd_unit / 100 / seconds_per_year

abbrev pub default_borrowing_fee_base_factor_for_short : ℕ
default_borrowing_fee_base_factor_for_short = 60 * market_usd_unit / 100 / seconds_per_year

abbrev pub default_borrowing_fee_above_optimal_usage_factor_for_long : ℕ
default_borrowing_fee_above_optimal_usage_factor_for_long =
    150 * market_usd_unit / 100 / seconds_per_year

abbrev pub default_borrowing_fee_above_optimal_usage_factor_for_short : ℕ
default_borrowing_fee_above_optimal_usage_factor_for_short =
    150 * market_usd_unit / 100 / seconds_per_year

abbrev pub default_funding_fee_exponent : ℕ
default_funding_fee_exponent = market_usd_unit

abbrev pub default_funding_fee_factor : ℕ
default_funding_fee_factor = 2_000_000_000_000

abbrev pub default_funding_fee_max_factor_per_second : ℕ
default_funding_fee_max_factor_per_second = 1_500_000_000_000

abbrev pub default_funding_fee_min_factor_per_second : ℕ
default_funding_fee_min_factor_per_second = 30_000_000_000

abbrev pub default_funding_fee_increase_factor_per_second : ℕ
default_funding_fee_increase_factor_per_second = 116_000_000

abbrev pub default_funding_fee_decrease_factor_per_second : ℕ
default_funding_fee_decrease_factor_per_second = 0

abbrev pub default_funding_fee_threshold_for_stable_funding : ℕ
default_funding_fee_threshold_for_stable_funding = 5_000_000_000_000_000_000

abbrev pub default_funding_fee_threshold_for_decrease_funding : ℕ
default_funding_fee_threshold_for_decrease_funding = 0

abbrev pub default_open_interest_reserve_factor : ℕ
default_open_interest_reserve_factor = 45_000_000_000_000_000_000

abbrev pub default_max_pnl_factor_for_long_deposit : ℕ
default_max_pnl_factor_for_long_deposit = 60_000_000_000_000_000_000

abbrev pub default_max_pnl_factor_for_short_deposit : ℕ
default_max_pnl_factor_for_short_deposit = 60_000_000_000_000_000_000

abbrev pub default_max_pnl_factor_for_long_withdrawal : ℕ
default_max_pnl_factor_for_long_withdrawal = 60_000_000_000_000_000_000

abbrev pub default_max_pnl_factor_for_short_withdrawal : ℕ
default_max_pnl_factor_for_short_withdrawal = 60_000_000_000_000_000_000

abbrev pub default_max_pnl_factor_for_long_trader : ℕ
default_max_pnl_factor_for_long_trader = 60_000_000_000_000_000_000

abbrev pub default_max_pnl_factor_for_short_trader : ℕ
default_max_pnl_factor_for_short_trader = 60_000_000_000_000_000_000

abbrev pub default_max_pnl_factor_for_long_adl : ℕ
default_max_pnl_factor_for_long_adl = 55_000_000_000_000_000_000

abbrev pub default_max_pnl_factor_for_short_adl : ℕ
default_max_pnl_factor_for_short_adl = 55_000_000_000_000_000_000

abbrev pub default_min_pnl_factor_after_long_adl : ℕ
default_min_pnl_factor_after_long_adl = 50_000_000_000_000_000_000

abbrev pub default_min_pnl_factor_after_short_adl : ℕ
default_min_pnl_factor_after_short_adl = 50_000_000_000_000_000_000

abbrev pub default_max_pool_amount_for_long_token : ℕ
default_max_pool_amount_for_long_token = 900_000_000_000

abbrev pub default_max_pool_amount_for_short_token : ℕ
default_max_pool_amount_for_short_token = 900_000_000_000

abbrev pub default_max_pool_value_for_deposit_long_token : ℕ
default_max_pool_value_for_deposit_long_token = 750_000 * market_usd_unit

abbrev pub default_max_pool_value_for_deposit_short_token : ℕ
default_max_pool_value_for_deposit_short_token = 750_000 * market_usd_unit

abbrev pub default_max_open_interest_for_long : ℕ
default_max_open_interest_for_long = 450_000 * market_usd_unit

abbrev pub default_max_open_interest_for_short : ℕ
default_max_open_interest_for_short = 450_000 * market_usd_unit

abbrev pub default_min_tokens_for_first_deposit : ℕ
default_min_tokens_for_first_deposit = 0

abbrev pub default_reserve_factor : ℕ
default_reserve_factor = 50_000_000_000_000_000_000

-- `MarketConfig::init`. The positive factor of the swap impact is assigned twice, and the negative one
-- never: it keeps the value that it had.
unfoldable pub init : MarketConfig → MarketConfig
init c = record c {
  skip_borrowing_fee_for_smaller_side = true;
  ignore_open_interest_for_usage_factor = false;
  swap_impact_exponent = default_swap_impact_exponent;
  swap_impact_positive_factor = default_swap_impact_negative_factor;
  swap_fee_receiver_factor = default_receiver_factor;
  swap_fee_factor_for_positive_impact = default_swap_fee_factor_for_positive_impact;
  swap_fee_factor_for_negative_impact = default_swap_fee_factor_for_negative_impact;
  min_position_size_usd = default_min_position_size_usd;
  min_collateral_value = default_min_collateral_value;
  min_collateral_factor = default_min_collateral_factor;
  min_collateral_factor_for_open_interest_multiplier_for_long =
      default_min_collateral_factor_for_open_interest_for_long;
  min_collateral_factor_for_open_interest_multiplier_for_short =
      default_min_collateral_factor_for_open_interest_for_short;
  max_positive_position_impact_factor = default_max_positive_position_impact_factor;
  max_negative_position_impact_factor = default_max_negative_position_impact_factor;
  max_position_impact_factor_for_liquidations = default_max_position_impact_factor_for_liquidations;
  position_impact_exponent = default_position_impact_exponent;
  position_impact_positive_factor = default_position_impact_positive_factor;
  position_impact_negative_factor = default_position_impact_negative_factor;
  order_fee_receiver_factor = default_receiver_factor;
  order_fee_factor_for_positive_impact = default_order_fee_factor_for_positive_impact;
  order_fee_factor_for_negative_impact = default_order_fee_factor_for_negative_impact;
  liquidation_fee_receiver_factor = default_receiver_factor;
  liquidation_fee_factor = default_liquidation_fee_factor;
  position_impact_distribute_factor = default_position_impact_distribute_factor;
  min_position_impact_pool_amount = default_min_position_impact_pool_amount;
  borrowing_fee_receiver_factor = default_receiver_factor;
  borrowing_fee_factor_for_long = default_borrowing_fee_factor_for_long;
  borrowing_fee_factor_for_short = default_borrowing_fee_factor_for_short;
  borrowing_fee_exponent_for_long = default_borrowing_fee_exponent_for_long;
  borrowing_fee_exponent_for_short = default_borrowing_fee_exponent_for_short;
  borrowing_fee_optimal_usage_factor_for_long = default_borrowing_fee_optimal_usage_factor_for_long;
  borrowing_fee_optimal_usage_factor_for_short =
      default_borrowing_fee_optimal_usage_factor_for_short;
  borrowing_fee_base_factor_for_long = default_borrowing_fee_base_factor_for_long;
  borrowing_fee_base_factor_for_short = default_borrowing_fee_base_factor_for_short;
  borrowing_fee_above_optimal_usage_factor_for_long =
      default_borrowing_fee_above_optimal_usage_factor_for_long;
  borrowing_fee_above_optimal_usage_factor_for_short =
      default_borrowing_fee_above_optimal_usage_factor_for_short;
  funding_fee_exponent = default_funding_fee_exponent;
  funding_fee_factor = default_funding_fee_factor;
  funding_fee_max_factor_per_second = default_funding_fee_max_factor_per_second;
  funding_fee_min_factor_per_second = default_funding_fee_min_factor_per_second;
  funding_fee_increase_factor_per_second = default_funding_fee_increase_factor_per_second;
  funding_fee_decrease_factor_per_second = default_funding_fee_decrease_factor_per_second;
  funding_fee_threshold_for_stable_funding = default_funding_fee_threshold_for_stable_funding;
  funding_fee_threshold_for_decrease_funding = default_funding_fee_threshold_for_decrease_funding;
  reserve_factor = default_receiver_factor;
  open_interest_reserve_factor = default_open_interest_reserve_factor;
  max_pnl_factor_for_long_deposit = default_max_pnl_factor_for_long_deposit;
  max_pnl_factor_for_short_deposit = default_max_pnl_factor_for_short_deposit;
  max_pnl_factor_for_long_withdrawal = default_max_pnl_factor_for_long_withdrawal;
  max_pnl_factor_for_short_withdrawal = default_max_pnl_factor_for_short_withdrawal;
  max_pnl_factor_for_long_trader = default_max_pnl_factor_for_long_trader;
  max_pnl_factor_for_short_trader = default_max_pnl_factor_for_short_trader;
  max_pnl_factor_for_long_adl = default_max_pnl_factor_for_long_adl;
  max_pnl_factor_for_short_adl = default_max_pnl_factor_for_short_adl;
  min_pnl_factor_after_long_adl = default_min_pnl_factor_after_long_adl;
  min_pnl_factor_after_short_adl = default_min_pnl_factor_after_short_adl;
  max_pool_amount_for_long_token = default_max_pool_amount_for_long_token;
  max_pool_amount_for_short_token = default_max_pool_amount_for_short_token;
  max_pool_value_for_deposit_for_long_token = default_max_pool_value_for_deposit_long_token;
  max_pool_value_for_deposit_for_short_token = default_max_pool_value_for_deposit_short_token;
  max_open_interest_for_long = default_max_open_interest_for_long;
  max_open_interest_for_short = default_max_open_interest_for_short;
  min_tokens_for_first_deposit = default_min_tokens_for_first_deposit;
}
