-- ===== src/Tests.antt =====
-- A market at work: the concrete runs of the actions, in crates/gmsol-model/src.
use gmx_solana.Prelude.{ℕ, ◌^◌, ◌*◌, Bool, true, false, none, Option, refl, ◌≡◌}
use gmx_solana.Prelude.Int.{ℤ, pos}
use gmx_solana.Num.{FixedPointOps}
use gmx_solana.Fixed.{u128_d20}
use gmx_solana.Price.{Price, Prices}
use gmx_solana.Pool.{Pool}
use gmx_solana.Market.Config.{MarketConfig}
use gmx_solana.Market.Pools.{Pools}
use gmx_solana.Market.State.{Market, Clocks}
use gmx_solana.Action.Holdings.{IsTwoSided}
pub mod Numbers
pub mod Parts
pub mod Impact
pub mod Supply
pub mod Time
pub mod Swap
pub mod Solvency
pub mod Deposit
pub mod Withdraw
pub mod Utilities
pub mod Funding
pub mod Positions
pub mod Payments

-- The numbers of the program, with no fractional power.
abbrev pub u128 : FixedPointOps
u128 = u128_d20 (λ base exponent. none)

abbrev pub zero_config : MarketConfig
zero_config = record {
  skip_borrowing_fee_for_smaller_side = false;
  ignore_open_interest_for_usage_factor = false;
  swap_impact_exponent = 0;
  swap_impact_positive_factor = 0;
  swap_impact_negative_factor = 0;
  swap_fee_receiver_factor = 0;
  swap_fee_factor_for_positive_impact = 0;
  swap_fee_factor_for_negative_impact = 0;
  min_position_size_usd = 0;
  min_collateral_value = 0;
  min_collateral_factor = 0;
  min_collateral_factor_for_open_interest_multiplier_for_long = 0;
  min_collateral_factor_for_open_interest_multiplier_for_short = 0;
  max_positive_position_impact_factor = 0;
  max_negative_position_impact_factor = 0;
  max_position_impact_factor_for_liquidations = 0;
  position_impact_exponent = 0;
  position_impact_positive_factor = 0;
  position_impact_negative_factor = 0;
  order_fee_receiver_factor = 0;
  order_fee_factor_for_positive_impact = 0;
  order_fee_factor_for_negative_impact = 0;
  liquidation_fee_receiver_factor = 0;
  liquidation_fee_factor = 0;
  position_impact_distribute_factor = 0;
  min_position_impact_pool_amount = 0;
  borrowing_fee_receiver_factor = 0;
  borrowing_fee_factor_for_long = 0;
  borrowing_fee_factor_for_short = 0;
  borrowing_fee_exponent_for_long = 0;
  borrowing_fee_exponent_for_short = 0;
  borrowing_fee_optimal_usage_factor_for_long = 0;
  borrowing_fee_optimal_usage_factor_for_short = 0;
  borrowing_fee_base_factor_for_long = 0;
  borrowing_fee_base_factor_for_short = 0;
  borrowing_fee_above_optimal_usage_factor_for_long = 0;
  borrowing_fee_above_optimal_usage_factor_for_short = 0;
  funding_fee_exponent = 0;
  funding_fee_factor = 0;
  funding_fee_max_factor_per_second = 0;
  funding_fee_min_factor_per_second = 0;
  funding_fee_increase_factor_per_second = 0;
  funding_fee_decrease_factor_per_second = 0;
  funding_fee_threshold_for_stable_funding = 0;
  funding_fee_threshold_for_decrease_funding = 0;
  reserve_factor = 0;
  open_interest_reserve_factor = 0;
  max_pnl_factor_for_long_deposit = 0;
  max_pnl_factor_for_short_deposit = 0;
  max_pnl_factor_for_long_withdrawal = 0;
  max_pnl_factor_for_short_withdrawal = 0;
  max_pnl_factor_for_long_trader = 0;
  max_pnl_factor_for_short_trader = 0;
  max_pnl_factor_for_long_adl = 0;
  max_pnl_factor_for_short_adl = 0;
  min_pnl_factor_after_long_adl = 0;
  min_pnl_factor_after_short_adl = 0;
  max_pool_amount_for_long_token = 0;
  max_pool_amount_for_short_token = 0;
  max_pool_value_for_deposit_for_long_token = 0;
  max_pool_value_for_deposit_for_short_token = 0;
  max_open_interest_for_long = 0;
  max_open_interest_for_short = 0;
  min_tokens_for_first_deposit = 0;
}

abbrev pub pool : ℕ → ℕ → Pool
pool long short = record { is_pure = 0; long_token_amount = long; short_token_amount = short }

abbrev pub price : ℕ → Price
price p = record { min = p; max = p }

-- A token of 9 decimals at 150, and one of 6 decimals at 1.
abbrev pub prices : Prices
prices = record {
  index_token_price = price (150 * 10 ^ 11);
  long_token_price = price (150 * 10 ^ 11);
  short_token_price = price (10 ^ 14);
}

abbrev pub pools : Pools
pools = record {
  primary = pool (100 * 10 ^ 9) (10000 * 10 ^ 6);
  swap_impact = pool 0 (20 * 10 ^ 6);
  claimable_fee = pool 0 0;
  open_interest_for_long = pool 0 0;
  open_interest_for_short = pool 0 0;
  open_interest_in_tokens_for_long = pool 0 0;
  open_interest_in_tokens_for_short = pool 0 0;
  position_impact = pool (10 ^ 6) 0;
  borrowing_factor = pool 0 0;
  funding_amount_per_size_for_long = pool 0 0;
  funding_amount_per_size_for_short = pool 0 0;
  claimable_funding_amount_per_size_for_long = pool 0 0;
  claimable_funding_amount_per_size_for_short = pool 0 0;
  collateral_sum_for_long = pool 0 0;
  collateral_sum_for_short = pool 0 0;
  total_borrowing = pool 0 0;
}

abbrev pub clocks : Clocks
clocks = record {
  price_impact_distribution = pos 0;
  borrowing = pos 0;
  funding = pos 0;
  adl_for_long = pos 0;
  adl_for_short = pos 0;
}

-- A market with a price impact and fees: 1% of fees, of which the receiver takes 30%.
abbrev pub market : Market
market = record {
  config = record zero_config {
    swap_impact_exponent = 2 * 10 ^ 20;
    swap_impact_positive_factor = 10 ^ 13;
    swap_impact_negative_factor = 2 * 10 ^ 13;
    swap_fee_receiver_factor = 30 * 10 ^ 18;
    swap_fee_factor_for_positive_impact = 10 ^ 18;
    swap_fee_factor_for_negative_impact = 10 ^ 18;
    max_pool_amount_for_long_token = 10 ^ 15;
    max_pool_amount_for_short_token = 10 ^ 15;
    max_pool_value_for_deposit_for_long_token = 10 ^ 30;
    max_pool_value_for_deposit_for_short_token = 10 ^ 30;
    reserve_factor = 10 ^ 20;
    open_interest_reserve_factor = 10 ^ 20;
    max_pnl_factor_for_long_deposit = 10 ^ 20;
    max_pnl_factor_for_short_deposit = 10 ^ 20;
    max_pnl_factor_for_long_withdrawal = 10 ^ 20;
    max_pnl_factor_for_short_withdrawal = 10 ^ 20;
    position_impact_distribute_factor = 10 ^ 21;
  };
  pools = pools;
  clocks = clocks;
  supply = 25000 * 10 ^ 9;
  to_mint = 0;
  to_burn = 0;
  funding_factor_per_second = pos 0;
  unix_timestamp = pos 100;
}

-- The market with its three pools, and its market tokens to mint and to burn.
abbrev pub market_with : Pool → Pool → Pool → ℕ → ℕ → Market
market_with primary swap_impact claimable_fee to_mint to_burn = record market {
  pools = record pools {
    primary = primary;
    swap_impact = swap_impact;
    claimable_fee = claimable_fee;
  };
  to_mint = to_mint;
  to_burn = to_burn;
}

pub market-IsTwoSided : IsTwoSided market
market-IsTwoSided = record { primary = refl; swap_impact = refl; claimable_fee = refl }
