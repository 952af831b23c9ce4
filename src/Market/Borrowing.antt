-- ===== src/Market/Borrowing.antt =====
-- `BorrowingFeeMarketExt` of crates/gmsol-model/src/market/borrowing.rs, and the kink model of
-- params/fee.rs.
use gmx_solana.Prelude.{
  ℕ, Bool, true, false, not, ◌&&◌, ◌||◌, Option, none, some, ltb, ◌==◌, if◌then◌else◌,
}
use gmx_solana.Prelude.Maybe.{◌>>=◌ as ◌and_then◌}
use gmx_solana.Result.{Result, ok, err, Error, ok_or, ◌>>=◌}
use gmx_solana.Num.{FixedPointOps, checked_add, checked_sub, checked_mul, checked_mul_div, narrow}
use gmx_solana.Utils.{apply_factor, apply_exponent_factor, div_to_factor}
use gmx_solana.Price.{Prices}
use gmx_solana.Pool.{amount, balance_amount}
use gmx_solana.Market.State.{
  Market, BorrowingFeeParams, borrowing_fee_params, BorrowingFeeKinkModelParamsForOneSide,
  kink_params,
}
use gmx_solana.Market.Clock.{passed_in_seconds}
use gmx_solana.Market.Base.{
  reserved_value, open_interest, pool_value_without_pnl_for_one_side, usage_factor,
}
pub mod Kink
pub mod Growth

-- `BorrowingFeeParams::exponent` and `factor`.
unfoldable pub exponent : BorrowingFeeParams → Bool → ℕ
exponent p is_long = if is_long then p.exponent_for_long else p.exponent_for_short

unfoldable pub factor : BorrowingFeeParams → Bool → ℕ
factor p is_long = if is_long then p.factor_for_long else p.factor_for_short

unfoldable pub cumulative_borrowing_factor : Market → Bool → ℕ
cumulative_borrowing_factor m is_long = amount m.pools.borrowing_factor is_long

module _ ⦃n : FixedPointOps⦄ where
  open n use {unit}

  -- The part of the kink model that follows the usage factor.
  unfoldable pub kink_factor : BorrowingFeeKinkModelParamsForOneSide → ℕ → Result ℕ
  kink_factor p usage = do
    base ←
        ok_or (apply_factor usage p.base_borrowing_factor)
          (Error.computation "borrowing fee kink model: calculating borrowing factor per second")
    if ltb p.optimal_usage_factor usage && ltb p.optimal_usage_factor unit
        then (do
          diff ←
              ok_or (checked_sub usage p.optimal_usage_factor)
                (Error.computation "borrowing fee kink model: calculating diff")
          additional ←
              if ltb p.base_borrowing_factor p.above_optimal_usage_borrowing_factor
              then ok_or
                  (checked_sub p.above_optimal_usage_borrowing_factor p.base_borrowing_factor)
                  (Error.computation "borrowing fee kink model: calculating additional factor")
              else ok 0
          divisor ←
              ok_or (checked_sub unit p.optimal_usage_factor)
                (Error.computation "borrowing fee kink model: calculating divisor")
          ok_or (◌and_then◌ (checked_mul_div additional diff divisor) (λ a. checked_add base a)) (
              Error.computation "borrowing fee kink model: increasing borrowing factor per second"))
        else ok base

  -- `BorrowingFeeKinkModelParams::borrowing_factor_per_second`: `none` if the model is not in use.
  unfoldable pub kink_borrowing_factor_per_second : Market → Bool → ℕ → ℕ → Result (Option ℕ)
  kink_borrowing_factor_per_second m is_long reserved pool_value =
      if (kink_params m is_long).optimal_usage_factor == 0 then ok none else (do
        usage ← usage_factor m is_long reserved pool_value
        f ← kink_factor (kink_params m is_long) usage
        ok (some f))

  -- Without the kink model: reserved value to the exponent, by the pool value, times the factor.
  unfoldable pub power_borrowing_factor_per_second : Market → Bool → ℕ → ℕ → Result ℕ
  power_borrowing_factor_per_second m is_long reserved pool_value = do
    powered ←
        ok_or (apply_exponent_factor reserved (exponent (borrowing_fee_params m) is_long))
          (Error.computation "calculating reserved value after exponent")
    to_pool ←
        ok_or (div_to_factor powered pool_value false)
          (Error.computation "calculating reserved value to pool factor")
    ok_or (apply_factor to_pool (factor (borrowing_fee_params m) is_long))
        (Error.computation "calculating borrowing factor per second")

  -- `if let Some(factor) = … { Ok(factor) } else { … }`.
  abbrev or_else : Option ℕ → Result ℕ → Result ℕ
  or_else none m = m
  or_else (some f) m = ok f

  -- What follows the test for the smaller side.
  unfoldable pub borrowing_factor_of_side : Market → Bool → Prices → ℕ → Result ℕ
  borrowing_factor_of_side m is_long prices reserved = do
    pool_value ← pool_value_without_pnl_for_one_side m prices is_long false
    if pool_value == 0 then err Error.unable_to_get_borrowing_factor_empty_pool_value else (do
      f ← kink_borrowing_factor_per_second m is_long reserved pool_value
      or_else f (power_borrowing_factor_per_second m is_long reserved pool_value))

  unfoldable pub borrowing_factor_per_second : Market → Bool → Prices → Result ℕ
  borrowing_factor_per_second m is_long prices = do
    reserved ← reserved_value m prices.index_token_price is_long
    if reserved == 0
        then ok 0
        else if (borrowing_fee_params m).skip_borrowing_fee_for_smaller_side
        then (do
          long_interest ← balance_amount (open_interest m) true
          short_interest ← balance_amount (open_interest m) false
          if is_long && ltb long_interest short_interest
                || not is_long && ltb short_interest long_interest
              then ok 0
              else borrowing_factor_of_side m is_long prices reserved)
        else borrowing_factor_of_side m is_long prices reserved

  -- The next factor, and by how much it grows.
  unfoldable pub next_cumulative_borrowing_factor : Market → Bool → Prices → ℕ → Result (ℕ × ℕ)
  next_cumulative_borrowing_factor m is_long prices duration_in_second = do
    per_second ← borrowing_factor_per_second m is_long prices
    duration_value ← ok_or (narrow duration_in_second) Error.convert
    delta ←
        ok_or (checked_mul per_second duration_value)
          (Error.computation "calculating borrowing factor delta")
    next ←
        ok_or (checked_add (cumulative_borrowing_factor m is_long) delta)
          (Error.computation "calculating next borrowing factor")
    ok (next, delta)

  unfoldable pub total_pending_borrowing_fees : Market → Prices → Bool → Result ℕ
  total_pending_borrowing_fees m prices is_long = do
    interest ← balance_amount (open_interest m) is_long
    let duration = passed_in_seconds m.unix_timestamp m.clocks.borrowing
    (next, _) ← next_cumulative_borrowing_factor m is_long prices duration
    ok_or
        (◌and_then◌ (apply_factor interest next)
          (λ total. checked_sub total (amount m.pools.total_borrowing is_long)))
        (Error.computation "calculating total pending borrowing fees")
