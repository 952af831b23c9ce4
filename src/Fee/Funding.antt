-- ===== src/Fee/Funding.antt =====
-- `FundingFeeParams` and the direction in which the funding rate changes.
use gmx_solana.Prelude.{ℕ, Bool, ◌&&◌, ◌||◌, ltb, if◌then◌else◌}
use gmx_solana.Prelude.Int.{ℤ, is_positive, is_negative}

pub record FundingFeeParams : Type 0 where
  pub exponent : ℕ
  pub funding_factor : ℕ
  pub increase_factor_per_second : ℕ
  pub decrease_factor_per_second : ℕ
  pub max_factor_per_second : ℕ
  pub min_factor_per_second : ℕ
  pub threshold_for_stable_funding : ℕ
  pub threshold_for_decrease_funding : ℕ

pub data FundingRateChangeType : Type 0 where
  no_change increase decrease : FundingRateChangeType

unfoldable pub is_skew_the_same_direction_as_funding : ℤ → ℕ → ℕ → Bool
is_skew_the_same_direction_as_funding funding_factor_per_second long_open_interest
      short_open_interest =
    (is_positive funding_factor_per_second && ltb short_open_interest long_open_interest)
    || (is_negative funding_factor_per_second && ltb long_open_interest short_open_interest)

unfoldable pub change : FundingFeeParams → ℤ → ℕ → ℕ → ℕ → FundingRateChangeType
unfolding is_skew_the_same_direction_as_funding
change p funding_factor_per_second long_open_interest short_open_interest diff_factor =
    if is_skew_the_same_direction_as_funding funding_factor_per_second long_open_interest
      short_open_interest
    then (if ltb p.threshold_for_stable_funding diff_factor
        then FundingRateChangeType.increase
        else if ltb diff_factor p.threshold_for_decrease_funding
        then FundingRateChangeType.decrease
        else FundingRateChangeType.no_change)
    else FundingRateChangeType.increase
