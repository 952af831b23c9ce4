-- ===== src/Action/UpdateFunding/Rate.antt =====
-- The next funding factor per second.
use gmx_solana.Prelude.{ℕ, Bool, true, false, ◌&&◌, ltb, leb, ◌==◌, if◌then◌else◌}
use gmx_solana.Prelude.Int.{ℤ, pos, abs, is_positive, is_negative}
use gmx_solana.Prelude.Maybe.{◌>>=◌ as ◌and_then◌}
use gmx_solana.Result.{Result, ok, Error, ok_or, err_if, ◌>>=◌, ◌>>◌}
use gmx_solana.Num.{
  FixedPointOps, narrow, checked_add, checked_sub, checked_mul, diff, to_signed, to_opposite_signed,
  signed_add, signed_div, bound_magnitude,
}
use gmx_solana.Utils.{apply_exponent_factor, apply_factor, div_to_factor}
use gmx_solana.Fee.{FundingFeeParams, FundingRateChangeType, change}
use gmx_solana.Market.State.{Market}
use gmx_solana.Market.Perp.{funding_fee_params}

module _ ⦃n : FixedPointOps⦄ where
  -- The branch for a rate that has no increase factor.
  unfoldable pub fallback_factor : FundingFeeParams → ℕ → ℕ → ℕ → Result (ℕ × Bool × ℤ)
  fallback_factor params diff_factor long_open_interest short_open_interest = do
    uncapped ←
        ok_or (apply_factor diff_factor params.funding_factor)
          (Error.computation "calculating fallback funding factor per second")
    ok (
      if ltb params.max_factor_per_second uncapped then params.max_factor_per_second else uncapped,
      ltb short_open_interest long_open_interest,
      pos 0,
    )

  unfoldable pub increased : FundingFeeParams → ℤ → ℕ → ℕ → ℕ → ℕ → Result ℤ
  increased params factor diff_factor long_open_interest short_open_interest duration_value = do
    increase_value ←
        ok_or
          (◌and_then◌ (apply_factor diff_factor params.increase_factor_per_second)
            (λ v. checked_mul v duration_value))
          (Error.computation "calculating factor increase value")
    signed_value ←
        if ltb long_open_interest short_open_interest
        then to_opposite_signed increase_value
        else to_signed increase_value
    ok_or (signed_add factor signed_value) (Error.computation "increasing funding factor")

  unfoldable pub decreased : FundingFeeParams → ℤ → ℕ → Result ℤ
  decreased params factor duration_value = do
    decrease_value ←
        ok_or (checked_mul params.decrease_factor_per_second duration_value)
          (Error.computation "calculating factor decrease value")
    if leb (abs factor) decrease_value
        then (do
          magnitude ← to_signed (abs factor)
          ok_or (signed_div factor magnitude) (Error.computation "calculating signum"))
        else (do
          less ←
              ok_or (checked_sub (abs factor) decrease_value)
                (Error.computation "calculating decreased funding factor per second (infallible)")
          if is_negative factor then to_opposite_signed less else to_signed less)

  -- The factor after the change that the skew asks for, before it is bounded.
  unfoldable pub changed : FundingFeeParams → FundingRateChangeType → ℤ → ℕ → ℕ → ℕ → ℕ → Result ℤ
  unfolding increased decreased
  changed params FundingRateChangeType.increase factor diff_factor long short duration_value =
      increased params factor diff_factor long short duration_value
  changed params FundingRateChangeType.decrease factor diff_factor long short duration_value =
      if abs factor == 0 then ok factor else decreased params factor duration_value
  changed params FundingRateChangeType.no_change factor diff_factor long short duration_value =
      ok factor

  unfoldable pub adaptive_factor : FundingFeeParams → ℤ → ℕ → ℕ → ℕ → ℕ → Result (ℕ × Bool × ℤ)
  unfolding changed
  adaptive_factor params factor diff_factor long short duration_in_seconds = do
    duration_value ← ok_or (narrow duration_in_seconds) Error.convert
    next ←
        changed params (change params factor long short diff_factor) factor diff_factor long short
          duration_value
    bounded ← bound_magnitude next 0 params.max_factor_per_second
    with_min ← bound_magnitude bounded params.min_factor_per_second params.max_factor_per_second
    ok (abs with_min, is_positive with_min, bounded)

  -- The factor per second, whether longs pay shorts, and the factor to store.
  unfoldable pub next_funding_factor_per_second : Market → ℕ → ℕ → ℕ → Result (ℕ × Bool × ℤ)
  unfolding fallback_factor adaptive_factor
  next_funding_factor_per_second m duration_in_seconds long short =
      if diff long short == 0 && (funding_fee_params m).increase_factor_per_second == 0
      then ok (0, true, pos 0)
      else (do
        total_open_interest ←
            ok_or (checked_add long short) (Error.computation "calculating total open interest")
        err_if (total_open_interest == 0) Error.unable_to_get_funding_factor_empty_open_interest
        after_exponent ←
            ok_or (apply_exponent_factor (diff long short) (funding_fee_params m).exponent)
              (Error.computation "applying exponent factor to diff value")
        diff_factor ←
            ok_or (div_to_factor after_exponent total_open_interest false)
              (Error.computation "calculating diff value to open interest factor")
        if (funding_fee_params m).increase_factor_per_second == 0
            then fallback_factor (funding_fee_params m) diff_factor long short
            else adaptive_factor (funding_fee_params m) m.funding_factor_per_second diff_factor long
                short duration_in_seconds)
