-- ===== src/Action/UpdateFunding.antt =====
-- crates/gmsol-model/src/action/update_funding_state.rs: the action, and its report.
mod Packing
mod Rate
pub mod Payment
pub mod Bounds
pub mod Record
unfoldable pub use Packing.*
unfoldable pub use Rate.*
use gmx_solana.Prelude.{
  ℕ, ◌*◌, Bool, true, false, not, ◌&&◌, ◌||◌, Option, none, some, ltb, leb, ◌==◌, if◌then◌else◌,
}
use gmx_solana.Prelude.Int.{ℤ, pos, abs, is_positive, is_negative}
use gmx_solana.Prelude.Maybe.{◌>>=◌ as ◌and_then◌}
use gmx_solana.Result.{Result, ok, Error, ok_or, err_if, ◌>>=◌, ◌>>◌}
use gmx_solana.Num.{
  FixedPointOps, narrow, checked_add, checked_sub, checked_mul, checked_div, checked_mul_div,
  checked_mul_div_ceil, checked_round_up_div, diff, to_signed, to_opposite_signed, signed_add,
  signed_div, bound_magnitude,
}
use gmx_solana.Utils.{apply_exponent_factor, apply_factor, div_to_factor}
use gmx_solana.Price.{Price, Prices, pick_price, validate}
use gmx_solana.Pool.{amount, long_amount, short_amount, balance_amount}
use gmx_solana.Fee.{FundingFeeParams, FundingRateChangeType, change}
use gmx_solana.Market.State.{Market, open_interest_pool}
use gmx_solana.Market.Clock.{just_passed_in_seconds}
use gmx_solana.Market.Base.{open_interest}
use gmx_solana.Market.Perp.{
  funding_amount_per_size_adjustment, funding_fee_params, apply_delta_to_funding_amount_per_size,
  apply_delta_to_claimable_funding_amount_per_size,
}
use gmx_solana.Action.UpdateFunding.Packing.{
  Matrix, zeros, entry, set_entry, pack_to_funding_amount_per_size,
}
use gmx_solana.Action.UpdateFunding.Rate.{next_funding_factor_per_second}

pub record UpdateFundingReport : Type 0 where
  pub duration_in_seconds : ℕ
  pub next_funding_factor_per_second : ℤ
  pub delta_funding_amount_per_size : Matrix
  pub delta_claimable_funding_amount_per_size : Matrix

unfoldable pub empty : ℕ → UpdateFundingReport
empty duration_in_seconds = record {
  duration_in_seconds = duration_in_seconds;
  next_funding_factor_per_second = pos 0;
  delta_funding_amount_per_size = zeros;
  delta_claimable_funding_amount_per_size = zeros;
}

-- The market with its funding clock read and moved.
unfoldable pub move_clock : Market → Market × ℕ
move_clock m =
    let (seconds, clock) = just_passed_in_seconds m.unix_timestamp m.clocks.funding in
    (record m { clocks = record (m.clocks) { funding = clock } }, seconds)

module _ ⦃n : FixedPointOps⦄ where
  -- One round of the loop of `set_deltas`, for one side of the collateral.
  unfoldable pub set_deltas_for :
      Market → Prices → Bool → Bool → ℕ → ℕ → Matrix × Matrix → Result (Matrix × Matrix)
  unfolding set_entry pack_to_funding_amount_per_size
  set_deltas_for m prices longs_pay_shorts is_long_collateral funding_value receiver_interest r = do
    paid ←
        ok_or
          (pack_to_funding_amount_per_size funding_amount_per_size_adjustment funding_value
            (amount (open_interest_pool m longs_pay_shorts) is_long_collateral)
            (pick_price
              (if is_long_collateral then prices.long_token_price else prices.short_token_price)
              true)
            true)
          (Error.computation "calculating delta funding amount per size")
    received ←
        ok_or
          (pack_to_funding_amount_per_size funding_amount_per_size_adjustment funding_value
            receiver_interest
            (pick_price
              (if is_long_collateral then prices.long_token_price else prices.short_token_price)
              true)
            false)
          (Error.computation "calculating delta claimable funding amount per size")
    ok (
      set_entry longs_pay_shorts is_long_collateral paid r.0,
      set_entry (not longs_pay_shorts) is_long_collateral received r.1,
    )

  unfoldable pub set_deltas : Market → Prices → Bool → ℕ → ℕ → ℕ → Result (Matrix × Matrix)
  unfolding set_deltas_for
  set_deltas m prices longs_pay_shorts for_long for_short receiver_interest = do
    r ← set_deltas_for m prices longs_pay_shorts true for_long receiver_interest (zeros, zeros)
    set_deltas_for m prices longs_pay_shorts false for_short receiver_interest r

  -- The part of the funding value that falls to one side of the payers' collateral.
  unfoldable pub value_for_collateral : Market → Bool → Bool → ℕ → ℕ → Result ℕ
  value_for_collateral m longs_pay_shorts is_long_collateral funding_value payer_open_interest =
      ok_or
        (checked_mul_div funding_value
          (amount (open_interest_pool m longs_pay_shorts) is_long_collateral) payer_open_interest)
        (Error.computation (
          if is_long_collateral
          then "calculating funding value for long collateral"
          else "calculating funding value for short collateral"))

  unfoldable pub next_funding_amount_per_size : Market → Prices → ℕ → Result UpdateFundingReport
  unfolding empty next_funding_factor_per_second value_for_collateral set_deltas
  next_funding_amount_per_size m prices duration_in_seconds = do
    long ← balance_amount (open_interest m) true
    short ← balance_amount (open_interest m) false
    if long == 0 || short == 0 then ok (empty duration_in_seconds) else (do
      (factor_per_second, longs_pay_shorts, next_factor) ←
          next_funding_factor_per_second m duration_in_seconds long short
      duration_value ← ok_or (narrow duration_in_seconds) Error.convert
      funding_factor ←
          ok_or (checked_mul duration_value factor_per_second)
            (Error.computation "calculating funding factor")
      funding_value ←
          ok_or (apply_factor (if ltb short long then long else short) funding_factor)
            (Error.computation "calculating funding value")
      for_long ←
          value_for_collateral m longs_pay_shorts true funding_value
            (if longs_pay_shorts then long else short)
      for_short ←
          value_for_collateral m longs_pay_shorts false funding_value
            (if longs_pay_shorts then long else short)
      deltas ←
          set_deltas m prices longs_pay_shorts for_long for_short
            (if longs_pay_shorts then short else long)
      ok (record {
        duration_in_seconds = duration_in_seconds;
        next_funding_factor_per_second = next_factor;
        delta_funding_amount_per_size = deltas.0;
        delta_claimable_funding_amount_per_size = deltas.1;
      }))

  -- One round of the loop of `execute`, over the entries of `MATRIX`.
  unfoldable pub apply_entry : UpdateFundingReport → Bool → Bool → Market → Result Market
  unfolding entry
  apply_entry report is_long is_long_collateral m = do
    delta ← to_signed (entry report.delta_funding_amount_per_size is_long is_long_collateral)
    m₁ ← apply_delta_to_funding_amount_per_size is_long is_long_collateral delta m
    claimable ←
        to_signed (entry report.delta_claimable_funding_amount_per_size is_long is_long_collateral)
    apply_delta_to_claimable_funding_amount_per_size is_long is_long_collateral claimable m₁

  unfoldable pub execute : Market → Prices → Result (Market × UpdateFundingReport)
  unfolding move_clock next_funding_amount_per_size apply_entry
  execute m prices = do
    let m₁ = (move_clock m).0
    report ← next_funding_amount_per_size m₁ prices (move_clock m).1
    m₂ ← apply_entry report true true m₁
    m₃ ← apply_entry report true false m₂
    m₄ ← apply_entry report false true m₃
    m₅ ← apply_entry report false false m₄
    ok (record m₅ { funding_factor_per_second = report.next_funding_factor_per_second }, report)

  -- `market.update_funding(…)?.execute()`.
  unfoldable pub update_funding : Market → Prices → Result (Market × UpdateFundingReport)
  unfolding execute
  update_funding m prices = validate prices >> execute m prices
