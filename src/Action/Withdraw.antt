-- ===== src/Action/Withdraw.antt =====
-- crates/gmsol-model/src/action/withdraw.rs.
use gmx_solana.Prelude.{ℕ, Bool, Option, true, false, ◌==◌, if◌then◌else◌}
use gmx_solana.Prelude.Maybe.{◌>>=◌ as ◌and_then◌}
use gmx_solana.Prelude.Int.{ℤ, abs, is_negative}
use gmx_solana.Result.{Result, ok, err, Error, ok_or, err_if, ◌>>=◌, ◌>>◌, PnlFactorKind}
use gmx_solana.Num.{
  FixedPointOps, checked_add, checked_div, checked_mul_div, to_opposite_signed, try_signed,
}
use gmx_solana.Utils.{market_token_amount_to_usd}
use gmx_solana.Price.{Price, Prices, pick_price, validate}
use gmx_solana.Pool.{balance, long_usd_value, short_usd_value}
use gmx_solana.Fee.{Fees, apply_fees}
use gmx_solana.Market.State.{Market, swap_fee_params, total_supply, burn}
use gmx_solana.Market.Base.{validate_reserve, validate_max_pnl}
use gmx_solana.Market.Liquidity.{pool_value, apply_delta, apply_delta_to_claimable_fee_pool}
pub mod Conservation

pub record WithdrawParams : Type 0 where
  pub market_token_amount : ℕ
  pub prices : Prices

pub record WithdrawReport : Type 0 where
  pub params : WithdrawParams
  pub long_token_fees : Fees
  pub short_token_fees : Fees
  pub long_token_output : ℕ
  pub short_token_output : ℕ

module _ ⦃n : FixedPointOps⦄ where
  -- `Withdrawal::try_new`.
  unfoldable pub try_new : ℕ → Prices → Result WithdrawParams
  try_new market_token_amount prices = do
    err_if (market_token_amount == 0) Error.empty_withdrawal
    validate prices
    ok (record { market_token_amount = market_token_amount; prices = prices })

  -- The tokens of one side that are worth its share of the value.
  unfoldable pub side_output : ℕ → ℕ → ℕ → Price → Option ℕ
  side_output market_token_value side_value total_value price =
      ◌and_then◌ (checked_mul_div market_token_value side_value total_value)
        (λ a. checked_div a (pick_price price true))

  unfoldable pub output_amounts : Market → WithdrawParams → Result (ℕ × ℕ)
  output_amounts m p = do
    value ← pool_value m p.prices PnlFactorKind.max_after_withdrawal false
    err_if (is_negative value)
        (Error.invalid_pool_value "withdrawal: current pool value is negative")
    err_if (abs value == 0) (Error.invalid_pool_value "withdrawal: current pool value is zero")
    long_value ←
        long_usd_value (balance m.pools.primary) (pick_price p.prices.long_token_price true)
    short_value ←
        short_usd_value (balance m.pools.primary) (pick_price p.prices.short_token_price true)
    total_value ←
        ok_or (checked_add long_value short_value)
          (Error.computation "calculating total liquidity pool value")
    market_token_value ←
        ok_or (market_token_amount_to_usd p.market_token_amount (abs value) (total_supply m))
          (Error.computation "amount to usd")
    long ←
        ok_or (side_output market_token_value long_value total_value p.prices.long_token_price)
          (Error.computation "long token amount")
    short ←
        ok_or (side_output market_token_value short_value total_value p.prices.short_token_price)
          (Error.computation "short token amount")
    ok (long, short)

  unfoldable pub charge_fees : Market → ℕ → Result (ℕ × Fees)
  charge_fees m amount =
      ok_or (apply_fees (swap_fee_params m) false amount) (Error.computation "apply fees")

  unfoldable pub execute : Market → WithdrawParams → Result (Market × WithdrawReport)
  execute m p = do
    (long_output, short_output) ← output_amounts m p
    (long_token_amount, long_fees) ← charge_fees m long_output
    (short_token_amount, short_fees) ← charge_fees m short_output
    long_receiver ← ok_or (try_signed long_fees.fee_amount_for_receiver) Error.convert
    m₁ ← apply_delta_to_claimable_fee_pool m true long_receiver
    short_receiver ← ok_or (try_signed short_fees.fee_amount_for_receiver) Error.convert
    m₂ ← apply_delta_to_claimable_fee_pool m₁ false short_receiver
    long_out ←
        ok_or (checked_add long_fees.fee_amount_for_receiver long_token_amount) Error.overflow
    long_delta ← to_opposite_signed long_out
    m₃ ← apply_delta m₂ true long_delta
    short_out ←
        ok_or (checked_add short_fees.fee_amount_for_receiver short_token_amount) Error.overflow
    short_delta ← to_opposite_signed short_out
    m₄ ← apply_delta m₃ false short_delta
    validate_reserve m₄ p.prices true
    validate_reserve m₄ p.prices false
    validate_max_pnl m₄ p.prices PnlFactorKind.max_after_withdrawal
        PnlFactorKind.max_after_withdrawal
    m₅ ← burn p.market_token_amount m₄
    ok (
      m₅,
      record {
        params = p;
        long_token_fees = long_fees;
        short_token_fees = short_fees;
        long_token_output = long_token_amount;
        short_token_output = short_token_amount;
      },
    )

  -- `market.withdraw(…)?.execute()`.
  unfoldable pub withdraw : Market → ℕ → Prices → Result (Market × WithdrawReport)
  withdraw m market_token_amount prices = try_new market_token_amount prices >>= execute m
