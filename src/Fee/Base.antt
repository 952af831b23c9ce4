-- ===== src/Fee/Base.antt =====
-- `FeeParams`, `LiquidationFeeParams` and the fees that they give.
use gmx_solana.Prelude.{ℕ, Bool, false, Option, none, some, ◌==◌, if◌then◌else◌}
use gmx_solana.Prelude.Maybe.{◌>>=◌ as ◌and_then◌}
use gmx_solana.Result.{Result, ok, err, Error, ok_or, ◌>>=◌}
use gmx_solana.Num.{FixedPointOps, checked_sub, checked_div, checked_round_up_div}
use gmx_solana.Utils.{apply_factor}
use gmx_solana.Price.{Price, has_zero, pick_price}

pub record FeeParams : Type 0 where
  pub positive_impact_fee_factor : ℕ
  pub negative_impact_fee_factor : ℕ
  pub fee_receiver_factor : ℕ
  pub discount_factor : Option ℕ

pub record Fees : Type 0 where
  pub fee_amount_for_receiver : ℕ
  pub fee_amount_for_pool : ℕ

-- `Default for Fees`.
abbrev pub no_fees : Fees
no_fees = record { fee_amount_for_receiver = 0; fee_amount_for_pool = 0 }

unfoldable pub factor : FeeParams → Bool → ℕ
factor p is_positive_impact =
    if is_positive_impact then p.positive_impact_fee_factor else p.negative_impact_fee_factor

-- `unwrap_or(Zero::zero())`.
abbrev or_zero : Option ℕ → ℕ
or_zero none = 0
or_zero (some a) = a

unfoldable pub discount_factor_of : FeeParams → ℕ
discount_factor_of p = or_zero p.discount_factor

pub record OrderFees : Type 0 where
  pub base : Fees
  pub fee_value : ℕ

pub record LiquidationFeeParams : Type 0 where
  pub factor : ℕ
  pub receiver_factor : ℕ

pub record LiquidationFees : Type 0 where
  pub fee_value : ℕ
  pub fee_amount : ℕ
  pub fee_amount_for_receiver : ℕ

module _ ⦃n : FixedPointOps⦄ where
  unfoldable pub fee : FeeParams → Bool → ℕ → Option ℕ
  unfolding factor discount_factor_of
  fee p is_positive_impact amount =
      ◌and_then◌ (apply_factor amount (factor p is_positive_impact)) λ whole.
        ◌and_then◌ (apply_factor whole (discount_factor_of p))
          λ discount. checked_sub whole discount

  unfoldable pub receiver_fee : FeeParams → ℕ → Option ℕ
  receiver_fee p fee_amount = apply_factor fee_amount p.fee_receiver_factor

  unfoldable pub apply_fees : FeeParams → Bool → ℕ → Option (ℕ × Fees)
  apply_fees p is_positive_impact amount =
      ◌and_then◌ (fee p is_positive_impact amount) λ fee_amount.
        ◌and_then◌ (receiver_fee p fee_amount) λ fee_receiver_amount.
          ◌and_then◌ (checked_sub fee_amount fee_receiver_amount) λ fee_amount_for_pool.
            ◌and_then◌ (checked_sub amount fee_amount) λ amount_after_fees. some (
              amount_after_fees,
              record {
                fee_amount_for_receiver = fee_receiver_amount;
                fee_amount_for_pool = fee_amount_for_pool;
              },
            )

  unfoldable pub order_fees : FeeParams → Price → ℕ → Bool → Result OrderFees
  order_fees p collateral_token_price size_delta_usd is_positive_impact =
      if has_zero collateral_token_price then err Error.invalid_prices else (do
        fee_value ←
            ok_or (fee p is_positive_impact size_delta_usd)
              (Error.computation "calculating order fee value")
        fee_amount ←
            ok_or (checked_div fee_value (pick_price collateral_token_price false))
              (Error.computation "calculating order fee amount")
        receiver_fee_amount ←
            ok_or (receiver_fee p fee_amount) (Error.computation "calculating order receiver fee")
        pool_fee_amount ←
            ok_or (checked_sub fee_amount receiver_fee_amount)
              (Error.computation "calculating order fee for pool")
        ok (record {
          base = record {
            fee_amount_for_receiver = receiver_fee_amount;
            fee_amount_for_pool = pool_fee_amount;
          };
          fee_value = fee_value;
        }))

  -- `LiquidationFeeParams::fee`.
  unfoldable pub liquidation_fee : LiquidationFeeParams → ℕ → Price → Result LiquidationFees
  liquidation_fee p size_delta_usd collateral_token_price =
      if p.factor == 0
      then ok (record { fee_value = 0; fee_amount = 0; fee_amount_for_receiver = 0 })
      else (do
        fee_value ←
            ok_or (apply_factor size_delta_usd p.factor)
              (Error.computation "liquidation fee: calculating fee value")
        fee_amount ←
            ok_or (checked_round_up_div fee_value (pick_price collateral_token_price false))
              (Error.computation "liquidation fee: calculating fee amount")
        for_receiver ←
            ok_or (apply_factor fee_amount p.receiver_factor)
              (Error.computation "liquidation fee: calculating fee amount for receiver")
        ok (record {
          fee_value = fee_value;
          fee_amount = fee_amount;
          fee_amount_for_receiver = for_receiver;
        }))
