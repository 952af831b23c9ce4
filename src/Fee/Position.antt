-- ===== src/Fee/Position.antt =====
-- `PositionFees`: all that a position pays at once.
use gmx_solana.Prelude.{ℕ, Bool, Option, none, some, false}
use gmx_solana.Prelude.Maybe.{◌>>=◌ as ◌and_then◌}
use gmx_solana.Result.{Result, ok, Error, ok_or, ◌>>=◌}
use gmx_solana.Num.{FixedPointOps, checked_add, checked_sub, checked_div}
use gmx_solana.Utils.{apply_factor}
use gmx_solana.Price.{Price, pick_price}
use gmx_solana.Fee.Base.{FeeParams, no_fees, OrderFees, LiquidationFees, order_fees}

pub record BorrowingFees : Type 0 where
  pub fee_amount : ℕ
  pub fee_amount_for_receiver : ℕ

pub record FundingFees : Type 0 where
  pub amount : ℕ
  pub claimable_long_token_amount : ℕ
  pub claimable_short_token_amount : ℕ

pub record PositionFees : Type 0 where
  pub paid_order_fee_value : ℕ
  pub order : OrderFees
  pub borrowing : BorrowingFees
  pub funding : FundingFees
  pub liquidation : Option LiquidationFees

abbrev pub no_order_fees : OrderFees
no_order_fees = record { base = no_fees; fee_value = 0 }

abbrev pub no_borrowing_fees : BorrowingFees
no_borrowing_fees = record { fee_amount = 0; fee_amount_for_receiver = 0 }

abbrev pub no_funding_fees : FundingFees
no_funding_fees = record {
  amount = 0;
  claimable_long_token_amount = 0;
  claimable_short_token_amount = 0;
}

unfoldable pub clear_fees_excluding_funding : PositionFees → PositionFees
clear_fees_excluding_funding p = record p {
  order = no_order_fees;
  borrowing = no_borrowing_fees;
  liquidation = none;
}

unfoldable pub set_funding_fees : PositionFees → FundingFees → PositionFees
set_funding_fees p fees = record p { funding = fees }

unfoldable pub set_liquidation_fees : PositionFees → Option LiquidationFees → PositionFees
set_liquidation_fees p fees = record p { liquidation = fees }

-- `BorrowingFees::fee_amount_for_pool`.
unfoldable pub borrowing_fee_for_pool : BorrowingFees → Result ℕ
borrowing_fee_for_pool f =
    ok_or (checked_sub f.fee_amount f.fee_amount_for_receiver)
      (Error.computation "borrowing fee: calculating fee for pool")

-- `LiquidationFees::fee_amount_for_pool`.
unfoldable pub liquidation_fee_for_pool : LiquidationFees → Result ℕ
liquidation_fee_for_pool f =
    ok_or (checked_sub f.fee_amount f.fee_amount_for_receiver)
      (Error.computation "liquidation fee: calculating fee for pool")

module _ ⦃n : FixedPointOps⦄ where
  unfoldable pub base_position_fees : FeeParams → Price → ℕ → Bool → Result PositionFees
  base_position_fees p collateral_token_price size_delta_usd is_positive_impact = do
    fees ← order_fees p collateral_token_price size_delta_usd is_positive_impact
    ok (record {
      paid_order_fee_value = fees.fee_value;
      order = fees;
      borrowing = no_borrowing_fees;
      funding = no_funding_fees;
      liquidation = none;
    })

  -- The part of a liquidation, if there is one, added to a total.
  abbrev pub add_if_some : (LiquidationFees → ℕ) → Option LiquidationFees → ℕ → Option ℕ
  add_if_some part none total = some total
  add_if_some part (some fees) total = checked_add total (part fees)

  unfoldable pub for_receiver : PositionFees → Result ℕ
  for_receiver p =
      ok_or
        (◌and_then◌
          (checked_add p.order.base.fee_amount_for_receiver p.borrowing.fee_amount_for_receiver)
          (add_if_some (λ f. f.fee_amount_for_receiver) p.liquidation))
        (Error.computation "calculating fee for receiver")

  abbrev pub add_liquidation_for_pool : Option LiquidationFees → ℕ → Result ℕ
  add_liquidation_for_pool none total = ok total
  add_liquidation_for_pool (some fees) total = do
    a ← liquidation_fee_for_pool fees
    ok_or (checked_add total a) (Error.computation "adding liquidation fee for pool")

  unfoldable pub for_pool : PositionFees → Result ℕ
  for_pool p = do
    borrowing ← borrowing_fee_for_pool p.borrowing
    total ←
        ok_or (checked_add p.order.base.fee_amount_for_pool borrowing)
          (Error.computation "adding borrowing fee for pool")
    add_liquidation_for_pool p.liquidation total

  unfoldable pub total_cost_excluding_funding : PositionFees → Result ℕ
  total_cost_excluding_funding p =
      ok_or
        (◌and_then◌
          (checked_add p.order.base.fee_amount_for_pool p.order.base.fee_amount_for_receiver)
          (λ acc.
            ◌and_then◌ (checked_add acc p.borrowing.fee_amount)
              (add_if_some (λ f. f.fee_amount) p.liquidation)))
        (Error.computation "overflow while calculating total cost excluding funding")

  unfoldable pub total_cost_amount : PositionFees → Result ℕ
  total_cost_amount p = do
    cost ← total_cost_excluding_funding p
    ok_or (checked_add cost p.funding.amount) Error.overflow

  unfoldable pub set_borrowing_fees : PositionFees → ℕ → Price → ℕ → Result PositionFees
  set_borrowing_fees p receiver_factor price value = do
    fee ←
        ok_or (checked_div value (pick_price price false))
          (Error.computation "calculating borrowing amount")
    for_receiver ←
        ok_or (apply_factor fee receiver_factor)
          (Error.computation "calculating borrowing fee amount for receiver")
    ok (record p {
      borrowing = record { fee_amount = fee; fee_amount_for_receiver = for_receiver };
    })
