-- ===== src/Action/Decrease/Steps.antt =====
-- The steps of the collateral processor of a decrease, but for the swap of the profit:
-- crates/gmsol-model/src/action/decrease_position/collateral_processor.rs. The callback of the market on a
-- funding fee that is not paid in full does nothing.
use gmx_solana.Prelude.{ℕ, Bool, true, false, ◌&&◌, ◌==◌, if◌then◌else◌}
use gmx_solana.Prelude.Int.{ℤ, abs, is_positive, is_negative}
use gmx_solana.Result.{Result, ok, Error, ok_or, ◌>>=◌}
use gmx_solana.Num.{
  FixedPointOps, checked_mul, checked_mul_div, checked_round_up_div, to_signed, to_opposite_signed,
}
use gmx_solana.Price.{pick_price}
use gmx_solana.Fee.{
  FundingFees, PositionFees, for_pool, for_receiver, total_cost_excluding_funding,
  clear_fees_excluding_funding,
}
use gmx_solana.Market.Liquidity.{apply_delta, apply_delta_to_claimable_fee_pool}
use gmx_solana.Action.DistributePositionImpact.{apply_delta_to_position_impact_pool}
use gmx_solana.Action.Decrease.Costs.{InsolventCloseStep, output_token_price, pnl_token_price}
use gmx_solana.Action.Decrease.Processor.{
  CollateralProcessor, Payment, solvent, try_add_amount, pay_amounts, pay_for_cost,
  deduct_from_pool,
}

module _ ⦃n : FixedPointOps⦄ where
  unfoldable pub add_pnl_if_positive : CollateralProcessor → ℤ → Result CollateralProcessor
  unfolding deduct_from_pool
  add_pnl_if_positive p pnl =
      if is_positive pnl
      then deduct_from_pool p (abs pnl)
          (Error.computation "pnl: calculating deduction amount for pool")
      else ok p

  unfoldable pub pay_for_pnl_if_negative :
      CollateralProcessor → ℤ → Result (Payment CollateralProcessor)
  unfolding pay_for_cost pay_amounts solvent
  pay_for_pnl_if_negative p pnl =
      if is_negative pnl
      then pay_for_cost p (abs pnl) (λ q paid secondary left. pay_amounts q paid secondary)
          InsolventCloseStep.pnl
      else ok (solvent p)

  unfoldable pub add_price_impact_if_positive : CollateralProcessor → ℤ → Result CollateralProcessor
  unfolding deduct_from_pool
  add_price_impact_if_positive p impact =
      if is_positive impact
      then (do
        amount ←
            ok_or
              (checked_round_up_div (abs impact)
                (pick_price p.state.prices.index_token_price false))
              (Error.computation "calculating positive price impact amount")
        delta ← to_opposite_signed amount
        m ← apply_delta_to_position_impact_pool p.market delta
        deduct_from_pool (record p { market = m }) (abs impact)
            (Error.computation "impact: calculating deduction amount for pool"))
      else ok p

  -- What was paid of an impact in a token of the given price goes to the position impact pool.
  unfoldable pub credit_impact : CollateralProcessor → ℕ → ℕ → Error → Result CollateralProcessor
  credit_impact p paid price error = if paid == 0 then ok p else (do
    amount ←
        ok_or (checked_mul_div paid price (pick_price p.state.prices.index_token_price true)) error
    delta ← to_signed amount
    m ← apply_delta_to_position_impact_pool p.market delta
    ok (record p { market = m }))

  unfoldable pub receive_impact : CollateralProcessor → ℕ → ℕ → Result CollateralProcessor
  unfolding pay_amounts credit_impact output_token_price pnl_token_price
  receive_impact p paid paid_in_secondary = do
    p₁ ← pay_amounts p paid paid_in_secondary
    p₂ ←
        credit_impact p₁ paid (pick_price (output_token_price p₁.state) false)
          (Error.computation "calculating price impact paid in collateral (output) token")
    credit_impact p₂ paid_in_secondary (pick_price (pnl_token_price p₂.state) false)
        (Error.computation "calculating price impact paid in secondary output token")

  unfoldable pub pay_for_price_impact_if_negative :
      CollateralProcessor → ℤ → Result (Payment CollateralProcessor)
  unfolding pay_for_cost receive_impact solvent
  pay_for_price_impact_if_negative p impact =
      if is_negative impact
      then pay_for_cost p (abs impact) (λ q paid secondary left. receive_impact q paid secondary)
          InsolventCloseStep.impact
      else ok (solvent p)

  -- What was paid of the funding fees in the secondary token is held for their receivers.
  unfoldable pub hold_secondary : CollateralProcessor → ℕ → Result CollateralProcessor
  unfolding try_add_amount
  hold_secondary p paid_in_secondary = if paid_in_secondary == 0 then ok p else (do
    c ← try_add_amount p.state.report.for_holding paid_in_secondary false
    ok (record p {
      state = record (p.state) { report = record (p.state.report) { for_holding = c } };
    }))

  unfoldable pub pay_for_funding_fees :
      CollateralProcessor → FundingFees → Result (Payment CollateralProcessor)
  unfolding pay_for_cost hold_secondary output_token_price solvent
  pay_for_funding_fees p fees = if fees.amount == 0 then ok (solvent p) else (do
    cost ←
        ok_or (checked_mul fees.amount (pick_price (output_token_price p.state) false))
          (Error.computation "calculating funding fee cost")
    pay_for_cost p cost (λ q paid secondary left. hold_secondary q secondary)
        InsolventCloseStep.funding)

  -- Fees that are not paid in full in the collateral token go to the pool, and count as no fees.
  unfoldable pub receive_fees :
      PositionFees → CollateralProcessor → ℕ → ℕ → ℕ → Result (CollateralProcessor × PositionFees)
  unfolding pay_amounts
  receive_fees fees p paid paid_in_secondary left =
      if left == 0 && paid_in_secondary == 0
      then (do
        pool ← for_pool fees
        pool_delta ← to_signed pool
        m₁ ← apply_delta p.market p.state.is_output_token_long pool_delta
        receiver ← for_receiver fees
        receiver_delta ← to_signed receiver
        m₂ ← apply_delta_to_claimable_fee_pool m₁ p.state.is_output_token_long receiver_delta
        ok (record p { market = m₂ }, fees))
      else (do
        q ← pay_amounts p paid paid_in_secondary
        ok (q, record (clear_fees_excluding_funding fees) { paid_order_fee_value = 0 }))

  unfoldable pub pay_for_fees_excluding_funding :
      CollateralProcessor → PositionFees → Result (Payment (CollateralProcessor × PositionFees))
  unfolding pay_for_cost receive_fees output_token_price solvent
  pay_for_fees_excluding_funding p fees = do
    cost_amount ← total_cost_excluding_funding fees
    if cost_amount == 0 then ok (solvent (p, fees)) else (do
      cost ←
          ok_or (checked_mul cost_amount (pick_price (output_token_price p.state) false))
            (Error.computation "calculating total fee cost")
      pay_for_cost p cost (receive_fees fees) InsolventCloseStep.fees)

  -- `if !paid.is_zero() { for_user.try_add_amount(paid) }`.
  unfoldable pub owe_user : ℕ → Bool → CollateralProcessor → Result CollateralProcessor
  unfolding try_add_amount
  owe_user paid is_output_token p = if paid == 0 then ok p else (do
    c ← try_add_amount p.state.report.for_user paid is_output_token
    ok (record p {
      state = record (p.state) { report = record (p.state.report) { for_user = c } };
    }))

  unfoldable pub pay_for_price_impact_diff :
      CollateralProcessor → ℕ → Result (Payment CollateralProcessor)
  unfolding pay_for_cost owe_user solvent
  pay_for_price_impact_diff p price_impact_diff =
      if price_impact_diff == 0
      then ok (solvent p)
      else pay_for_cost p price_impact_diff
          (λ q paid secondary left. owe_user paid true q >>= owe_user secondary false)
          InsolventCloseStep.diff
