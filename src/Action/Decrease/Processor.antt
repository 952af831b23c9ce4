-- ===== src/Action/Decrease/Processor.antt =====
-- The state of the collateral processor of a decrease, and the payments that its steps share:
-- crates/gmsol-model/src/action/decrease_position/collateral_processor.rs.
use gmx_solana.Prelude.{ℕ, Bool, true, Option, none, some, ◌==◌, if◌then◌else◌}
use gmx_solana.Prelude.Int.{ℤ, abs}
use gmx_solana.Result.{Result, ok, Error, ok_or, ◌>>=◌}
use gmx_solana.Num.{FixedPointOps, checked_add, checked_div, to_signed, to_opposite_signed}
use gmx_solana.Price.{pick_price}
use gmx_solana.Market.State.{Market}
use gmx_solana.Market.Liquidity.{apply_delta}
use gmx_solana.Action.Decrease.Costs.{
  InsolventCloseStep, ClaimableCollateral, ProcessState, do_pay_for_cost, pnl_token_price,
}

pub record CollateralProcessor : Type 0 where
  pub market : Market
  pub state : ProcessState

-- What a payment leaves, with the step at which the funds did not suffice, if they did not. The source
-- returns an error there, which its `process` turns back into what is left if the close is allowed.
pub record Payment (A : Type 0) : Type 0 where
  pub after : A
  pub insolvent_step : Option InsolventCloseStep

unfoldable pub solvent : {A : Type 0} → A → Payment A
solvent a = record { after = a; insolvent_step = none }

module _ ⦃n : FixedPointOps⦄ where
  unfoldable pub try_add_amount : ClaimableCollateral → ℕ → Bool → Result ClaimableCollateral
  try_add_amount c amount is_output_token =
      if is_output_token
      then (do
        sum ← ok_or (checked_add c.output_token_amount amount) Error.overflow
        ok (record c { output_token_amount = sum }))
      else (do
        sum ← ok_or (checked_add c.secondary_output_token_amount amount) Error.overflow
        ok (record c { secondary_output_token_amount = sum }))

  unfoldable pub add_pnl_token_amount : CollateralProcessor → ℕ → Result CollateralProcessor
  add_pnl_token_amount p amount =
      if p.state.are_pnl_and_collateral_tokens_the_same
      then (do
        sum ←
            ok_or (checked_add p.state.report.output_amount amount)
              (Error.computation "overflow occurred while adding deduction amount to output_amount")
        ok (record p {
          state = record (p.state) { report = record (p.state.report) { output_amount = sum } };
        }))
      else (do
        sum ← ok_or (checked_add p.state.report.secondary_output_amount amount) (
            Error.computation
              "overflow occurred while adding deduction amount to secondary_output_amount")
        ok (record p {
          state = record (p.state) {
            report = record (p.state.report) { secondary_output_amount = sum };
          };
        }))

  -- `if !delta.is_zero() { apply_delta }`.
  unfoldable pub apply_nonzero : Market → Bool → ℤ → Result Market
  apply_nonzero m is_long_token delta =
      if abs delta == 0 then ok m else apply_delta m is_long_token delta

  unfoldable pub pay_to_primary_pool : CollateralProcessor → ℤ → ℤ → Result CollateralProcessor
  unfolding apply_nonzero
  pay_to_primary_pool p collateral secondary = do
    m₁ ← apply_nonzero p.market p.state.is_output_token_long collateral
    m₂ ← apply_nonzero m₁ p.state.is_pnl_token_long secondary
    ok (record p { market = m₂ })

  -- `pay_to_primary_pool` of two unsigned amounts.
  unfoldable pub pay_amounts : CollateralProcessor → ℕ → ℕ → Result CollateralProcessor
  unfolding pay_to_primary_pool
  pay_amounts p paid paid_in_secondary = do
    collateral ← to_signed paid
    secondary ← to_signed paid_in_secondary
    pay_to_primary_pool p collateral secondary

  -- `receive` gets what was paid in the two tokens and the cost that is left.
  unfoldable pub pay_for_cost :
      {A : Type 0}
      → CollateralProcessor
      → ℕ
      → (CollateralProcessor → ℕ → ℕ → ℕ → Result A)
      → InsolventCloseStep
      → Result (Payment A)
  pay_for_cost p cost receive step = do
    (s, left, paid, paid_in_secondary) ← do_pay_for_cost p.state cost
    a ← receive (record p { state = s }) paid paid_in_secondary left
    ok (record { after = a; insolvent_step = if left == 0 then none else some step })

  -- The deduction of a profit, in its token, from the liquidity pool.
  unfoldable pub deduct_from_pool : CollateralProcessor → ℕ → Error → Result CollateralProcessor
  unfolding add_pnl_token_amount pnl_token_price
  deduct_from_pool p value error = do
    amount ← ok_or (checked_div value (pick_price (pnl_token_price p.state) true)) error
    delta ← to_opposite_signed amount
    m ← apply_delta p.market p.state.is_pnl_token_long delta
    add_pnl_token_amount (record p { market = m }) amount
