-- ===== src/Tests/Payments.antt =====
-- A cost at work: crates/gmsol-model/src/action/decrease_position/collateral_processor.rs.
use gmx_solana.Prelude.{ℕ, ◌+◌, ◌-◌, ◌*◌, ◌^◌, ◌≤◌, ◌≡◌, ◌⊎◌, false, true, none, refl}
use gmx_solana.Result.{ok}
use gmx_solana.Prelude.Int.{negsuc}
use gmx_solana.Tests.{u128, prices, market, market_with, pool, market-IsTwoSided}
use gmx_solana.Pool.{
  apply_delta_amount, apply_delta_to_long_amount, apply_delta_to_short_amount, is_pure_pool,
}
use gmx_solana.Market.Liquidity.{apply_delta, apply_delta_to_claimable_fee_pool}
use gmx_solana.Fee.{
  PositionFees, for_pool, for_receiver, total_cost_excluding_funding, borrowing_fee_for_pool,
  no_borrowing_fees, no_funding_fees,
}
use gmx_solana.Action.Decrease.Charges.{pay_for_fees_excess}
use gmx_solana.Action.Holdings.{holdings}
use gmx_solana.Action.Decrease.Processor.{
  CollateralProcessor, solvent, apply_nonzero, pay_to_primary_pool, pay_amounts, pay_for_cost,
}
use gmx_solana.Action.Decrease.Steps.{
  pay_for_pnl_if_negative, pay_for_fees_excluding_funding, receive_fees,
}
use gmx_solana.Action.Decrease.Losses.{pay_for_pnl_conserves}
use gmx_solana.Num.{to_signed, try_signed, narrow_signed, checked_add_signed}
use gmx_solana.Price.{pick_price}
use gmx_solana.Num.{
  narrow, checked_add, checked_sub, checked_mul, checked_div, checked_mul_div, checked_round_up_div,
}
use gmx_solana.Action.Decrease.Costs.{
  ProcessState, ClaimableCollateral, pay_from, pay_from_secondary, pay_from_collateral,
  do_pay_for_cost, output_token_price, pnl_token_price,
}
use gmx_solana.Action.Decrease.Costs.Order.{do_pay_for_cost_lem}

abbrev nothing : ClaimableCollateral
nothing = record { output_token_amount = 0; secondary_output_token_amount = 0 }

-- One long token of output and two of collateral, at 150 each, and 1000 short tokens of profit, with these
-- amounts left.
abbrev amounts : ℕ → ℕ → ℕ → ProcessState
amounts output collateral secondary = record {
  prices = prices;
  is_output_token_long = true;
  is_pnl_token_long = false;
  are_pnl_and_collateral_tokens_the_same = false;
  report = record {
    output_amount = output;
    secondary_output_amount = secondary;
    remaining_collateral_amount = collateral;
    for_holding = nothing;
    for_user = nothing;
    insolvent_close_step = none;
  };
}

abbrev after : ProcessState
after = amounts 0 0 (950 * 10 ^ 6)

abbrev cost_left : ℕ
cost_left = 0

paid_from_all :
    do_pay_for_cost ⦃n = u128⦄ (amounts (10 ^ 9) (2 * 10 ^ 9) (1000 * 10 ^ 6)) (500 * 10 ^ 20)
    ≡ ok (after, cost_left, 3 * 10 ^ 9, 50 * 10 ^ 6)
unfolding do_pay_for_cost pay_from pay_from_collateral pay_from_secondary output_token_price
    pnl_token_price pick_price narrow checked_add checked_sub checked_mul checked_mul_div
    checked_div checked_round_up_div
paid_from_all = refl

not_enough :
    do_pay_for_cost ⦃n = u128⦄ (amounts 0 (2 * 10 ^ 9) (100 * 10 ^ 6)) (500 * 10 ^ 20)
    ≡ ok (amounts 0 0 0, 100 * 10 ^ 20, 2 * 10 ^ 9, 100 * 10 ^ 6)
unfolding do_pay_for_cost pay_from pay_from_collateral pay_from_secondary output_token_price
    pnl_token_price pick_price narrow checked_add checked_sub checked_mul checked_mul_div
    checked_div checked_round_up_div
not_enough = refl

do_pay_for_cost_lem_example :
    (0 + 0 + 3 * 10 ^ 9 ≡ 10 ^ 9 + 2 * 10 ^ 9)
    × (950 * 10 ^ 6 + 50 * 10 ^ 6 ≡ 1000 * 10 ^ 6)
    × (500 * 10 ^ 20
        ≤ 3 * 10 ^ 9 * pick_price prices.long_token_price false
          + 50 * 10 ^ 6 * pick_price prices.short_token_price false
          + 0
          + (pick_price prices.short_token_price false - 1))
    × (3 * 10 ^ 9 * pick_price prices.long_token_price false
          + 50 * 10 ^ 6 * pick_price prices.short_token_price false
          + 0
        ≤ 500 * 10 ^ 20 + (pick_price prices.long_token_price false - 1))
    × ((2 * 10 ^ 9 ≤ after.report.remaining_collateral_amount) ⊎ (after.report.output_amount ≡ 0))
    × ((50 * 10 ^ 6 ≡ 0)
        ⊎ ((after.report.output_amount ≡ 0) × (after.report.remaining_collateral_amount ≡ 0)))
    × ((cost_left ≡ 0)
        ⊎ ((after.report.output_amount ≡ 0)
            × (after.report.remaining_collateral_amount ≡ 0)
            × (after.report.secondary_output_amount ≡ 0)))
unfolding output_token_price pnl_token_price
do_pay_for_cost_lem_example =
    do_pay_for_cost_lem ⦃n = u128⦄ (amounts (10 ^ 9) (2 * 10 ^ 9) (1000 * 10 ^ 6)) (500 * 10 ^ 20)
      paid_from_all

-- The market with a position that loses 500 USD.
abbrev processor : CollateralProcessor
processor = record { market = market; state = amounts (10 ^ 9) (2 * 10 ^ 9) (1000 * 10 ^ 6) }

abbrev processed : CollateralProcessor
processed = record {
  market = market_with (pool (103 * 10 ^ 9) (10050 * 10 ^ 6)) (pool 0 (20 * 10 ^ 6)) (pool 0 0) 0 0;
  state = after;
}

loss_paid :
    pay_for_pnl_if_negative ⦃n = u128⦄ processor (negsuc (500 * 10 ^ 20 - 1))
    ≡ ok (record { after = processed; insolvent_step = none })
unfolding do_pay_for_cost pay_from pay_from_collateral pay_from_secondary output_token_price
    pnl_token_price pick_price narrow checked_add checked_sub checked_mul checked_mul_div
    checked_div checked_round_up_div pay_for_pnl_if_negative pay_for_cost solvent pay_amounts
    pay_to_primary_pool apply_nonzero to_signed try_signed narrow_signed apply_delta
    apply_delta_amount apply_delta_to_long_amount apply_delta_to_short_amount checked_add_signed
    is_pure_pool
loss_paid = refl

pay_for_pnl_conserves_example :
    (holdings processed.market true
        + processed.state.report.output_amount
        + processed.state.report.remaining_collateral_amount
      ≡ holdings market true + 10 ^ 9 + 2 * 10 ^ 9)
    × (holdings processed.market false + processed.state.report.secondary_output_amount
        ≡ holdings market false + 1000 * 10 ^ 6)
pay_for_pnl_conserves_example =
    pay_for_pnl_conserves ⦃n = u128⦄ processor (negsuc (500 * 10 ^ 20 - 1)) true refl refl
      market-IsTwoSided loss_paid

-- A position that cannot pay the last unit of its fees of 1000: its worth in the short token rounds down
-- to none, and the fees are credited in full.
abbrev short_of_one : CollateralProcessor
short_of_one = record { market = market; state = amounts 0 999 (1000 * 10 ^ 6) }

abbrev order_fees_only : PositionFees
order_fees_only = record {
  paid_order_fee_value = 0;
  order = record {
    base = record { fee_amount_for_receiver = 300; fee_amount_for_pool = 700 };
    fee_value = 0;
  };
  borrowing = no_borrowing_fees;
  funding = no_funding_fees;
  liquidation = none;
}

abbrev charged : CollateralProcessor
charged = record {
  market = market_with (pool 100000000700 (10000 * 10 ^ 6)) (pool 0 (20 * 10 ^ 6)) (pool 300 0) 0 0;
  state = amounts 0 0 (1000 * 10 ^ 6);
}

fees_paid :
    pay_for_fees_excluding_funding ⦃n = u128⦄ short_of_one order_fees_only
    ≡ ok (record { after = (charged, order_fees_only); insolvent_step = none })
unfolding do_pay_for_cost pay_from pay_from_collateral pay_from_secondary output_token_price
    pnl_token_price pick_price narrow checked_add checked_sub checked_mul checked_mul_div
    checked_div checked_round_up_div pay_for_fees_excluding_funding pay_for_cost solvent
    receive_fees pay_amounts pay_to_primary_pool apply_nonzero to_signed try_signed narrow_signed
    apply_delta apply_delta_to_claimable_fee_pool apply_delta_amount apply_delta_to_long_amount
    apply_delta_to_short_amount checked_add_signed is_pure_pool total_cost_excluding_funding
    for_pool for_receiver borrowing_fee_for_pool
fees_paid = refl

pay_for_fees_excess_example :
    (excess : ℕ) × (holdings charged.market true
        + charged.state.report.output_amount
        + charged.state.report.remaining_collateral_amount
      ≡ holdings market true + short_of_one.state.report.output_amount + 999 + excess)
    × (holdings charged.market false + charged.state.report.secondary_output_amount
        ≡ holdings market false + 1000 * 10 ^ 6)
    × (excess * pick_price prices.long_token_price false
        ≤ pick_price prices.short_token_price false - 1)
unfolding output_token_price pnl_token_price
pay_for_fees_excess_example =
    pay_for_fees_excess ⦃n = u128⦄ short_of_one order_fees_only true refl refl market-IsTwoSided
      fees_paid
