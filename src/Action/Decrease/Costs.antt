-- ===== src/Action/Decrease/Costs.antt =====
-- How a position pays a cost when it decreases: `State` of
-- crates/gmsol-model/src/action/decrease_position/collateral_processor.rs.
use gmx_solana.Prelude.{ℕ, Bool, false, Option, String, ltb, ◌==◌, if◌then◌else◌}
use gmx_solana.Result.{Result, ok, Error, ok_or, ◌>>=◌}
use gmx_solana.Num.{
  FixedPointOps, checked_add, checked_sub, checked_mul, checked_mul_div, checked_round_up_div,
}
use gmx_solana.Price.{Price, Prices, pick_price}
pub mod Order

pub data InsolventCloseStep : Type 0 where
  pnl fees funding impact diff : InsolventCloseStep

pub record ClaimableCollateral : Type 0 where
  pub output_token_amount : ℕ
  pub secondary_output_token_amount : ℕ

pub record ProcessResult : Type 0 where
  pub output_amount : ℕ
  pub secondary_output_amount : ℕ
  pub remaining_collateral_amount : ℕ
  pub for_holding : ClaimableCollateral
  pub for_user : ClaimableCollateral
  pub insolvent_close_step : Option InsolventCloseStep

pub record ProcessState : Type 0 where
  pub prices : Prices
  pub is_output_token_long : Bool
  pub is_pnl_token_long : Bool
  pub are_pnl_and_collateral_tokens_the_same : Bool
  pub report : ProcessResult

unfoldable pub pnl_token_price : ProcessState → Price
pnl_token_price s =
    if s.is_pnl_token_long then s.prices.long_token_price else s.prices.short_token_price

unfoldable pub output_token_price : ProcessState → Price
output_token_price s =
    if s.is_output_token_long then s.prices.long_token_price else s.prices.short_token_price

-- What the errors of one source of payment say.
pub record Messages : Type 0 where
  pub partly_paid : String
  pub deducted : String
  pub all_paid : String
  pub still_due : String

abbrev pub output_messages : Messages
output_messages = record {
  partly_paid = "overflow occurred while increasing paid amount for output token [1]";
  deducted = "underflow occurred while deducting output amount";
  all_paid = "overflow occurred while increasing paid amount for output token [2]";
  still_due = "underflow occurred while deducting remaining cost in output token [1]";
}

abbrev pub collateral_messages : Messages
collateral_messages = record {
  partly_paid = "overflow occurred while increasing paid amount in collateral token [1]";
  deducted = "underflow occurred while deducting collateral amount";
  all_paid = "overflow occurred while increasing paid amount for collateral token [2]";
  still_due = "underflow occurred while deducting remaining cost in output token [2]";
}

abbrev pub secondary_messages : Messages
secondary_messages = record {
  partly_paid = "overflow occurred while increasing paid amount in secondary token [1]";
  deducted = "underflow deducting secondary amount";
  all_paid = "overflow occurred while increasing paid amount for secondary token [2]";
  still_due = "underflow occurred while deducting remaining cost in secondary token [2]";
}

module _ ⦃n : FixedPointOps⦄ where
  -- A payment from one of the three sources: what is left of it, what is still due and what has been
  -- paid in its token, of what there was of each.
  unfoldable pub pay_from : Messages → ℕ → ℕ → ℕ → Result (ℕ × ℕ × ℕ)
  pay_from messages available due paid =
      if available == 0
      then ok (available, due, paid)
      else if ltb due available
      then (do
        paid' ← ok_or (checked_add paid due) (Error.computation messages.partly_paid)
        left ← ok_or (checked_sub available due) (Error.computation messages.deducted)
        ok (left, 0, paid'))
      else (do
        paid' ← ok_or (checked_add paid available) (Error.computation messages.all_paid)
        due' ← ok_or (checked_sub due available) (Error.computation messages.still_due)
        ok (0, due', paid'))

  -- The payment from the secondary output, of a cost that is due in the output token.
  unfoldable pub pay_from_secondary : ProcessState → ℕ → Result (ProcessState × ℕ × ℕ)
  unfolding pay_from pnl_token_price output_token_price
  pay_from_secondary s due = do
    due_in_secondary ←
        ok_or
          (checked_mul_div due (pick_price (output_token_price s) false)
            (pick_price (pnl_token_price s) false))
          (Error.computation "initializing remaining cost in secondary output token")
    (left, still_due, paid) ←
        pay_from secondary_messages s.report.secondary_output_amount due_in_secondary 0
    cost ←
        ok_or (checked_mul still_due (pick_price (pnl_token_price s) false))
          (Error.computation "calculating remaining cost")
    ok (record s { report = record (s.report) { secondary_output_amount = left } }, cost, paid)

  -- The payment from the collateral and then the secondary output, after `paid` from the output.
  unfoldable pub pay_from_collateral : ProcessState → ℕ → ℕ → Result (ProcessState × ℕ × ℕ × ℕ)
  unfolding pay_from pay_from_secondary
  pay_from_collateral s due paid = if due == 0 then ok (s, 0, paid, 0) else (do
    (left, still_due, paid') ←
        pay_from collateral_messages s.report.remaining_collateral_amount due paid
    let s' = record s { report = record (s.report) { remaining_collateral_amount = left } }
    if still_due == 0 then ok (s', 0, paid', 0) else (do
      (s'', cost, paid_in_secondary) ← pay_from_secondary s' still_due
      ok (s'', cost, paid', paid_in_secondary)))

  -- The state, the cost that is left, and what was paid in the collateral and in the secondary token.
  unfoldable pub do_pay_for_cost : ProcessState → ℕ → Result (ProcessState × ℕ × ℕ × ℕ)
  unfolding pay_from pay_from_collateral output_token_price
  do_pay_for_cost s cost = if cost == 0 then ok (s, cost, 0, 0) else (do
    due ←
        ok_or (checked_round_up_div cost (pick_price (output_token_price s) false))
          (Error.computation "initializing cost in output tokens")
    (left, still_due, paid) ← pay_from output_messages s.report.output_amount due 0
    pay_from_collateral (record s { report = record (s.report) { output_amount = left } }) still_due
        paid)
