-- ===== src/Action/Decrease/Charges.antt =====
-- What the fees other than the funding fee move: `pay_for_fees_excluding_funding` of
-- crates/gmsol-model/src/action/decrease_position/collateral_processor.rs.
use gmx_solana.Prelude.{
  ℕ, zero, suc, ◌+◌, ◌-◌, ◌*◌, ◌≤◌, ◌<◌, ◌≡◌, ◌==◌, ◌&&◌, refl, ◌∙◌, Bool, false, not, arith,
}
use gmx_solana.Result.{Ensures, ok, bind, from_option, result, returns, branch}
use gmx_solana.Num.{FixedPointOps}
use gmx_solana.Num.Exact.{to_signed_ensures, mul_gives}
use gmx_solana.Price.{pick_price}
use gmx_solana.Fee.{PositionFees, for_pool, for_receiver, total_cost_excluding_funding}
use gmx_solana.Fee.Split.{for_pool-add-for_receiver}
use gmx_solana.Action.Holdings.{holdings, IsTwoSided, Flow, into_pool-Flow, into_claimable-Flow}
use gmx_solana.Market.Liquidity.{apply_delta, apply_delta_to_claimable_fee_pool}
use gmx_solana.Action.Decrease.Costs.{output_token_price, pnl_token_price}
use gmx_solana.Action.Decrease.Costs.Order.{cost-Ordered, output_price, secondary_price}
use gmx_solana.Action.Decrease.Processor.{CollateralProcessor, Payment, solvent, pay_for_cost}
use gmx_solana.Action.Decrease.Steps.{receive_fees, pay_for_fees_excluding_funding}
use gmx_solana.Action.Decrease.Losses.{amounts-Received}
use native.Mathlib.Nat.{lt_of_mul-lt-mul_right, zero-mul}

-- What the market has received: `excess` tokens of the side `b` more than `paid`.
record Credited (b : Bool) (paid secondary excess : ℕ) (p q : CollateralProcessor) : Type 0 where
  this : holdings q.market b ≡ holdings p.market b + paid + excess
  other : holdings q.market (not b) ≡ holdings p.market (not b) + secondary
  state : q.state ≡ p.state

excess_worth : (paid excess po ps : ℕ) → (paid + excess) * po ≤ paid * po + ps → excess * po ≤ ps
excess_worth paid excess po ps h = omega arith

-- A payment that is worth less than one more token is of no more tokens.
no_more :
    (paid cost po : ℕ) → (cost * po ≡ 0 → paid ≡ 0) → paid * po ≤ cost * po + (po - 1) → paid ≤ cost
no_more paid cost zero free h = let e : paid ≡ 0 = free (omega arith) in omega arith
no_more paid cost (suc k) free h =
    let below : paid < suc cost = lt_of_mul-lt-mul_right (suc k) (omega arith) in omega arith

module _ ⦃n : FixedPointOps⦄ where
  -- The fees are credited in full or, where they were not paid in full, what was paid for them is.
  received :
      (fees : PositionFees) (p : CollateralProcessor) (b : Bool)
      (cost paid secondary left po ps : ℕ)
      → total_cost_excluding_funding fees ≡ ok cost
      → p.state.is_output_token_long ≡ b
      → p.state.is_pnl_token_long ≡ not b
      → IsTwoSided p.market
      → paid ≤ cost
      → cost * po ≤ paid * po + secondary * ps + left + (ps - 1)
      → Ensures
          (receive_fees fees p paid secondary left)
          (λ r. (e : ℕ) × Credited b paid secondary e p r.0 × (e * po ≤ ps - 1))
  unfolding receive_fees
  received fees p b cost paid secondary left po ps total output pnl h most worth =
      branch (left == 0 && secondary == 0)
        (λ full. bind _ (result (for_pool fees)) λ pool e₁. bind _ (to_signed_ensures pool) λ x e₂.
          bind {P = Flow b pool 0 p.market} (apply_delta p.market p.state.is_output_token_long x)
            (rw output (into_pool-Flow p.market h b x pool e₂.0))
            λ m₁ f. bind _ (result (for_receiver fees)) λ receiver e₃.
              bind _ (to_signed_ensures receiver) λ y e₄.
                bind {P = Flow b receiver 0 m₁}
                  (apply_delta_to_claimable_fee_pool m₁ p.state.is_output_token_long y)
                  (rw output (into_claimable-Flow m₁ f.two_sided b y receiver e₄.0))
                  λ m₂ g.
                    let sum = for_pool-add-for_receiver fees total e₁ e₃ in
                    let none : secondary ≡ 0 = ground arith in
                    returns (
                      cost - paid,
                      record {
                        this = omega (arith, f.near, g.near, sum);
                        other = omega (arith, f.far, g.far, none);
                        state = refl;
                      },
                      excess_worth paid (cost - paid) po (ps - 1) (
                          let all : paid + (cost - paid) ≡ cost = omega arith in
                          let due : left ≡ 0 = ground arith in
                          let gone : secondary * ps ≡ 0 = rw none (zero-mul ps) in
                          rw all (omega (arith, worth, due, gone))),
                    ))
        (λ partial. bind _ (amounts-Received p b paid secondary output pnl h) λ q k. returns (
          0,
          record { this = omega (arith, k.0.this); other = k.0.other; state = k.1 },
          omega arith,
        ))

  -- Of each token, what the market and the position hold together, with the excess of the one that the
  -- fees are charged in.
  record Charged (b : Bool) (p q : CollateralProcessor) : Type 0 where
    excess : ℕ
    this :
        holdings q.market b
          + q.state.report.output_amount
          + q.state.report.remaining_collateral_amount
        ≡ holdings p.market b
          + p.state.report.output_amount
          + p.state.report.remaining_collateral_amount
          + excess
    other :
        holdings q.market (not b) + q.state.report.secondary_output_amount
        ≡ holdings p.market (not b) + p.state.report.secondary_output_amount
    worth : excess * output_price p.state ≤ secondary_price p.state - 1

  fees-Charged :
      (p : CollateralProcessor) (fees : PositionFees) (b : Bool)
      → p.state.is_output_token_long ≡ b
      → p.state.is_pnl_token_long ≡ not b
      → IsTwoSided p.market
      → Ensures (pay_for_fees_excluding_funding p fees) (λ r. Charged b p r.after.0)
  unfolding pay_for_fees_excluding_funding pay_for_cost solvent
  fees-Charged p fees b output side h =
      bind _ (result (total_cost_excluding_funding fees)) λ amount total.
        branch (amount == 0)
          (λ _.
            returns (record { excess = 0; this = omega arith; other = refl; worth = omega arith }))
          λ _. bind _ (from_option _ _ (mul_gives amount (output_price p.state))) λ cost c.
            bind _ (cost-Ordered p.state cost) λ r o.
              bind _
                (received fees (record p { state = r.0 }) b amount r.2 r.3 r.1
                  (output_price p.state) (secondary_price p.state) total
                  (let x = o.output_side in cc) (let x = o.pnl_side in cc) h
                  (no_more r.2 amount (output_price p.state) (λ z. o.free (c.0 ∙ z))
                    (let x = o.at_most in let y = c.0 in omega arith))
                  (let x = o.covered in let y = c.0 in omega arith))
                λ q k. returns (record {
                  excess = k.0;
                  this = rw (k.1.state) (omega (arith, k.1.this, o.collateral));
                  other = rw (k.1.state) (omega (arith, k.1.other, o.secondary));
                  worth = k.2;
                })

  -- The payment of the fees other than the funding fee, in a market that keeps its sides apart and a
  -- position whose profits are in the token other than that of its collateral: of that other token the
  -- market and the position hold together what they held before, and of the token of the collateral what
  -- they held before and an excess that is, at the prices of the payment, worth at most the price of one
  -- unit of the other token less one.
  pub pay_for_fees_excess :
      (p : CollateralProcessor) (fees : PositionFees) (b : Bool)
      → p.state.is_output_token_long ≡ b
      → p.state.is_pnl_token_long ≡ not b
      → IsTwoSided p.market
      → {r : Payment (CollateralProcessor × PositionFees)}
      → pay_for_fees_excluding_funding p fees ≡ ok r
      → (excess : ℕ) × (holdings r.after.0.market b
            + r.after.0.state.report.output_amount
            + r.after.0.state.report.remaining_collateral_amount
          ≡ holdings p.market b
            + p.state.report.output_amount
            + p.state.report.remaining_collateral_amount
            + excess)
        × (holdings r.after.0.market (not b) + r.after.0.state.report.secondary_output_amount
            ≡ holdings p.market (not b) + p.state.report.secondary_output_amount)
        × (excess * pick_price (output_token_price p.state) false
            ≤ pick_price (pnl_token_price p.state) false - 1)
  pay_for_fees_excess p fees b output side h {r} e =
      let c = (fees-Charged p fees b output side h).apply r e in
      (c.excess, c.this, c.other, c.worth)
