-- ===== src/Action/Decrease/Losses.antt =====
-- What a loss moves: `pay_for_pnl_if_negative` of
-- crates/gmsol-model/src/action/decrease_position/collateral_processor.rs.
use gmx_solana.Prelude.{ℕ, ◌+◌, ◌≡◌, ◌==◌, refl, Bool, true, false, not, arith}
use gmx_solana.Prelude.Int.{ℤ, pos, abs, is_negative}
use gmx_solana.Result.{Ensures, ok, bind, returns, branch}
use gmx_solana.Num.{FixedPointOps}
use gmx_solana.Num.Exact.{to_signed_ensures}
use gmx_solana.Market.State.{Market}
use gmx_solana.Action.Holdings.{holdings, IsTwoSided, Flow, into_pool-Flow}
use gmx_solana.Action.Decrease.Costs.Order.{cost-Ordered}
use gmx_solana.Action.Decrease.Processor.{
  CollateralProcessor, Payment, solvent, apply_nonzero, pay_to_primary_pool, pay_amounts,
  pay_for_cost,
}
use gmx_solana.Action.Decrease.Steps.{pay_for_pnl_if_negative}

-- The liquidity pool has received `near` tokens of the side `b` and `far` of the other.
pub record Received (b : Bool) (near far : ℕ) (m m' : Market) : Type 0 where
  pub this : holdings m' b ≡ holdings m b + near
  pub other : holdings m' (not b) ≡ holdings m (not b) + far

module _ ⦃n : FixedPointOps⦄ where
  nonzero-Flow :
      (m : Market) (b : Bool) (x : ℤ) (k : ℕ)
      → IsTwoSided m
      → x ≡ pos k
      → Ensures (apply_nonzero m b x) (Flow b k 0 m)
  unfolding apply_nonzero
  nonzero-Flow m b x k h e =
      branch (abs x == 0)
        (λ z.
          let none : k ≡ 0 = ground arith in
          returns (record {
            near = omega arith;
            far = refl;
            two_sided = h;
            supply = refl;
            to_mint = refl;
            to_burn = refl;
          }))
        (λ _. into_pool-Flow m h b x k e)

  joined :
      (b : Bool) (i j : ℕ) {m m₁ m₂ : Market}
      → Flow b i 0 m m₁
      → Flow (not b) j 0 m₁ m₂
      → Received b i j m m₂
  joined true i j f g = record {
    this = omega (arith, f.near, g.far);
    other = omega (arith, f.far, g.near);
  }
  joined false i j f g = record {
    this = omega (arith, f.near, g.far);
    other = omega (arith, f.far, g.near);
  }

  pub amounts-Received :
      (p : CollateralProcessor) (b : Bool) (i j : ℕ)
      → p.state.is_output_token_long ≡ b
      → p.state.is_pnl_token_long ≡ not b
      → IsTwoSided p.market
      → Ensures (pay_amounts p i j) (λ q. Received b i j p.market q.market × (q.state ≡ p.state))
  unfolding pay_amounts pay_to_primary_pool
  amounts-Received p b i j output pnl h = bind _ (to_signed_ensures i) λ x e.
      bind _ (to_signed_ensures j) λ y f.
        bind {P = Flow b i 0 p.market} (apply_nonzero p.market p.state.is_output_token_long x)
          (rw output (nonzero-Flow p.market b x i h e.0))
          λ m₁ g.
            bind {P = Flow (not b) j 0 m₁} (apply_nonzero m₁ p.state.is_pnl_token_long y)
              (rw pnl (nonzero-Flow m₁ (not b) y j g.two_sided f.0))
              λ m₂ k. returns (joined b i j g k, refl)

  -- The tokens of a side that the market and the position hold together are the same.
  record Kept (b : Bool) (p q : CollateralProcessor) : Type 0 where
    this :
        holdings q.market b
          + q.state.report.output_amount
          + q.state.report.remaining_collateral_amount
        ≡ holdings p.market b
          + p.state.report.output_amount
          + p.state.report.remaining_collateral_amount
    other :
        holdings q.market (not b) + q.state.report.secondary_output_amount
        ≡ holdings p.market (not b) + p.state.report.secondary_output_amount

  loss-Kept :
      (p : CollateralProcessor) (pnl : ℤ) (b : Bool)
      → p.state.is_output_token_long ≡ b
      → p.state.is_pnl_token_long ≡ not b
      → IsTwoSided p.market
      → Ensures (pay_for_pnl_if_negative p pnl) (λ r. Kept b p r.after)
  unfolding pay_for_pnl_if_negative pay_for_cost solvent
  loss-Kept p pnl b output side h =
      branch (is_negative pnl)
        (λ _. bind _ (cost-Ordered p.state (abs pnl)) λ r o.
          bind _
            (amounts-Received (record p { state = r.0 }) b r.2 r.3 (let x = o.output_side in cc)
              (let x = o.pnl_side in cc) h)
            λ q k. returns (record {
              this = rw (k.1) (omega (arith, k.0.this, o.collateral));
              other = rw (k.1) (omega (arith, k.0.other, o.secondary));
            }))
        (λ _. returns (record { this = refl; other = refl }))

  -- The payment of a loss, in a market that keeps its sides apart and a position whose profits are in the
  -- token other than that of its collateral, moves tokens from the position to the market and loses none:
  -- of each token, what the market and the position hold together stays the same, whether or not the
  -- funds suffice.
  pub pay_for_pnl_conserves :
      (p : CollateralProcessor) (pnl : ℤ) (b : Bool)
      → p.state.is_output_token_long ≡ b
      → p.state.is_pnl_token_long ≡ not b
      → IsTwoSided p.market
      → {r : Payment CollateralProcessor} → pay_for_pnl_if_negative p pnl ≡ ok r
      → (holdings r.after.market b
            + r.after.state.report.output_amount
            + r.after.state.report.remaining_collateral_amount
          ≡ holdings p.market b
            + p.state.report.output_amount
            + p.state.report.remaining_collateral_amount)
        × (holdings r.after.market (not b) + r.after.state.report.secondary_output_amount
            ≡ holdings p.market (not b) + p.state.report.secondary_output_amount)
  pay_for_pnl_conserves p pnl b output side h {r} e =
      let k = (loss-Kept p pnl b output side h).apply r e in (k.this, k.other)
