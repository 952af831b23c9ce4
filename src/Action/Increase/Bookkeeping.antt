-- ===== src/Action/Increase/Bookkeeping.antt =====
-- What an increase of a position leaves in the books of its market:
-- crates/gmsol-model/src/action/increase_position.rs.
use gmx_solana.Prelude.{
  ltb, ◌^◌, ℕ, ◌+◌, ◌≡◌, refl, Option, Bool, true, false, not, ◌==◌, if◌then◌else◌, arith,
}
use gmx_solana.Result.{
  Error, Ensures, ok, bind, from_option, result, returns, raises, branch, check,
}
use gmx_solana.Num.{signed_neg, FixedPointOps}
use gmx_solana.Num.Exact.{add_with_signed_gives}
use gmx_solana.Price.{Prices, prices_is_valid}
use gmx_solana.Pool.{amount}
use gmx_solana.Fee.Split.{any}
use gmx_solana.Market.State.{Market, collateral_sum_pool, open_interest_pool}
use gmx_solana.Position.{Position, on_increased, validate}
use gmx_solana.Action.Holdings.{holdings}
use gmx_solana.Action.Increase.{
  IncreasePositionParams, IncreasePositionReport, execute_initialized, settle_funding,
  initialize_position_if_empty, validate_increase, get_execution_params, execute, increase, try_new,
}
use gmx_solana.Action.Increase.Effect.{KeepsApart, impact-Effect}
use gmx_solana.Action.Increase.Steps.{process-Charged, size-Settled}

module _ (a b : Bool) where
  -- The position after an increase, with its market.
  record Booked (increment s collateral size : ℕ) (m : Market)
      (r : Position × IncreasePositionReport) : Type 0 where
    total :
        holdings r.0.market b
          + amount (collateral_sum_pool r.0.market a) b
          + r.1.fees.funding.amount
        ≡ holdings m b + amount (collateral_sum_pool m a) b + increment
    far : holdings r.0.market (not b) ≡ holdings m (not b)
    sum :
        amount (collateral_sum_pool r.0.market a) b + collateral
        ≡ amount (collateral_sum_pool m a) b + r.0.collateral_amount
    interest : amount (open_interest_pool r.0.market a) b ≡ amount (open_interest_pool m a) b + s
    size_in_usd : r.0.size_in_usd ≡ size + s

module _ ⦃n : FixedPointOps⦄ where
  increased_keeps :
      (p : Position)
      → Ensures (on_increased p) (λ q.
        (q.market ≡ p.market)
        × (q.collateral_amount ≡ p.collateral_amount)
        × (q.size_in_usd ≡ p.size_in_usd))
  unfolding on_increased
  increased_keeps p =
      branch (ltb (p.trade_count + 1) (2 ^ 64)) (λ _. returns (refl, refl, refl)) (λ _. raises)

  -- What an increase of `p` with the parameters leaves.
  abbrev ResultOf : Position → IncreasePositionParams → Position × IncreasePositionReport → Type 0
  ResultOf p params =
      Booked p.is_long p.is_collateral_token_long params.collateral_increment_amount
        params.size_delta_usd p.collateral_amount p.size_in_usd p.market

  initialized-Booked :
      (p : Position) (params : IncreasePositionParams)
      → KeepsApart p.is_long p.market
      → Ensures (execute_initialized p params) (ResultOf p params)
  unfolding execute_initialized
  initialized-Booked p params h =
      let a = p.is_long in
      let b = p.is_collateral_token_long in
      bind _ (result (get_execution_params p params)) λ e _.
        bind _ (process-Charged p params e.price_impact_value h) λ r c.
          bind _ (from_option _ _ (add_with_signed_gives p.collateral_amount r.1)) λ coll k.
            bind _ (from_option _ _ (any (signed_neg e.price_impact_amount))) λ i _.
              bind _ (impact-Effect b i r.0 a c.apart) λ m₂ f.
                bind _
                  (size-Settled (record p { market = m₂; collateral_amount = coll }) params e
                    f.apart)
                  λ p₁ g. bind _ (result (validate_increase p₁ params)) λ _ _.
                    bind _ (result (validate p₁ params.prices true true)) λ _ _.
                      bind _ (increased_keeps p₁) λ p₂ s. returns (record {
                        total =
                            rw s.0
                              (omega (arith, c.total, f.near, f.sum, g.effect.near, g.effect.sum));
                        far = rw s.0 (omega (arith, c.far, f.far, g.effect.far));
                        sum = rw s.0 (
                            rw s.1
                              (omega (arith, k, c.sum, f.sum, g.effect.sum, g.collateral_amount)));
                        interest =
                            rw s.0 (omega (arith, c.interest, f.interest, g.effect.interest));
                        size_in_usd = rw s.2 (omega (arith, g.size_in_usd));
                      })

  module _ (p : Position) (params : IncreasePositionParams)
      (h : KeepsApart p.is_long p.market) where
    at :
        (c : Bool)
        → Ensures
            (execute_initialized
              (if c then settle_funding (record p { size_in_tokens = 0 }) else p)
              params)
            (ResultOf p params)
    unfolding settle_funding
    at true = initialized-Booked (settle_funding (record p { size_in_tokens = 0 })) params h
    at false = initialized-Booked p params h

    execute-Booked : Ensures (execute p params) (ResultOf p params)
    unfolding execute initialize_position_if_empty
    execute-Booked = at (p.size_in_usd == 0)

  pub try_new_keeps :
      (prices : Prices) (increment size : ℕ) (acceptable : Option ℕ)
      → Ensures (try_new prices increment size acceptable) (λ params.
        (params.collateral_increment_amount ≡ increment)
        × (params.size_delta_usd ≡ size)
        × (params.prices ≡ prices))
  unfolding try_new
  try_new_keeps prices increment size acceptable =
      bind _ (check (not (prices_is_valid prices)) (Error.invalid_argument "invalid prices"))
        λ _ _. returns (refl, refl, refl)

  increase-Booked :
      (p : Position) (prices : Prices) (increment size : ℕ) (acceptable : Option ℕ)
      → KeepsApart p.is_long p.market
      → Ensures (increase p prices increment size acceptable) (
          Booked p.is_long p.is_collateral_token_long increment size p.collateral_amount
            p.size_in_usd p.market)
  unfolding increase
  increase-Booked p prices increment size acceptable h =
      bind _ (try_new_keeps prices increment size acceptable)
        λ params k. rw (← k.0) (rw (← k.1) (execute-Booked p params h))

  -- After an increase of a position in a market whose pools for liquidity, claimable fees, collateral
  -- and open interest keep their sides apart, what the market holds of the token of the collateral,
  -- collateral included, and the funding fee that was charged, add up to what it held before and the
  -- increment of the collateral; what it holds of the other token is unchanged; the collateral of the
  -- position and the total collateral of its side have moved by the same amount; and the size of the
  -- position and the open interest of its side have both grown by the size that was asked for.
  pub increase_balances :
      (p : Position) (prices : Prices) (increment size : ℕ) (acceptable : Option ℕ)
      → KeepsApart p.is_long p.market
      → {q : Position} {report : IncreasePositionReport}
      → increase p prices increment size acceptable ≡ ok (q, report)
      → let a = p.is_long in
        let b = p.is_collateral_token_long in
        (holdings q.market b
            + amount (collateral_sum_pool q.market a) b
            + report.fees.funding.amount
          ≡ holdings p.market b + amount (collateral_sum_pool p.market a) b + increment)
        × (holdings q.market (not b) ≡ holdings p.market (not b))
        × (amount (collateral_sum_pool q.market a) b + p.collateral_amount
            ≡ amount (collateral_sum_pool p.market a) b + q.collateral_amount)
        × (amount (open_interest_pool q.market a) b
            ≡ amount (open_interest_pool p.market a) b + size)
        × (q.size_in_usd ≡ p.size_in_usd + size)
  increase_balances p prices increment size acceptable h {q} {report} e =
      let booked = (increase-Booked p prices increment size acceptable h).apply (q, report) e in
      (booked.total, booked.far, booked.sum, booked.interest, booked.size_in_usd)
