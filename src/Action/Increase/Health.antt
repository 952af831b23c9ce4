-- ===== src/Action/Increase/Health.antt =====
-- What is left of the collateral of a position after an increase:
-- crates/gmsol-model/src/action/increase_position.rs and position.rs.
use gmx_solana.Prelude.{
  ℕ, ◌+◌, ◌*◌, ◌/◌, ◌^◌, ◌≤◌, ◌<◌, ◌≡◌, refl, Option, none, some, true, false, ◌==◌, ◌||◌, ltb,
  if◌then◌else◌, arith,
}
use gmx_solana.Prelude.Int.{ℤ, abs, is_negative}
use gmx_solana.Result.{
  Ensures, ok, bind, from_option, result, returns, raises, branch, weaken, check,
  LiquidatableReason,
}
use gmx_solana.Num.{FixedPointOps, signed_neg, checked_add_with_signed}
use gmx_solana.Num.Exact.{mul_div_gives}
use gmx_solana.Utils.{apply_factor}
use gmx_solana.Price.{Prices}
use gmx_solana.Fee.Split.{any}
use gmx_solana.Market.Perp.{position_params}
use gmx_solana.Position.{
  Position, CheckCollateralResult, check_collateral, is_below, below_zero, liquidatable_reason,
  pnl_value, collateral_value, collateral_price, position_price_impact, impact_for_liquidation,
  position_fees, liquidation_fees, pending_borrowing_fee_value, pending_funding_fees,
  claimable_per_size, uncapped_total_pnl, cap_total_pnl, size_delta_in_tokens,
  remaining_collateral_value, check_liquidatable, err_if_liquidatable, validate, on_increased,
}
use gmx_solana.Action.DistributePositionImpact.{apply_delta_to_position_impact_pool}
use gmx_solana.Action.Increase.{
  IncreasePositionParams, IncreasePositionReport, get_execution_params, process_collateral,
  increase_size, validate_increase, execute_initialized, initialize_position_if_empty, execute,
  increase,
}
use gmx_solana.Action.Increase.Bookkeeping.{try_new_keeps}

-- Nothing but the good result of the check is no reason to liquidate.
no_reason :
    (r : CheckCollateralResult)
    → liquidatable_reason r ≡ none
    → r ≡ CheckCollateralResult.sufficient
unfolding liquidatable_reason
no_reason CheckCollateralResult.sufficient e = refl
no_reason CheckCollateralResult.zero e = cc
no_reason CheckCollateralResult.negative e = cc
no_reason CheckCollateralResult.min_collateral_for_leverage e = cc
no_reason CheckCollateralResult.min_collateral e = cc

module _ ⦃n : FixedPointOps⦄ where
  open n use {unit}

  -- A value that is at least the minimum, and at least the part of the size that the factor asks for.
  pub record IsEnough (size factor min : ℕ) (value : ℤ) : Type 0 where
    pub positive : (is_negative value ≡ false) × (0 < abs value)
    pub at_least : min ≤ abs value
    pub for_leverage : size * factor / unit ≤ abs value

  last :
      (size factor min : ℕ) (value : ℤ) (needed : ℕ)
      → is_negative value ≡ false
      → ltb (abs value) min ≡ false
      → (abs value == 0) ≡ false
      → needed ≡ size * factor / unit
      → (if ltb (abs value) needed
          then CheckCollateralResult.min_collateral_for_leverage
          else CheckCollateralResult.sufficient)
        ≡ CheckCollateralResult.sufficient
      → IsEnough size factor min value
  last size factor min value needed sign at_least nonzero h e = record {
    positive = (sign, ground arith);
    at_least = ground arith;
    for_leverage = rw (← h) (ground arith);
  }

  check_collateral-IsEnough :
      (size factor min : ℕ) (value : ℤ)
      → Ensures
          (check_collateral size factor (some min) false value)
          (λ r. r ≡ CheckCollateralResult.sufficient → IsEnough size factor min value)
  unfolding check_collateral is_below below_zero apply_factor
  check_collateral-IsEnough size factor min value =
      branch (is_negative value) (λ _. returns (λ e. cc))
        λ sign.
          branch (ltb (abs value) min) (λ _. returns (λ e. cc))
            λ at_least.
              branch (abs value == 0) (λ _. returns (λ e. cc))
                λ nonzero.
                  bind _ (from_option _ _ (mul_div_gives size factor unit)) λ needed h.
                    returns (last size factor min value needed sign at_least nonzero h.0)

  liquidatable_none :
      (p : Position) (prices : Prices)
      → Ensures (check_liquidatable p prices true) (λ reason.
        reason ≡ none
        → (value : ℤ) × (remaining_collateral_value p prices ≡ ok value)
          × IsEnough p.size_in_usd
              (position_params p.market).min_collateral_factor
              (position_params p.market).min_collateral_value
              value)
  unfolding check_liquidatable
  liquidatable_none p prices = bind _ (result (remaining_collateral_value p prices)) λ v e.
      bind _ (check_collateral-IsEnough p.size_in_usd _ _ v)
        λ r h. returns (λ none_. (v, e, h (no_reason r none_)))

  no_error :
      (reason : Option LiquidatableReason)
      → Ensures (err_if_liquidatable reason) (λ _. reason ≡ none)
  unfolding err_if_liquidatable
  no_error none = returns refl
  no_error (some r) = raises

  -- What `validate` has checked, with both of its flags set.
  pub record IsHealthy (p : Position) (prices : Prices) : Type 0 where
    pub has_size : (0 < p.size_in_usd) × (0 < p.size_in_tokens)
    pub min_size : (position_params p.market).min_position_size_usd ≤ p.size_in_usd
    pub collateral :
        (value : ℤ) × (remaining_collateral_value p prices ≡ ok value)
        × IsEnough p.size_in_usd
            (position_params p.market).min_collateral_factor
            (position_params p.market).min_collateral_value
            value

  validate-IsHealthy :
      (p : Position) (prices : Prices)
      → Ensures (validate p prices true true) (λ _. IsHealthy p prices)
  unfolding validate
  validate-IsHealthy p prices =
      bind _ (check (p.size_in_usd == 0 || p.size_in_tokens == 0) _) λ _ nonzero.
        bind _ (result p.on_validate) λ _ _.
          bind _ (check (ltb p.size_in_usd (position_params p.market).min_position_size_usd) _)
            λ _ large. bind _ (liquidatable_none p prices) λ reason h.
              weaken _
                (λ _ e. record {
                  has_size = (ground arith, ground arith);
                  min_size = ground arith;
                  collateral = h e;
                })
                (no_error reason)

  increased-IsHealthy :
      (p : Position) (prices : Prices)
      → IsHealthy p prices
      → Ensures (on_increased p) (λ q. IsHealthy q prices)
  unfolding on_increased remaining_collateral_value pnl_value collateral_value collateral_price
      position_price_impact impact_for_liquidation position_fees liquidation_fees
      pending_borrowing_fee_value pending_funding_fees claimable_per_size uncapped_total_pnl
      cap_total_pnl size_delta_in_tokens
  increased-IsHealthy p prices h =
      branch (ltb (p.trade_count + 1) (2 ^ 64))
        (λ _.
          returns
            (record { has_size = h.has_size; min_size = h.min_size; collateral = h.collateral }))
        (λ _. raises)

  initialized-IsHealthy :
      (p : Position) (params : IncreasePositionParams)
      → Ensures (execute_initialized p params) (λ r. IsHealthy r.0 params.prices)
  unfolding execute_initialized
  initialized-IsHealthy p params = bind _ (result (get_execution_params p params)) λ e _.
      bind _ (result (process_collateral p params e.price_impact_value)) λ r _.
        bind _ (from_option _ _ (any (checked_add_with_signed p.collateral_amount r.1))) λ coll _.
          bind _ (from_option _ _ (any (signed_neg e.price_impact_amount))) λ i _.
            bind _ (result (apply_delta_to_position_impact_pool r.0 i)) λ m₂ _.
              bind _
                (result
                  (increase_size (record p { market = m₂; collateral_amount = coll }) params e))
                λ p₁ _. bind _ (result (validate_increase p₁ params)) λ _ _.
                  bind _ (validate-IsHealthy p₁ params.prices)
                    λ _ h. bind _ (increased-IsHealthy p₁ params.prices h) λ p₂ k. returns k

  increase-Ensures :
      (p : Position) (prices : Prices) (increment size : ℕ) (acceptable : Option ℕ)
      → Ensures (increase p prices increment size acceptable) (λ r. IsHealthy r.0 prices)
  unfolding increase execute
  increase-Ensures p prices increment size acceptable =
      bind _ (try_new_keeps prices increment size acceptable)
        λ params k. rw (← k.2) (initialized-IsHealthy (initialize_position_if_empty p) params)

  -- An increase leaves a position with a size in usd and in tokens that is at least the smallest one
  -- allowed, and whose remaining collateral, its pending profit or loss, a negative price impact of closing
  -- it and its fees counted, is positive, at least the smallest collateral allowed and at least the part of
  -- the size that the leverage asks for: a position that has just been increased cannot be liquidated at
  -- the same prices.
  pub increase-IsHealthy :
      (p : Position) (prices : Prices) (increment size : ℕ) (acceptable : Option ℕ)
      → {q : Position} {report : IncreasePositionReport}
      → increase p prices increment size acceptable ≡ ok (q, report)
      → IsHealthy q prices
  increase-IsHealthy p prices increment size acceptable {q} {report} e =
      (increase-Ensures p prices increment size acceptable).apply (q, report) e
