-- ===== src/Position/Collateral.antt =====
-- Whether the collateral of a position is enough, and the validation that rests on it.
use gmx_solana.Prelude.{
  ℕ, Bool, true, false, not, Option, none, some, ◌&&◌, ◌||◌, ltb, ◌==◌, if◌then◌else◌,
}
use gmx_solana.Prelude.Int.{ℤ, pos, abs, is_positive, is_negative}
use gmx_solana.Result.{Result, ok, err, Error, ok_or, err_if, ◌>>=◌, ◌>>◌, LiquidatableReason}
use gmx_solana.Num.{
  FixedPointOps, checked_mul, signed_add, signed_sub, to_signed, to_opposite_signed, try_signed,
}
use gmx_solana.Utils.{apply_factor}
use gmx_solana.Price.{Prices, pick_price}
use gmx_solana.Fee.{total_cost_amount}
use gmx_solana.Market.Perp.{
  position_params, min_collateral_factor_for_open_interest, cap_negative_position_price_impact,
}
use gmx_solana.Position.State.{Position}
use gmx_solana.Position.Value.{
  collateral_price, collateral_value, pnl_value, position_price_impact, position_fees,
}

pub record CollateralDelta : Type 0 where
  pub next_size_in_usd : ℕ
  pub next_collateral_amount : ℕ
  pub realized_pnl_value : ℤ
  pub open_interest_delta : ℤ

pub data WillCollateralBeSufficient : Type 0 where
  sufficient insufficient : ℤ → WillCollateralBeSufficient

unfoldable pub is_sufficient : WillCollateralBeSufficient → Bool
is_sufficient (WillCollateralBeSufficient.sufficient v) = true
is_sufficient (WillCollateralBeSufficient.insufficient v) = false

pub data CheckCollateralResult : Type 0 where
  sufficient zero negative min_collateral_for_leverage min_collateral : CheckCollateralResult

-- Whether a value is below a minimum, if there is one.
unfoldable pub is_below : ℕ → Option ℕ → Bool
is_below value none = false
is_below value (some min) = ltb value min

unfoldable pub below_zero : Option ℕ → CheckCollateralResult
below_zero none = CheckCollateralResult.negative
below_zero (some min) = CheckCollateralResult.min_collateral

unfoldable pub liquidatable_reason : CheckCollateralResult → Option LiquidatableReason
liquidatable_reason CheckCollateralResult.sufficient = none
liquidatable_reason CheckCollateralResult.zero = some LiquidatableReason.not_positive
liquidatable_reason CheckCollateralResult.negative = some LiquidatableReason.not_positive
liquidatable_reason CheckCollateralResult.min_collateral_for_leverage =
    some LiquidatableReason.min_collateral_for_leverage
liquidatable_reason CheckCollateralResult.min_collateral = some LiquidatableReason.min_collateral

-- The match of `will_collateral_be_sufficient` on the check, for the remaining value.
unfoldable pub sufficiency : ℤ → CheckCollateralResult → Result WillCollateralBeSufficient
sufficiency v CheckCollateralResult.sufficient = ok (WillCollateralBeSufficient.sufficient v)
sufficiency v CheckCollateralResult.negative = ok (WillCollateralBeSufficient.insufficient v)
sufficiency v CheckCollateralResult.min_collateral_for_leverage =
    ok (WillCollateralBeSufficient.insufficient v)
sufficiency v CheckCollateralResult.zero =
    err (Error.panic "internal error: entered unreachable code")
sufficiency v CheckCollateralResult.min_collateral =
    err (Error.panic "internal error: entered unreachable code")

-- The last step of `validate`.
unfoldable pub err_if_liquidatable : Option LiquidatableReason → Result (Unit {0})
err_if_liquidatable none = ok tt
err_if_liquidatable (some reason) = err (Error.liquidatable reason)

abbrev max : ℕ → ℕ → ℕ
max a b = if ltb b a then a else b

module _ ⦃n : FixedPointOps⦄ where
  unfoldable pub check_collateral : ℕ → ℕ → Option ℕ → Bool → ℤ → Result CheckCollateralResult
  check_collateral size min_factor min_value allow_zero value =
      if is_negative value
      then ok (below_zero min_value)
      else if is_below (abs value) min_value
      then ok CheckCollateralResult.min_collateral
      else if not allow_zero && (abs value == 0)
      then ok CheckCollateralResult.zero
      else (do
        min_for_leverage ←
            ok_or (apply_factor size min_factor)
              (Error.computation "calculating min collateral usd for leverage")
        ok (
            if ltb (abs value) min_for_leverage
            then CheckCollateralResult.min_collateral_for_leverage
            else CheckCollateralResult.sufficient))

  unfoldable pub will_collateral_be_sufficient :
      Position → Prices → CollateralDelta → Result WillCollateralBeSufficient
  will_collateral_be_sufficient p prices delta = do
    value ←
        ok_or
          (checked_mul delta.next_collateral_amount (pick_price (collateral_price p prices) false))
          (Error.computation "overflow calculating collateral value")
    signed_value ← to_signed value
    remaining ←
        if is_negative delta.realized_pnl_value
        then ok_or (signed_add signed_value delta.realized_pnl_value)
            (Error.computation "adding realized pnl")
        else ok signed_value
    if is_negative remaining then ok (WillCollateralBeSufficient.insufficient remaining) else (do
      for_open_interest ←
          min_collateral_factor_for_open_interest p.market delta.open_interest_delta p.is_long
      check ←
          check_collateral delta.next_size_in_usd
            (max for_open_interest (position_params p.market).min_collateral_factor) none true
            remaining
      sufficiency remaining check)

  -- The price impact that counts against a position: none, unless it is negative.
  unfoldable pub impact_for_liquidation : Position → ℤ → ℤ → Result ℤ
  impact_for_liquidation p size_delta_usd impact =
      if is_negative impact
      then (do
        (capped, _) ← cap_negative_position_price_impact p.market size_delta_usd true impact
        ok capped)
      else ok (pos 0)

  unfoldable pub remaining_collateral_value : Position → Prices → Result ℤ
  unfolding impact_for_liquidation
  remaining_collateral_value p prices = do
    (pnl, _, _) ← pnl_value p prices p.size_in_usd
    value ← collateral_value p prices
    size_delta_usd ← to_opposite_signed p.size_in_usd
    impact ← position_price_impact p size_delta_usd
    impact_value ← impact_for_liquidation p size_delta_usd impact
    fees ← position_fees p (collateral_price p prices) p.size_in_usd (is_positive impact) false
    cost ← total_cost_amount fees
    cost_value ←
        ok_or (checked_mul cost (pick_price (collateral_price p prices) false))
          (Error.computation "overflow calculating collateral cost value")
    signed_value ← to_signed value
    with_pnl ←
        ok_or (signed_add signed_value pnl)
          (Error.computation "calculating remaining collateral value")
    with_impact ←
        ok_or (signed_add with_pnl impact_value)
          (Error.computation "calculating remaining collateral value")
    signed_cost ←
        ok_or (try_signed cost_value) (Error.computation "calculating remaining collateral value")
    ok_or (signed_sub with_impact signed_cost)
        (Error.computation "calculating remaining collateral value")

  unfoldable pub check_liquidatable : Position → Prices → Bool → Result (Option LiquidatableReason)
  unfolding remaining_collateral_value
  check_liquidatable p prices should_validate_min_collateral_usd = do
    remaining ← remaining_collateral_value p prices
    check ←
        check_collateral p.size_in_usd (position_params p.market).min_collateral_factor
          (if should_validate_min_collateral_usd
            then some (position_params p.market).min_collateral_value
            else none)
          false remaining
    ok (liquidatable_reason check)

  unfoldable pub validate : Position → Prices → Bool → Bool → Result (Unit {0})
  validate p prices should_validate_min_position_size should_validate_min_collateral_usd = do
    err_if (p.size_in_usd == 0 || p.size_in_tokens == 0)
        (Error.invalid_position "size_in_usd or size_in_tokens is zero")
    p.on_validate
    err_if
        (should_validate_min_position_size
          && ltb p.size_in_usd (position_params p.market).min_position_size_usd)
        (Error.invalid_position "size in usd too small")
    reason ← check_liquidatable p prices should_validate_min_collateral_usd
    err_if_liquidatable reason
