-- ===== src/Delta.antt =====
-- crates/gmsol-model/src/pool/delta.rs: usd values of a pool before and after a change, and the price
-- impact of the change. crates/gmsol-model/src/params/price_impact.rs.
use gmx_solana.Prelude.{ℕ, Bool, true, false, ltb, leb, xor, not, String, if◌then◌else◌}
use gmx_solana.Prelude.Int.{ℤ}
use gmx_solana.Result.{Result, ok, err, Error, ok_or, ◌>>=◌}
use gmx_solana.Num.{
  FixedPointOps, diff, try_signed, signed_neg, checked_add_with_signed, checked_mul_with_signed,
}
use gmx_solana.Utils.{apply_factors}
use gmx_solana.Pool.{Balance, long_usd_value, short_usd_value}
mod Gap
pub mod Impact

pub record PriceImpactParams : Type 0 where
  pub exponent : ℕ
  pub positive_factor : ℕ
  pub negative_factor : ℕ

-- The positive factor is used only up to the negative one.
unfoldable pub adjusted_factors : PriceImpactParams → ℕ × ℕ
adjusted_factors p =
    if ltb p.negative_factor p.positive_factor
    then (p.negative_factor, p.negative_factor)
    else (p.positive_factor, p.negative_factor)

pub record PoolValue (T : Type 0) : Type 0 where
  pub long_token_usd_value : T
  pub short_token_usd_value : T

unfoldable pub diff_value : PoolValue ℕ → ℕ
diff_value v = diff v.long_token_usd_value v.short_token_usd_value

pub record PoolDelta : Type 0 where
  pub current : PoolValue ℕ
  pub next : PoolValue ℕ
  pub delta : PoolValue ℤ

unfoldable pub is_same_side_rebalance : PoolDelta → Bool
is_same_side_rebalance d = not (
    xor (leb d.current.long_token_usd_value d.current.short_token_usd_value)
      (leb d.next.long_token_usd_value d.next.short_token_usd_value))

module _ ⦃n : FixedPointOps⦄ where
  -- `PoolValue::try_new`.
  unfoldable pub pool_value_of : Balance → ℕ → ℕ → Result (PoolValue ℕ)
  pool_value_of pool long_token_price short_token_price = do
    long ← long_usd_value pool long_token_price
    short ← short_usd_value pool short_token_price
    ok (record { long_token_usd_value = long; short_token_usd_value = short })

  -- `PoolDelta::try_new`, which `pool_delta_with_values` calls.
  unfoldable pub pool_delta_with_values : Balance → ℤ → ℤ → ℕ → ℕ → Result PoolDelta
  pool_delta_with_values pool delta_long delta_short long_token_price short_token_price = do
    current ← pool_value_of pool long_token_price short_token_price
    long ←
        ok_or (checked_add_with_signed current.long_token_usd_value delta_long)
          (Error.computation "next delta long usd value")
    short ←
        ok_or (checked_add_with_signed current.short_token_usd_value delta_short)
          (Error.computation "next delta short usd value")
    ok (record {
      current = current;
      next = record { long_token_usd_value = long; short_token_usd_value = short };
      delta = record { long_token_usd_value = delta_long; short_token_usd_value = delta_short };
    })

  -- `PoolDelta::try_from_delta_amounts`, which `pool_delta_with_amounts` calls.
  unfoldable pub pool_delta_with_amounts : Balance → ℤ → ℤ → ℕ → ℕ → Result PoolDelta
  pool_delta_with_amounts pool long_amount short_amount long_token_price short_token_price = do
    long ←
        ok_or (checked_mul_with_signed long_token_price long_amount)
          (Error.computation "delta long token usd value")
    short ←
        ok_or (checked_mul_with_signed short_token_price short_amount)
          (Error.computation "delta short token usd value")
    pool_delta_with_values pool long short long_token_price short_token_price

  -- `initial.diff(next)`, with the sign of the impact.
  abbrev pub signed_impact : Bool → ℕ → ℕ → String → Result ℤ
  signed_impact has_positive_impact initial next message = do
    delta ← ok_or (try_signed (diff initial next)) Error.convert
    if has_positive_impact then ok delta else ok_or (signed_neg delta) (Error.computation message)

  unfoldable pub price_impact_for_same_side_rebalance : PoolDelta → PriceImpactParams → Result ℤ
  price_impact_for_same_side_rebalance d params =
      let initial = diff_value d.current in
      let next = diff_value d.next in
      let has_positive_impact = ltb next initial in
      let (positive_factor, negative_factor) = adjusted_factors params in
      let factor = if has_positive_impact then positive_factor else negative_factor in
      (do
        initial_impact ← apply_factors initial factor params.exponent
        next_impact ← apply_factors next factor params.exponent
        signed_impact has_positive_impact initial_impact next_impact
            "same side rebalance: negating delta")

  unfoldable pub price_impact_for_cross_over_rebalance : PoolDelta → PriceImpactParams → Result ℤ
  price_impact_for_cross_over_rebalance d params =
      let initial = diff_value d.current in
      let next = diff_value d.next in
      let (positive_factor, negative_factor) = adjusted_factors params in
      (do
        positive_impact ← apply_factors initial positive_factor params.exponent
        negative_impact ← apply_factors next negative_factor params.exponent
        signed_impact (ltb negative_impact positive_impact) positive_impact negative_impact
            "cross over rebalance: negating delta")

  unfoldable pub price_impact : PoolDelta → PriceImpactParams → Result ℤ
  price_impact d params =
      if is_same_side_rebalance d
      then price_impact_for_same_side_rebalance d params
      else price_impact_for_cross_over_rebalance d params
