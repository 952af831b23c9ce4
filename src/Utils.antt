-- ===== src/Utils.antt =====
-- crates/gmsol-model/src/utils.rs.
use gmx_solana.Prelude.{
  ℕ, ◌+◌, ◌/◌, Bool, true, false, not, ◌&&◌, Option, none, some, ltb, ◌==◌, if◌then◌else◌,
}
use gmx_solana.Prelude.Int.{ℤ, pos}
use gmx_solana.Prelude.Maybe.{◌>>=◌}
use gmx_solana.Result.{Result, ok, err, Error, ok_or}
use gmx_solana.Result.{◌>>=◌ as ◌bind◌}
use gmx_solana.Num.{
  FixedPointOps, checked_add, checked_div, checked_mul_div, checked_mul_div_ceil,
  checked_mul_div_with_signed_numerator,
}
use gmx_solana.Fixed.{fixed_mul, checked_pow_fixed}
pub mod Shares

module _ ⦃n : FixedPointOps⦄ where
  open n use {unit}

  unfoldable pub usd_to_market_token_amount : ℕ → ℕ → ℕ → ℕ → Option ℕ
  usd_to_market_token_amount usd_value pool_value supply usd_to_amount_divisor =
      if usd_to_amount_divisor == 0
      then none
      else if supply == 0 && pool_value == 0
      then checked_div usd_value usd_to_amount_divisor
      else if supply == 0 && not (pool_value == 0)
      then (checked_add pool_value usd_value >>= λ sum. checked_div sum usd_to_amount_divisor)
      else checked_mul_div supply usd_value pool_value

  unfoldable pub market_token_amount_to_usd : ℕ → ℕ → ℕ → Option ℕ
  market_token_amount_to_usd amount pool_value supply = checked_mul_div pool_value amount supply

  -- `apply_exponent_factor`, and `apply_exponent_factor_wrapped` that it unwraps.
  unfoldable pub apply_exponent_factor : ℕ → ℕ → Option ℕ
  apply_exponent_factor value exponent =
      if ltb value unit
      then some 0
      else if value == unit
      then some unit
      else if exponent == 0
      then some unit
      else if exponent == unit
      then some value
      else checked_pow_fixed value exponent

  -- A * x ^ E.
  unfoldable pub apply_factors : ℕ → ℕ → ℕ → Result ℕ
  apply_factors value factor exponent_factor =
      ◌bind◌ (ok_or (apply_exponent_factor value exponent_factor) Error.pow_computation)
        λ power. ok_or (fixed_mul power factor) Error.overflow

  unfoldable pub apply_factor : ℕ → ℕ → Option ℕ
  apply_factor value factor = checked_mul_div value factor unit

  unfoldable pub div_to_factor : ℕ → ℕ → Bool → Option ℕ
  div_to_factor value divisor round_up_magnitude =
      if divisor == 0
      then some 0
      else if round_up_magnitude
      then checked_mul_div_ceil value unit divisor
      else checked_mul_div value unit divisor

  unfoldable pub div_to_factor_signed : ℤ → ℕ → Option ℤ
  div_to_factor_signed value divisor =
      if divisor == 0
      then some (pos 0)
      else checked_mul_div_with_signed_numerator unit value divisor
