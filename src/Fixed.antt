-- ===== src/Fixed.antt =====
-- crates/gmsol-model/src/fixed.rs: fixed-point multiplication and power, for u64 and u128. A value of
-- `Fixed` is its inner integer. The power with a fractional exponent of u64 is that of the crate
-- rust_decimal, the parameter `decimal_pow`.
use gmx_solana.Prelude.{
  ℕ, zero, suc, ◌*◌, ◌/◌, ◌%◌, ◌^◌, ◌-◌, Option, none, some, ltb, ◌==◌, if◌then◌else◌,
}
use gmx_solana.Prelude.Maybe.{◌>>=◌}
use gmx_solana.Num.{FixedPointOps, checked_mul_div}

module _ ⦃n : FixedPointOps⦄ where
  open n use {unit, pow_fraction}

  -- `Fixed::checked_mul`.
  unfoldable pub fixed_mul : ℕ → ℕ → Option ℕ
  fixed_mul a b = checked_mul_div a b unit

  -- `for _ in 0..exp { ans = ans.checked_mul(&base)?; }`
  unfoldable pub pow_loop : ℕ → ℕ → ℕ → Option ℕ
  pow_loop zero base ans = some ans
  pow_loop (suc exp) base ans = fixed_mul ans base >>= pow_loop exp base

  unfoldable pub checked_pow_fixed : ℕ → ℕ → Option ℕ
  checked_pow_fixed base exponent =
      if exponent % unit == 0
      then pow_loop (exponent / unit) base unit
      else pow_fraction base exponent

-- `U64D9`.
abbrev pub u64_d9 : (ℕ → ℕ → Option ℕ) → FixedPointOps
u64_d9 decimal_pow = record { half = 2 ^ 63; unit = 10 ^ 9; pow_fraction = decimal_pow }

-- `try_into::<u64>().ok()`.
abbrev to_u64 : ℕ → Option ℕ
to_u64 a = if ltb a (2 ^ 64) then some a else none

-- `checked_mul` of u128.
abbrev mul_u128 : ℕ → ℕ → Option ℕ
mul_u128 a b = if ltb (a * b) (2 ^ 128) then some (a * b) else none

-- `convert_to` and `convert_from`, between `decimals` and the 9 decimals of `U64D9`.
abbrev pub convert_to : ℕ → ℕ → Option ℕ
convert_to decimals value =
    if ltb 9 decimals
    then to_u64 (value / 10 ^ (decimals - 9))
    else if ltb decimals 9
    then (mul_u128 value (10 ^ (9 - decimals)) >>= to_u64)
    else to_u64 value

abbrev pub convert_from : ℕ → ℕ → Option ℕ
convert_from decimals value =
    if ltb 9 decimals
    then mul_u128 value (10 ^ (decimals - 9))
    else if ltb decimals 9
    then some (value / 10 ^ (9 - decimals))
    else some value

-- What u128 does with a fractional exponent: it goes through `U64D9`.
unfoldable pub pow_through_u64 : ℕ → (ℕ → ℕ → Option ℕ) → ℕ → ℕ → Option ℕ
pow_through_u64 decimals decimal_pow base exponent = do
  b ← convert_to decimals base
  e ← convert_to decimals exponent
  ans ← checked_pow_fixed ⦃n = u64_d9 decimal_pow⦄ b e
  convert_from decimals ans

-- `U128D20`.
abbrev pub u128_d20 : (ℕ → ℕ → Option ℕ) → FixedPointOps
u128_d20 decimal_pow = record {
  half = 2 ^ 127;
  unit = 10 ^ 20;
  pow_fraction = pow_through_u64 20 decimal_pow;
}
