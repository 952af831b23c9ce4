-- ===== src/Num/Unsigned.antt =====
-- The trait `Unsigned` of crates/gmsol-model/src/num.rs.
use gmx_solana.Prelude.{ℕ, Bool, Option, none, some, leb, ltb, ◌==◌, if◌then◌else◌}
use gmx_solana.Prelude.Int.{ℤ, pos, abs, is_positive, is_negative}
use gmx_solana.Prelude.Maybe.{◌>>=◌}
use gmx_solana.Result.{Result, ok, err, Error, ok_or}
use gmx_solana.Result.{◌>>=◌ as ◌bind◌}
use gmx_solana.Num.Ops.{FixedPointOps, checked_add, checked_sub, checked_mul, checked_div, diff}
use gmx_solana.Num.Signed.{narrow_signed, signed_neg, signed_add, signed_sub, signed_div}

module _ ⦃n : FixedPointOps⦄ where
  -- `try_into` from the unsigned to the signed type.
  unfoldable pub try_signed : ℕ → Option ℤ
  try_signed a = narrow_signed (pos a)

  unfoldable pub to_signed : ℕ → Result ℤ
  to_signed a = ok_or (try_signed a) Error.convert

  unfoldable pub to_opposite_signed : ℕ → Result ℤ
  to_opposite_signed a =
      ◌bind◌ (to_signed a) λ s. ok_or (signed_neg s) (Error.computation "to opposite signed")

  unfoldable pub to_signed_with_sign : ℕ → Bool → Result ℤ
  to_signed_with_sign a negative = if negative then to_opposite_signed a else to_signed a

  unfoldable pub checked_signed_sub : ℕ → ℕ → Result ℤ
  checked_signed_sub a b = if leb b a then to_signed (diff a b) else to_opposite_signed (diff a b)

  unfoldable pub checked_add_with_signed : ℕ → ℤ → Option ℕ
  checked_add_with_signed a z =
      if is_positive z then checked_add a (abs z) else checked_sub a (abs z)

  unfoldable pub checked_sub_with_signed : ℕ → ℤ → Option ℕ
  checked_sub_with_signed a z =
      if is_positive z then checked_sub a (abs z) else checked_add a (abs z)

  unfoldable pub checked_mul_with_signed : ℕ → ℤ → Option ℤ
  checked_mul_with_signed a z = do
    product ← checked_mul a (abs z)
    value ← try_signed product
    if is_negative z then signed_neg value else some value

  unfoldable pub as_divisor_to_round_up_magnitude_div : ℕ → ℤ → Option ℤ
  as_divisor_to_round_up_magnitude_div a dividend = if a == 0 then none else do
    divisor ← try_signed a
    widened ←
        if is_negative dividend
        then (signed_sub dividend divisor >>= λ x. signed_add x (pos 1))
        else (signed_add dividend divisor >>= λ x. signed_sub x (pos 1))
    signed_div widened divisor

  unfoldable pub checked_round_up_div : ℕ → ℕ → Option ℕ
  checked_round_up_div a divisor =
      if divisor == 0
      then none
      else do sum ← checked_add a divisor; less ← checked_sub sum 1; checked_div less divisor

  unfoldable pub bound_magnitude : ℤ → ℕ → ℕ → Result ℤ
  bound_magnitude value min max =
      if ltb max min
      then err (Error.invalid_argument "min > max")
      else if ltb (abs value) min
      then to_signed_with_sign min (is_negative value)
      else if ltb max (abs value)
      then to_signed_with_sign max (is_negative value)
      else ok value
