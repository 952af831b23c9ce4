-- ===== src/Num/MulDiv.antt =====
-- The trait `MulDiv` of crates/gmsol-model/src/num.rs. The products are formed in a type twice as
-- wide, where they cannot overflow.
use gmx_solana.Prelude.{ℕ, ◌+◌, ◌-◌, ◌*◌, ◌/◌, Option, none, some, ◌==◌, if◌then◌else◌}
use gmx_solana.Prelude.Int.{ℤ, abs, is_positive}
use gmx_solana.Prelude.Maybe.{◌>>=◌}
use gmx_solana.Num.Ops.{FixedPointOps, narrow}
use gmx_solana.Num.Signed.{signed_neg}
use gmx_solana.Num.Unsigned.{try_signed}

-- `div_ceil` of std.
abbrev pub div_ceil : ℕ → ℕ → ℕ
div_ceil a b = (a + (b - 1)) / b

module _ ⦃n : FixedPointOps⦄ where
  unfoldable pub checked_mul_div : ℕ → ℕ → ℕ → Option ℕ
  checked_mul_div a numerator denominator =
      if denominator == 0 then none else narrow (a * numerator / denominator)

  unfoldable pub checked_mul_div_ceil : ℕ → ℕ → ℕ → Option ℕ
  checked_mul_div_ceil a numerator denominator =
      if denominator == 0 then none else narrow (div_ceil (a * numerator) denominator)

  unfoldable pub checked_mul_div_with_signed_numerator : ℕ → ℤ → ℕ → Option ℤ
  checked_mul_div_with_signed_numerator a numerator denominator = do
    quotient ← checked_mul_div a (abs numerator) denominator
    value ← try_signed quotient
    if is_positive numerator then some value else signed_neg value
