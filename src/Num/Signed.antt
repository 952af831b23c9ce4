-- ===== src/Num/Signed.antt =====
-- The checked operations of Rust's signed integers.
use gmx_solana.Prelude.{ℕ, ◌+◌, Bool, Option, none, some, ltb, ◌==◌, if◌then◌else◌}
use gmx_solana.Prelude.Int.{ℤ, pos, negsuc, ◌+ℤ◌, ◌-ℤ◌, neg, abs, div_trunc}
use gmx_solana.Num.Ops.{FixedPointOps}

module _ ⦃n : FixedPointOps⦄ where
  open n use {half}

  abbrev pub fits_signed : ℤ → Bool
  fits_signed (pos a) = ltb a half
  fits_signed (negsuc a) = ltb a half

  unfoldable pub narrow_signed : ℤ → Option ℤ
  narrow_signed z = if fits_signed z then some z else none

  -- `checked_add`, `checked_sub`, `checked_neg` and `checked_div` of the signed type.
  unfoldable pub signed_add : ℤ → ℤ → Option ℤ
  signed_add a b = narrow_signed (a +ℤ b)

  unfoldable pub signed_sub : ℤ → ℤ → Option ℤ
  signed_sub a b = narrow_signed (a -ℤ b)

  unfoldable pub signed_neg : ℤ → Option ℤ
  signed_neg a = narrow_signed (neg a)

  unfoldable pub signed_div : ℤ → ℤ → Option ℤ
  signed_div a b = if abs b == 0 then none else narrow_signed (div_trunc a b)

  -- `checked_add_signed` of std: an unsigned value moved by a signed one.
  unfoldable pub checked_add_signed : ℕ → ℤ → Option ℕ
  checked_add_signed a (pos d) = if ltb (a + d) (half + half) then some (a + d) else none
  checked_add_signed a (negsuc d) = if ltb d a then some (abs (pos a -ℤ pos d -ℤ pos 1)) else none
