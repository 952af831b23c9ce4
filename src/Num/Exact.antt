-- ===== src/Num/Exact.antt =====
-- What the checked operations give when they succeed.
use gmx_solana.Prelude.{ℕ, ◌+◌, ◌*◌, ◌/◌, ◌<◌, ◌≡◌, arith}
use gmx_solana.Prelude.Int.{ℤ, pos, negsuc, neg, ◌+ℤ◌, ◌-ℤ◌, pos_part, neg_part}
use gmx_solana.Result.{Ensures, Gives}
use gmx_solana.Num.Ops.{FixedPointOps, narrow, checked_add, checked_sub, checked_mul, checked_div}
use gmx_solana.Num.Signed.{narrow_signed, signed_neg, signed_add, signed_sub, checked_add_signed}
use gmx_solana.Num.Unsigned.{try_signed, to_signed, to_opposite_signed, checked_add_with_signed}
use gmx_solana.Num.MulDiv.{checked_mul_div}

pub sub_gives : (a b : ℕ) → Gives (checked_sub a b) (λ c. c + b ≡ a)
unfolding checked_sub
sub_gives a b = record { apply = λ c e. ground arith }

pub div_gives : (a b : ℕ) → Gives (checked_div a b) (λ c. (c ≡ a / b) × (0 < b))
unfolding checked_div
div_gives a b = record { apply = λ c e. ground arith }

module _ ⦃n : FixedPointOps⦄ where
  open n use {half}

  pub add_gives : (a b : ℕ) → Gives (checked_add a b) (λ c. (c ≡ a + b) × (c < half + half))
  unfolding checked_add
  add_gives a b = record { apply = λ c e. ground arith }

  pub mul_gives : (a b : ℕ) → Gives (checked_mul a b) (λ c. (c ≡ a * b) × (c < half + half))
  unfolding checked_mul
  mul_gives a b = record { apply = λ c e. ground arith }

  pub mul_div_gives :
      (a b d : ℕ)
      → Gives (checked_mul_div a b d) (λ c. (c ≡ a * b / d) × (0 < d) × (c < half + half))
  unfolding checked_mul_div narrow
  mul_div_gives a b d = record { apply = λ c e. ground arith }

  pub narrow_gives : (a : ℕ) → Gives (narrow a) (λ c. c ≡ a)
  unfolding narrow
  narrow_gives a = record { apply = λ c e. ground arith }

  pub try_signed_gives : (a : ℕ) → Gives (try_signed a) (λ z. (z ≡ pos a) × (a < half))
  unfolding try_signed narrow_signed
  try_signed_gives a = record { apply = λ c e. ground arith }

  pub to_signed_ensures : (a : ℕ) → Ensures (to_signed a) (λ z. (z ≡ pos a) × (a < half))
  unfolding to_signed try_signed narrow_signed
  to_signed_ensures a = record { apply = λ c e. ground arith }

  pub to_opposite_signed_ensures :
      (a : ℕ) → Ensures (to_opposite_signed a) (λ z. (z ≡ neg (pos a)) × (a < half))
  unfolding to_opposite_signed to_signed try_signed narrow_signed signed_neg
  to_opposite_signed_ensures a = record { apply = λ c e. ground arith }

  pub neg_gives : (z : ℤ) → Gives (signed_neg z) (λ c. c ≡ neg z)
  unfolding signed_neg narrow_signed
  neg_gives z = record { apply = λ c e. ground arith }

  pub signed_add_gives : (a b : ℤ) → Gives (signed_add a b) (λ c. c ≡ a +ℤ b)
  unfolding signed_add narrow_signed
  signed_add_gives a b = record { apply = λ c e. ground arith }

  pub signed_sub_gives : (a b : ℤ) → Gives (signed_sub a b) (λ c. c ≡ a -ℤ b)
  unfolding signed_sub narrow_signed
  signed_sub_gives a b = record { apply = λ c e. ground arith }

  -- The unsigned value moves by exactly the signed one.
  pub add_signed_gives :
      (a : ℕ) (d : ℤ)
      → Gives
          (checked_add_signed a d)
          (λ c. (c + neg_part d ≡ a + pos_part d) × (a < half + half → c < half + half))
  unfolding checked_add_signed
  add_signed_gives a (pos d) = record { apply = λ c e. ground arith }
  add_signed_gives a (negsuc d) = record { apply = λ c e. ground arith }

  pub add_with_signed_gives :
      (a : ℕ) (d : ℤ) → Gives (checked_add_with_signed a d) (λ c. c + neg_part d ≡ a + pos_part d)
  unfolding checked_add_with_signed checked_add checked_sub
  add_with_signed_gives a (pos d) = record { apply = λ c e. ground arith }
  add_with_signed_gives a (negsuc d) = record { apply = λ c e. ground arith }
