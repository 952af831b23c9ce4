-- ===== src/Num/Bounds.antt =====
-- What the rounded and the signed operations of crates/gmsol-model/src/num.rs give, exactly.
use gmx_solana.Prelude.{
  ℕ, ◌+◌, ◌-◌, ◌*◌, ◌/◌, ◌≤◌, ◌<◌, ◌≡◌, Bool, some, leb, ltb, arith, if◌then◌else◌, ◌==◌,
}
use gmx_solana.Prelude.Int.{ℤ, pos, abs, ◌-ℤ◌, is_negative}
use gmx_solana.Result.{
  ok, Gives, Ensures, gives_bind, gives_if, gives_none, branch, raises, returns, weaken,
}
use gmx_solana.Num.Ops.{FixedPointOps, narrow, diff}
use gmx_solana.Num.Unsigned.{
  to_signed_with_sign, checked_signed_sub, checked_round_up_div, bound_magnitude,
}
use gmx_solana.Num.MulDiv.{checked_mul_div, checked_mul_div_ceil, div_ceil}
use gmx_solana.Num.Exact.{
  mul_div_gives, add_gives, sub_gives, div_gives, to_signed_ensures, to_opposite_signed_ensures,
}
use gmx_solana.Num.Round.{div_bounds}

-- Rounding up by adding one less than the divisor.
up_bounds : (a d : ℕ) → 0 < d → (a ≤ (a + d - 1) / d * d) × ((a + d - 1) / d * d < a + d)
up_bounds a d h = let below = div_bounds (a + d - 1) d h in (omega arith, omega arith)

module _ ⦃n : FixedPointOps⦄ where
  open n use {half}

  -- What `checked_mul_div` gives is the exact quotient rounded down.
  pub checked_mul_div_lem :
      (a b d : ℕ) {q : ℕ} → checked_mul_div a b d ≡ some q → (q * d ≤ a * b) × (a * b < q * d + d)
  checked_mul_div_lem a b d {q} e =
      let g = (mul_div_gives a b d).apply q e in rw g.0 (div_bounds (a * b) d g.1)

  ceil_gives :
      (a b d : ℕ) → Gives (checked_mul_div_ceil a b d) (λ q. (q ≡ div_ceil (a * b) d) × (0 < d))
  unfolding checked_mul_div_ceil narrow
  ceil_gives a b d = record { apply = λ c e. ground arith }

  -- What `checked_mul_div_ceil` gives is the exact quotient rounded up.
  pub checked_mul_div_ceil_lem :
      (a b d : ℕ) {q : ℕ}
      → checked_mul_div_ceil a b d ≡ some q
      → (a * b ≤ q * d) × (q * d < a * b + d)
  checked_mul_div_ceil_lem a b d {q} e =
      let g = (ceil_gives a b d).apply q e in
      let same : a * b + (d - 1) ≡ a * b + d - 1 = let h = g.1 in omega arith in
      rw g.0 (rw same (up_bounds (a * b) d g.1))

  round_up_gives :
      (a d : ℕ) → Gives (checked_round_up_div a d) (λ q. (q ≡ (a + d - 1) / d) × (0 < d))
  unfolding checked_round_up_div
  round_up_gives a d =
      gives_if (d == 0) (λ _. gives_none)
        λ _. gives_bind _ (add_gives a d) λ s h.
          gives_bind _ (sub_gives s 1)
            λ l k. let e : l ≡ a + d - 1 = let x = h.0 in omega arith in rw (← e) (div_gives l d)

  -- What `checked_round_up_div` gives is the exact quotient rounded up.
  pub checked_round_up_div_lem :
      (a d : ℕ) {q : ℕ} → checked_round_up_div a d ≡ some q → (a ≤ q * d) × (q * d < a + d)
  checked_round_up_div_lem a d {q} e =
      let g = (round_up_gives a d).apply q e in rw g.0 (up_bounds a d g.1)

  signed_sub_Ensures : (a b : ℕ) → Ensures (checked_signed_sub a b) (λ z. z ≡ pos a -ℤ pos b)
  unfolding checked_signed_sub diff
  signed_sub_Ensures a b =
      branch (leb b a) (λ h. weaken _ (λ z k. ground arith) (to_signed_ensures (diff a b)))
        λ h. weaken _ (λ z k. ground arith) (to_opposite_signed_ensures (diff a b))

  -- What `checked_signed_sub` gives is the difference of two unsigned numbers as an integer.
  pub checked_signed_sub_lem :
      (a b : ℕ) {z : ℤ} → checked_signed_sub a b ≡ ok z → z ≡ pos a -ℤ pos b
  checked_signed_sub_lem a b {z} e = (signed_sub_Ensures a b).apply z e

  with_sign : (a : ℕ) (negative : Bool) → Ensures (to_signed_with_sign a negative) (λ z. abs z ≡ a)
  unfolding to_signed_with_sign
  with_sign a negative =
      branch negative (λ h. weaken _ (λ z k. ground arith) (to_opposite_signed_ensures a))
        λ h. weaken _ (λ z k. ground arith) (to_signed_ensures a)

  bound_Ensures :
      (value : ℤ) (min max : ℕ)
      → Ensures (bound_magnitude value min max) (λ z. (min ≤ abs z) × (abs z ≤ max))
  unfolding bound_magnitude
  bound_Ensures value min max =
      branch (ltb max min) (λ _. raises)
        λ h.
          branch (ltb (abs value) min)
            (λ _. weaken _ (λ z k. rw k (ground arith)) (with_sign min (is_negative value)))
            λ f.
              branch (ltb max (abs value))
                (λ _. weaken _ (λ z k. rw k (ground arith)) (with_sign max (is_negative value)))
                λ g. returns (ground arith, ground arith)

  -- The magnitude of what `bound_magnitude` gives lies between the two bounds.
  pub bound_magnitude_lem :
      (value : ℤ) (min max : ℕ) {z : ℤ}
      → bound_magnitude value min max ≡ ok z
      → (min ≤ abs z) × (abs z ≤ max)
  bound_magnitude_lem value min max {z} e = (bound_Ensures value min max).apply z e

  -- A value that is within the upper bound is only raised to the lower one.
  pub bound_magnitude-Ensures :
      (value : ℤ) (min max : ℕ)
      → abs value ≤ max
      → Ensures
          (bound_magnitude value min max)
          (λ z. (abs z ≤ max) × (abs z ≡ (if ltb (abs value) min then min else abs value)))
  unfolding bound_magnitude
  bound_magnitude-Ensures value min max within =
      branch (ltb max min) (λ _. raises)
        λ h.
          branch (ltb (abs value) min)
            (λ f.
              weaken _ (λ z k. (ground arith, ground arith)) (with_sign min (is_negative value)))
            λ f.
              branch (ltb max (abs value)) (λ g. absurd (ground arith))
                λ g. returns (within, ground arith)
