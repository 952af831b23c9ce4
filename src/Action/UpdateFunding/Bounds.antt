-- ===== src/Action/UpdateFunding/Bounds.antt =====
-- The funding factor that an update computes.
use gmx_solana.Prelude.{
  ℕ, zero, suc, ◌-◌, ◌*◌, ◌≤◌, ◌≡◌, ◌≢◌, ◌⊎◌, inl, inr, refl, Bool, true, false, ltb, leb, ◌==◌,
  ◌&&◌, if◌then◌else◌, arith,
}
use gmx_solana.Prelude.Int.{ℤ, pos, negsuc, abs, is_negative}
use gmx_solana.Result.{
  Ensures, Error, ◌>>=◌, ok, ok_or, bind, branch, check, from_option, result, returns, weaken,
  weaken_gives,
}
use gmx_solana.Num.{FixedPointOps, narrow, bound_magnitude, diff, to_signed, signed_div}
use gmx_solana.Num.Exact.{
  add_gives, mul_gives, sub_gives, to_signed_ensures, to_opposite_signed_ensures,
}
use gmx_solana.Num.Round.{signed_div_gives, signed_div_neg_gives}
use gmx_solana.Num.Bounds.{bound_magnitude_lem, bound_magnitude-Ensures}
use gmx_solana.Utils.{apply_exponent_factor, apply_factor, div_to_factor}
use gmx_solana.Fee.{FundingFeeParams, change}
use gmx_solana.Market.State.{Market}
use gmx_solana.Market.Perp.{funding_fee_params}
use native.Mathlib.Nat.{div_self}
use gmx_solana.Action.UpdateFunding.Rate.{
  fallback_factor, decreased, changed, adaptive_factor, next_funding_factor_per_second,
}

-- A magnitude, raised to the minimum.
abbrev raised : ℕ → ℕ → ℕ
raised min magnitude = if ltb magnitude min then min else magnitude

-- The factor and the magnitude of the factor to store are at most the maximum. With an increase factor
-- the first is the second, raised to the minimum; without one, zero is stored.
pub record IsBounded (params : FundingFeeParams) (r : ℕ × Bool × ℤ) : Type 0 where
  pub most : r.0 ≤ params.max_factor_per_second
  pub stored : abs r.2 ≤ params.max_factor_per_second
  pub kind :
      ((params.increase_factor_per_second ≡ 0) × (r.2 ≡ pos 0))
      ⊎ ((params.increase_factor_per_second ≢ 0)
          × (r.0 ≡ raised params.min_factor_per_second (abs r.2)))

capped_le : (most u : ℕ) → (if ltb most u then most else u) ≤ most
capped_le most u = ground arith

both : (a b : ℕ) → (a == 0 && b == 0) ≡ true → b ≡ 0
both a b h = ground arith

module _ ⦃n : FixedPointOps⦄ where
  bounded :
      (z : ℤ) (min max : ℕ)
      → Ensures (bound_magnitude z min max) (λ b. (min ≤ abs b) × (abs b ≤ max))
  bounded z min max = record { apply = λ b e. bound_magnitude_lem z min max e }

  module _ (params : FundingFeeParams) where
    fallback-IsBounded :
        (diff_factor long short : ℕ)
        → params.increase_factor_per_second ≡ 0
        → Ensures (fallback_factor params diff_factor long short) (IsBounded params)
    unfolding fallback_factor
    fallback-IsBounded diff_factor long short zero_rate =
        bind _
          (result (
            ok_or (apply_factor diff_factor params.funding_factor)
              (Error.computation "calculating fallback funding factor per second")))
          λ u _. returns (record {
            most = capped_le params.max_factor_per_second u;
            stored = omega arith;
            kind = inl (zero_rate, refl);
          })

    adaptive-IsBounded :
        (factor : ℤ) (diff_factor long short seconds : ℕ)
        → params.increase_factor_per_second ≢ 0
        → Ensures (adaptive_factor params factor diff_factor long short seconds) (IsBounded params)
    unfolding adaptive_factor
    adaptive-IsBounded factor diff_factor long short seconds positive_rate =
        bind _ (result (ok_or (narrow seconds) Error.convert)) λ d _.
          bind _
            (result (
              changed params (change params factor long short diff_factor) factor diff_factor long
                short d))
            λ next _. bind _ (bounded next 0 params.max_factor_per_second) λ b h.
              bind _
                (bound_magnitude-Ensures b params.min_factor_per_second params.max_factor_per_second
                  h.1)
                λ z k.
                  returns (record { most = k.0; stored = h.1; kind = inr (positive_rate, k.1) })

  next-IsBounded :
      (m : Market) (seconds long short : ℕ)
      → Ensures
          (next_funding_factor_per_second m seconds long short)
          (IsBounded (funding_fee_params m))
  unfolding next_funding_factor_per_second
  next-IsBounded m seconds long short =
      branch _
        (λ h. returns (record {
          most = omega arith;
          stored = omega arith;
          kind = inl (both (diff long short) _ h, refl);
        }))
        λ _. bind _ (from_option _ _ (add_gives long short)) λ total _.
          bind _ (check (total == 0) _) λ _ _.
            bind _
              (result (
                ok_or (apply_exponent_factor (diff long short) (funding_fee_params m).exponent)
                  (Error.computation "applying exponent factor to diff value")))
              λ e _.
                bind _
                  (result (
                    ok_or (div_to_factor e total false)
                      (Error.computation "calculating diff value to open interest factor")))
                  λ f _.
                    branch ((funding_fee_params m).increase_factor_per_second == 0)
                      (λ h. fallback-IsBounded (funding_fee_params m) f long short (ground arith))
                      λ h.
                        adaptive-IsBounded (funding_fee_params m) m.funding_factor_per_second f long
                          short seconds (λ k. ground arith)

  -- Of the factor per second that a funding update computes: the factor to apply and the magnitude of
  -- the factor to store are at most the configured maximum. Where an increase factor is configured, the
  -- factor to apply is the magnitude of the factor to store or, if that is less than the configured
  -- minimum, the minimum. Where none is configured, zero is stored.
  pub next_funding_factor_bounds :
      (m : Market) (seconds long short : ℕ) {factor : ℕ} {longs_pay_shorts : Bool} {next : ℤ}
      → next_funding_factor_per_second m seconds long short ≡ ok (factor, longs_pay_shorts, next)
      → (factor ≤ m.config.funding_fee_max_factor_per_second)
        × (abs next ≤ m.config.funding_fee_max_factor_per_second)
        × (((m.config.funding_fee_increase_factor_per_second ≡ 0) × (next ≡ pos 0))
            ⊎ ((m.config.funding_fee_increase_factor_per_second ≢ 0)
                × (factor ≡ (
                    if ltb (abs next) m.config.funding_fee_min_factor_per_second
                    then m.config.funding_fee_min_factor_per_second
                    else abs next))))
  unfolding funding_fee_params
  next_funding_factor_bounds m seconds long short {factor} {longs_pay_shorts} {next} h =
      let b = (next-IsBounded m seconds long short).apply (factor, longs_pay_shorts, next) h in
      (b.most, b.stored, b.kind)

  signum :
      (factor : ℤ)
      → abs factor ≢ 0
      → Ensures
          (do
            magnitude ← to_signed (abs factor)
            ok_or (signed_div factor magnitude) (Error.computation "calculating signum"))
          (λ z. (abs z ≡ 1) × (is_negative z ≡ is_negative factor))
  signum (pos zero) h = absurd (h refl)
  signum (pos (suc a)) h = bind _ (to_signed_ensures (suc a)) λ s e. rw (e.0) (
      from_option _ _ (
        weaken_gives _ (λ z k. let one = div_self {n = suc a} (omega arith) in ground arith)
          (signed_div_gives (suc a) (suc a))))
  signum (negsuc a) h = bind _ (to_signed_ensures (suc a)) λ s e. rw (e.0) (
      from_option _ _ (
        weaken_gives _ (λ z k. let one = div_self {n = suc a} (omega arith) in ground arith)
          (signed_div_neg_gives a (suc a))))

  decreased-Ensures :
      (params : FundingFeeParams) (factor : ℤ) (seconds : ℕ)
      → abs factor ≢ 0
      → Ensures (decreased params factor seconds) (λ z.
        (abs z ≡ (
          if leb (abs factor) (params.decrease_factor_per_second * seconds)
          then 1
          else abs factor - params.decrease_factor_per_second * seconds))
        × (is_negative z ≡ is_negative factor))
  unfolding decreased
  decreased-Ensures params factor seconds h =
      bind _ (from_option _ _ (mul_gives params.decrease_factor_per_second seconds)) λ d e.
        rw (← e.0) (
          branch (leb (abs factor) d) (λ k. rw k (signum factor h))
            λ k. rw k (
              bind _ (from_option _ _ (sub_gives (abs factor) d)) λ less q.
                branch (is_negative factor)
                  (λ negative.
                    rw negative (weaken _ (λ z r. ground arith) (to_opposite_signed_ensures less)))
                  λ positive.
                    rw positive (weaken _ (λ z r. ground arith) (to_signed_ensures less))))

  -- A decrease of a funding factor that is not zero keeps its direction. It takes the decrease factor
  -- times the seconds from the magnitude, and where that would reach zero it leaves a magnitude of one
  -- unit of the last decimal.
  pub decreased_lem :
      (params : FundingFeeParams) (factor : ℤ) (seconds : ℕ) {z : ℤ}
      → abs factor ≢ 0
      → decreased params factor seconds ≡ ok z
      → (is_negative z ≡ is_negative factor)
        × (abs z ≡ (
            if leb (abs factor) (params.decrease_factor_per_second * seconds)
            then 1
            else abs factor - params.decrease_factor_per_second * seconds))
  decreased_lem params factor seconds {z} h e =
      let r = (decreased-Ensures params factor seconds h).apply z e in (r.1, r.0)
