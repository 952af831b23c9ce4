-- ===== src/Market/PositionImpact/Distribution.antt =====
-- How much of the position impact pool is handed out:
-- crates/gmsol-model/src/market/position_impact.rs.
use gmx_solana.Prelude.{
  ℕ, zero, suc, ◌+◌, ◌-◌, ◌*◌, ◌/◌, ◌≤◌, ◌≡◌, ◌||◌, leb, ltb, ◌==◌, ◌⊎◌, inl, inr, true, arith,
  refl, if◌then◌else◌,
}
use gmx_solana.Result.{ok, Ensures, bind, branch, from_option, returns}
use gmx_solana.Num.{FixedPointOps}
use gmx_solana.Num.Exact.{sub_gives, mul_div_gives, narrow_gives}
use gmx_solana.Utils.{apply_factor}
use gmx_solana.Market.State.{PositionImpactDistributionParams}
use gmx_solana.Market.PositionImpact.{distribution_of}
use native.Mathlib.Nat.{zero-div, mul-zero}

abbrev lesser : ℕ → ℕ → ℕ
lesser a b = if ltb a b then a else b

-- The first amount is handed out and the second stays: what the factor gives for the time, but no more
-- than what is above the minimum.
pub record Distributes ⦃n : FixedPointOps⦄ (p : PositionImpactDistributionParams)
    (current duration : ℕ) (r : ℕ × ℕ) : Type 0 where
  pub total : r.0 + r.1 ≡ current
  pub least : (r.1 ≡ current) ⊎ (p.min_position_impact_pool_amount ≤ r.1)
  pub handed_out :
      r.0
      ≡ lesser
          (current - p.min_position_impact_pool_amount)
          (duration * p.distribute_factor / n.unit)

nothing :
    (factor current min duration unit : ℕ)
    → (factor == 0 || leb current min) ≡ true
    → 0 ≡ lesser (current - min) (duration * factor / unit)
nothing zero current min duration unit h =
    rw (mul-zero duration) (rw (zero-div unit) (ground arith))
nothing (suc factor) current min duration unit h = ground arith

module _ ⦃n : FixedPointOps⦄ where
  pub distribution_of-Distributes :
      (p : PositionImpactDistributionParams) (current duration : ℕ)
      → Ensures (distribution_of p current duration) (Distributes p current duration)
  unfolding distribution_of apply_factor
  distribution_of-Distributes p current duration =
      branch (p.distribute_factor == 0 || leb current p.min_position_impact_pool_amount)
        (λ h. returns (record {
          total = omega arith;
          least = inl refl;
          handed_out =
              nothing p.distribute_factor current p.min_position_impact_pool_amount duration n.unit
                h;
        }))
        λ _. bind _ (from_option _ _ (sub_gives current p.min_position_impact_pool_amount)) λ max h.
          bind _ (from_option _ _ (narrow_gives duration)) λ value same.
            bind _ (from_option _ _ (mul_div_gives value p.distribute_factor n.unit)) λ uncapped q.
              bind _
                (from_option _ _ (sub_gives current (if ltb max uncapped then max else uncapped)))
                λ next k. returns (record {
                  total = omega arith;
                  least = inr (ground arith);
                  handed_out =
                      let e : max ≡ current - p.min_position_impact_pool_amount = omega arith in
                      rw (← e) (rw (← same) (rw (← q.0) refl));
                })

  -- What is distributed of the position impact pool is what the factor gives for the time, rounded
  -- down, but no more than the amount above the minimum, and nothing where there is none above it; what
  -- is distributed and what stays make up the amount before; and what stays is not below the minimum,
  -- unless it is all of the amount before.
  pub distribution_splits :
      (p : PositionImpactDistributionParams) (current duration : ℕ) {distributed next : ℕ}
      → distribution_of p current duration ≡ ok (distributed, next)
      → (distributed + next ≡ current)
        × ((next ≡ current) ⊎ (p.min_position_impact_pool_amount ≤ next))
        × (distributed ≡ (
            if ltb
              (current - p.min_position_impact_pool_amount)
              (duration * p.distribute_factor / n.unit)
            then current - p.min_position_impact_pool_amount
            else duration * p.distribute_factor / n.unit))
  distribution_splits p current duration h =
      let d = (distribution_of-Distributes p current duration).apply _ h in
      (d.total, d.least, d.handed_out)
