-- ===== src/Action/DistributePositionImpact.antt =====
-- crates/gmsol-model/src/action/distribute_position_impact.rs.
use gmx_solana.Prelude.{ℕ, ◌==◌, if◌then◌else◌}
use gmx_solana.Prelude.Int.{ℤ}
use gmx_solana.Result.{Result, ok, ◌>>=◌}
use gmx_solana.Num.{FixedPointOps, to_opposite_signed}
use gmx_solana.Pool.{apply_delta_to_long_amount}
use gmx_solana.Market.State.{Market}
use gmx_solana.Market.Clock.{just_passed_in_seconds}
use gmx_solana.Market.PositionImpact.{pending_position_impact_pool_distribution_amount}

pub record DistributePositionImpactReport : Type 0 where
  pub duration_in_seconds : ℕ
  pub distribution_amount : ℕ
  pub next_position_impact_pool_amount : ℕ

-- The market with its clock of the distribution read and moved.
unfoldable pub move_clock : Market → Market × ℕ
move_clock m =
    let (seconds, clock) =
      just_passed_in_seconds m.unix_timestamp m.clocks.price_impact_distribution in
    (record m { clocks = record (m.clocks) { price_impact_distribution = clock } }, seconds)

module _ ⦃n : FixedPointOps⦄ where
  unfoldable pub apply_delta_to_position_impact_pool : Market → ℤ → Result Market
  apply_delta_to_position_impact_pool m delta = do
    pool ← apply_delta_to_long_amount m.pools.position_impact delta
    ok (record m { pools = record (m.pools) { position_impact = pool } })

  unfoldable pub distribute_position_impact :
      Market → Result (Market × DistributePositionImpactReport)
  distribute_position_impact m = do
    let m₁ = (move_clock m).0
    let seconds = (move_clock m).1
    (distribution_amount, next_amount) ← pending_position_impact_pool_distribution_amount m₁ seconds
    m₂ ←
        if distribution_amount == 0
        then ok m₁
        else (to_opposite_signed distribution_amount >>= apply_delta_to_position_impact_pool m₁)
    ok (
      m₂,
      record {
        duration_in_seconds = seconds;
        distribution_amount = distribution_amount;
        next_position_impact_pool_amount = next_amount;
      },
    )
