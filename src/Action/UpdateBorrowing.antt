-- ===== src/Action/UpdateBorrowing.antt =====
-- crates/gmsol-model/src/action/update_borrowing_state.rs.
use gmx_solana.Prelude.{ℕ, Bool, true, false}
use gmx_solana.Result.{Result, ok, ◌>>=◌, ◌>>◌}
use gmx_solana.Num.{FixedPointOps, to_signed}
use gmx_solana.Price.{Prices, validate}
use gmx_solana.Pool.{apply_delta_amount}
use gmx_solana.Market.State.{Market}
use gmx_solana.Market.Clock.{just_passed_in_seconds}
use gmx_solana.Market.Borrowing.{next_cumulative_borrowing_factor}

pub record UpdateBorrowingReport : Type 0 where
  pub duration_in_seconds : ℕ
  pub next_cumulative_borrowing_factor_for_long : ℕ
  pub next_cumulative_borrowing_factor_for_short : ℕ

-- The market with its borrowing clock read and moved.
unfoldable pub move_clock : Market → Market × ℕ
move_clock m =
    let (seconds, clock) = just_passed_in_seconds m.unix_timestamp m.clocks.borrowing in
    (record m { clocks = record (m.clocks) { borrowing = clock } }, seconds)

module _ ⦃n : FixedPointOps⦄ where
  unfoldable pub execute_one_side : Market → Prices → Bool → ℕ → Result (Market × ℕ)
  execute_one_side m prices is_long duration_in_seconds = do
    (next, delta) ← next_cumulative_borrowing_factor m is_long prices duration_in_seconds
    change ← to_signed delta
    pool ← apply_delta_amount is_long m.pools.borrowing_factor change
    ok (record m { pools = record (m.pools) { borrowing_factor = pool } }, next)

  -- `market.update_borrowing(…)?.execute()`.
  unfoldable pub update_borrowing : Market → Prices → Result (Market × UpdateBorrowingReport)
  update_borrowing m prices = do
    validate prices
    let m₁ = (move_clock m).0
    let seconds = (move_clock m).1
    (m₂, next_for_long) ← execute_one_side m₁ prices true seconds
    (m₃, next_for_short) ← execute_one_side m₂ prices false seconds
    ok (
      m₃,
      record {
        duration_in_seconds = seconds;
        next_cumulative_borrowing_factor_for_long = next_for_long;
        next_cumulative_borrowing_factor_for_short = next_for_short;
      },
    )
