-- ===== src/Market/Borrowing/Growth.antt =====
-- The cumulative borrowing factor: crates/gmsol-model/src/market/borrowing.rs.
use gmx_solana.Prelude.{ℕ, ◌+◌, ◌≡◌, Bool}
use gmx_solana.Result.{Ensures, bind, from_option, returns, result, ok_or}
use gmx_solana.Num.{FixedPointOps, narrow}
use gmx_solana.Num.Exact.{add_gives, mul_gives}
use gmx_solana.Price.{Prices}
use gmx_solana.Market.State.{Market}
use gmx_solana.Market.Borrowing.{
  borrowing_factor_per_second, next_cumulative_borrowing_factor, cumulative_borrowing_factor,
}

-- The next factor is the one before and its growth.
pub next-Grows :
    ⦃n : FixedPointOps⦄ (m : Market) (is_long : Bool) (prices : Prices) (duration : ℕ)
    → Ensures
        (next_cumulative_borrowing_factor m is_long prices duration)
        (λ r. r.0 ≡ cumulative_borrowing_factor m is_long + r.1)
unfolding next_cumulative_borrowing_factor
next-Grows m is_long prices duration =
    bind _ (result (borrowing_factor_per_second m is_long prices)) λ per_second _.
      bind _ (result (ok_or (narrow duration) _)) λ value _.
        bind _ (from_option _ _ (mul_gives per_second value))
          λ delta _. bind _ (from_option _ _ (add_gives _ delta)) λ next h. returns h.0
