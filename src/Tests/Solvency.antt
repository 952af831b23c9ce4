-- ===== src/Tests/Solvency.antt =====
-- A recorded market at work: a swap with its transfers, and the validation of its balances.
use gmx_solana.Prelude.{ℕ, ◌+◌, ◌*◌, ◌^◌, ◌≤◌, ◌≡◌, true, false, refl, arith}
use gmx_solana.Result.{ok}
use gmx_solana.Num.{checked_add, checked_sub}
use gmx_solana.Pool.{is_pure_pool, long_amount, short_amount, amount}
use gmx_solana.Market.State.{Market, collateral_sum_pool}
use gmx_solana.Market.Base.{expected_min_token_balance, total_collateral_amount_for_one_token_side}
use gmx_solana.Market.Balance.{
  RecordedMarket, balance_for_token, record_transferred_in, record_transferred_out,
  balance_excluding, validate_market_balance_for_the_given_token, validate_market_balances,
}
use gmx_solana.Market.Balance.Validation.{holdings, collateral, validate_market_balances_lem}
use gmx_solana.Action.Solvency.{IsSolvent, Step, Reach, Reach-IsSolvent}
use gmx_solana.Tests.{u128, market, prices, market-IsTwoSided}
use gmx_solana.Tests.Swap.{after, run}

abbrev recorded : Market → ℕ → ℕ → RecordedMarket
recorded m long short = record {
  market = m;
  is_pure = false;
  other = record { long_token_balance = long; short_token_balance = short };
}

abbrev before : RecordedMarket
before = recorded market (10 ^ 11) (10025 * 10 ^ 6)

before-IsSolvent : IsSolvent before
unfolding amount long_amount short_amount is_pure_pool balance_for_token
before-IsSolvent = record {
  two_tokens = refl;
  two_sided = market-IsTwoSided;
  long = omega arith;
  short = omega arith;
}

paid_in :
    record_transferred_in before false (10 ^ 9) ≡ ok (recorded market (10 ^ 11) (11025 * 10 ^ 6))
unfolding record_transferred_in
paid_in = refl

paid_out :
    record_transferred_out (recorded after (10 ^ 11) (11025 * 10 ^ 6)) true 6610666660
    ≡ ok (recorded after 93389333340 (11025 * 10 ^ 6))
unfolding record_transferred_out
paid_out = refl

swapped_once : Reach ⦃n = u128⦄ before (recorded after 93389333340 (11025 * 10 ^ 6))
swapped_once = Reach.next Reach.here (Step.swapped false (10 ^ 9) prices paid_in run paid_out)

Reach-IsSolvent_example : IsSolvent (recorded after 93389333340 (11025 * 10 ^ 6))
Reach-IsSolvent_example = Reach-IsSolvent ⦃n = u128⦄ swapped_once before-IsSolvent

validated : validate_market_balances ⦃n = u128⦄ before 0 (5 * 10 ^ 6) ≡ ok tt
unfolding validate_market_balances validate_market_balance_for_the_given_token balance_excluding
    balance_for_token checked_add checked_sub amount long_amount short_amount is_pure_pool
    expected_min_token_balance total_collateral_amount_for_one_token_side collateral_sum_pool
validated = refl

validate_market_balances_lem_example :
    (holdings market true + 0 ≤ balance_for_token before true)
    × (holdings market false + 5 * 10 ^ 6 ≤ balance_for_token before false)
    × (collateral market true + 0 ≤ balance_for_token before true)
    × (collateral market false + 5 * 10 ^ 6 ≤ balance_for_token before false)
validate_market_balances_lem_example =
    validate_market_balances_lem ⦃n = u128⦄ before refl 0 (5 * 10 ^ 6) validated
