-- ===== src/Market/SwapImpact.antt =====
-- `SwapMarketExt` and `SwapMarketMutExt` of crates/gmsol-model/src/market/swap.rs: a price impact in usd
-- turned into tokens of the swap impact pool.
use gmx_solana.Prelude.{ℕ, Bool, true, false, ltb, if◌then◌else◌}
use gmx_solana.Prelude.Maybe.{◌>>=◌ as ◌and_then◌}
use gmx_solana.Prelude.Int.{ℤ, pos, abs, is_positive, is_negative, ltb_ℤ}
use gmx_solana.Result.{Result, ok, err, Error, ok_or, ◌>>=◌}
use gmx_solana.Num.{
  FixedPointOps, checked_mul, to_signed, signed_add, signed_sub, signed_neg, signed_div,
}
use gmx_solana.Price.{Price, has_zero, pick_price}
use gmx_solana.Pool.{Pool, amount, apply_delta_amount}
use gmx_solana.Market.State.{Market}
pub mod Amount

module _ ⦃n : FixedPointOps⦄ where
  -- The token amount, and the usd value that was capped off. Only the swap impact pool is read.
  unfoldable pub impact_amount_with_cap : Pool → Bool → Price → ℤ → Result (ℤ × ℕ)
  impact_amount_with_cap swap_impact is_long_token price usd_impact =
      if has_zero price
      then err Error.divided_by_zero
      else if is_positive usd_impact
      then (do
        max_price ← to_signed (pick_price price true)
        uncapped ←
            ok_or (signed_div usd_impact max_price)
              (Error.computation "calculating swap impact amount")
        max_amount ← to_signed (amount swap_impact is_long_token)
        if ltb_ℤ max_amount uncapped
            then (do
              capped_diff_value ←
                  ok_or
                    (◌and_then◌ (signed_sub uncapped max_amount)
                      (λ diff_amount. checked_mul (abs diff_amount) (pick_price price true)))
                    (Error.computation "calculating capped diff value")
              ok (max_amount, capped_diff_value))
            else ok (uncapped, 0))
      else if is_negative usd_impact
      then (do
        min_price ← to_signed (pick_price price false)
        rounded ←
            ok_or
              (◌and_then◌ (signed_sub usd_impact min_price)
                (λ a. ◌and_then◌ (signed_add a (pos 1)) (λ b. signed_div b min_price)))
              (Error.computation "calculating round up swap impact amount")
        ok (rounded, 0))
      else ok (pos 0, 0)

  unfoldable pub swap_impact_amount_with_cap : Market → Bool → Price → ℤ → Result (ℤ × ℕ)
  swap_impact_amount_with_cap m = impact_amount_with_cap m.pools.swap_impact

  -- The new market, and the magnitude of the change of its swap impact pool.
  unfoldable pub apply_swap_impact_value_with_cap : Market → Bool → Price → ℤ → Result (Market × ℕ)
  apply_swap_impact_value_with_cap m is_long_token price usd_impact = do
    (impact, _) ← swap_impact_amount_with_cap m is_long_token price usd_impact
    delta ← ok_or (signed_neg impact) (Error.computation "negating swap impact delta")
    pool ← apply_delta_amount is_long_token m.pools.swap_impact delta
    ok (record m { pools = record (m.pools) { swap_impact = pool } }, abs delta)
