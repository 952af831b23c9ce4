-- ===== src/Action/Swap/Conservation.antt =====
-- What a swap does to the holdings of a market: crates/gmsol-model/src/action/swap.rs.
use gmx_solana.Prelude.{ℕ, ◌+◌, ◌≡◌, Bool, not, ◌==◌, arith, refl}
use gmx_solana.Prelude.Int.{ℤ, pos, neg, neg_part, pos_part, is_positive}
use gmx_solana.Result.{ok, Ensures, bind, branch, from_option, returns, result, err_if}
use gmx_solana.Num.{FixedPointOps}
use gmx_solana.Num.Exact.{add_gives, to_signed_ensures, to_opposite_signed_ensures}
use gmx_solana.Price.{Prices, validate}
use gmx_solana.Pool.{Pool, amount}
use gmx_solana.Pool.Apply.{Moved, one_side-Moved, both_sides-Moved}
use gmx_solana.Fee.{Fees}
use gmx_solana.Fee.Split.{AddsUp, apply_fees-AddsUp}
use gmx_solana.Market.State.{Market, swap_fee_params}
use gmx_solana.Market.Base.{validate_pool_amount, validate_reserve, validate_max_pnl}
use gmx_solana.Action.Swap.{
  SwapParams, SwapAmounts, SwapReport, SwapResult, charge_fees, swap_liquidity, try_execute, swap,
  reassign_values, swap_price_impact, cache, try_new,
}
use gmx_solana.Action.Holdings.{holdings, IsTwoSided, neg_of_pos}
use gmx_solana.Action.Swap.Branch.{Settled, positive_Settled, negative_Settled}

module _ ⦃n : FixedPointOps⦄ (m : Market) (pure : IsTwoSided m) where
  pub record SwapConserves (b : Bool) (t : ℕ) (m' : Market) (r : SwapResult) : Type 0 where
    pub in_side : holdings m' b ≡ holdings m b + t
    pub out_side : holdings m' (not b) + r.token_out_amount ≡ holdings m (not b)
    pub only_pools : m' ≡ cache m m'.pools.primary m'.pools.swap_impact m'.pools.claimable_fee
    pub two_sided : IsTwoSided m'

  module _ (p : SwapParams) where
    liquidity_Moved :
        (fees : Fees) (a : SwapAmounts)
        → Ensures (swap_liquidity m p fees a) (λ q.
          Moved p.is_token_in_long
            (pos (a.token_in_amount + fees.fee_amount_for_pool))
            (neg (pos a.pool_amount_out))
            m.pools.primary
            q)
    unfolding swap_liquidity
    liquidity_Moved fees a = bind _ (from_option _ _ (add_gives _ _)) λ t h.
        bind _ (to_signed_ensures t) λ x k. bind _ (to_opposite_signed_ensures _) λ y l.
          rw (k.0) (rw (l.0) (rw (h.0) (both_sides-Moved m.pools.primary pure.primary _ _ _)))

    charge_fees-AddsUp : (b : Bool) → Ensures (charge_fees m p b) (AddsUp p.token_in_amount)
    unfolding charge_fees
    charge_fees-AddsUp b =
        from_option _ _ (apply_fees-AddsUp (swap_fee_params m) b p.token_in_amount)

    module _ (c : ℕ × Fees) (a : SwapAmounts) (claimable q : Pool) where
      sum_up :
          (impact : ℤ)
          → AddsUp p.token_in_amount c
          → (receiver : ℤ) → receiver ≡ pos c.1.fee_amount_for_receiver
          → Moved p.is_token_in_long receiver (pos 0) m.pools.claimable_fee claimable
          → Settled p.is_token_in_long m.pools.swap_impact c.0 a
          → Moved p.is_token_in_long
              (pos (a.token_in_amount + c.1.fee_amount_for_pool))
              (neg (pos a.pool_amount_out))
              m.pools.primary
              q
          → SwapConserves p.is_token_in_long p.token_in_amount
              (cache m q a.swap_impact claimable)
              (record {
                token_in_fees = c.1;
                token_out_amount = a.token_out_amount;
                price_impact_value = impact;
                price_impact_amount = a.price_impact_amount;
              })
      unfolding cache
      sum_up impact adds receiver r moved settled liquidity =
          let total = adds.total in
          let claimed : amount claimable p.is_token_in_long + 0
              ≡ amount m.pools.claimable_fee p.is_token_in_long + c.1.fee_amount_for_receiver =
            let x : pos_part receiver ≡ c.1.fee_amount_for_receiver = rw r refl in
            let y : neg_part receiver ≡ 0 = rw r refl in let near = moved.near in omega arith in
          let paid_out : amount q (not p.is_token_in_long) + a.pool_amount_out
              ≡ amount m.pools.primary (not p.is_token_in_long) =
            let z = neg_of_pos (pos a.pool_amount_out) refl in omega arith in
          record {
            in_side = omega arith;
            out_side = omega arith;
            only_pools = refl;
            two_sided = record {
              primary = liquidity.impure;
              swap_impact = settled.impure;
              claimable_fee = moved.impure;
            };
          }

    try_execute-Conserves :
        Ensures (try_execute m p) (λ r. SwapConserves p.is_token_in_long p.token_in_amount r.0 r.1)
    unfolding try_execute
    try_execute-Conserves = bind _ (result (reassign_values p)) λ v _.
        bind _ (result (swap_price_impact m p v)) λ impact _.
          bind _ (charge_fees-AddsUp (is_positive impact)) λ c adds.
            bind _ (to_signed_ensures _) λ receiver k.
              bind _ (one_side-Moved m.pools.claimable_fee pure.claimable_fee receiver _)
                λ claimable l.
                  bind _
                    (branch (is_positive impact)
                      (positive_Settled m p pure.swap_impact _ _ impact _)
                      (negative_Settled m p pure.swap_impact _ _ impact _))
                    λ a settled. bind _ (liquidity_Moved c.1 a) λ q moved.
                      bind _ (result (validate_pool_amount _ _)) λ _ _.
                        bind _ (result (validate_reserve _ _ _)) λ _ _.
                          bind _ (result (validate_max_pnl _ _ _ _)) λ _ _.
                            returns
                              (sum_up c a claimable q impact adds receiver (k.0) l settled moved)

  swap-Conserves :
      (b : Bool) (t : ℕ) (prices : Prices)
      → Ensures (swap m b t prices) (λ r. SwapConserves b t r.0 r.1.result)
  unfolding swap try_new
  swap-Conserves b t prices =
      bind {P = λ p. (p.is_token_in_long ≡ b) × (p.token_in_amount ≡ t)} _
        (bind _ (result (err_if (t == 0) _))
          λ _ _. bind _ (result (validate prices)) λ _ _. returns (refl, refl))
        λ p same.
          bind (try_execute m p) (rw (← same.0) (rw (← same.1) (try_execute-Conserves p)))
            λ r k. returns k

-- A swap of a market whose pools keep their sides apart: the liquidity pool, the swap impact pool and
-- the claimable fees hold, on the side of the token that comes in, exactly what came in more than
-- before, and on the other side exactly what is paid out less. Nothing else of the market changes, and
-- the pools still keep their sides apart.
pub swap_conserves :
    ⦃n : FixedPointOps⦄ (m : Market)
    → IsTwoSided m
    → (is_token_in_long : Bool) (token_in_amount : ℕ) (prices : Prices) {m' : Market}
      {report : SwapReport}
    → swap m is_token_in_long token_in_amount prices ≡ ok (m', report)
    → (holdings m' is_token_in_long ≡ holdings m is_token_in_long + token_in_amount)
      × (holdings m' (not is_token_in_long) + report.result.token_out_amount
          ≡ holdings m (not is_token_in_long))
      × (m' ≡ cache m m'.pools.primary m'.pools.swap_impact m'.pools.claimable_fee)
      × IsTwoSided m'
swap_conserves m pure b t prices {m'} {report} h =
    let c = (swap-Conserves m pure b t prices).apply (m', report) h in
    (c.in_side, c.out_side, c.only_pools, c.two_sided)
