-- ===== src/Action/Accrual.antt =====
-- The two actions that move a market in time: crates/gmsol-model/src/action/update_borrowing_state.rs
-- and distribute_position_impact.rs.
use gmx_solana.Prelude.{ℕ, ◌+◌, ◌≤◌, ◌≡◌, Bool, true, false, not, ◌==◌, arith, refl}
use gmx_solana.Prelude.Int.{pos, pos_part, neg_part}
use gmx_solana.Result.{ok, Ensures, bind, branch, returns, result}
use gmx_solana.Num.{FixedPointOps}
use gmx_solana.Num.Exact.{to_signed_ensures, to_opposite_signed_ensures}
use gmx_solana.Price.{Prices, validate}
use gmx_solana.Pool.{amount, long_amount, apply_delta_amount, apply_delta_to_long_amount}
use mathlib.Core.Path.{◌∙◌}
use gmx_solana.Pool.Apply.{long_Moved, apply_delta_amount-Moved}
use gmx_solana.Market.State.{Market}
use gmx_solana.Market.Borrowing.{cumulative_borrowing_factor}
use gmx_solana.Market.Borrowing.Growth.{next-Grows}
use gmx_solana.Market.PositionImpact.{
  position_impact_pool_amount, pending_position_impact_pool_distribution_amount,
}
use gmx_solana.Market.PositionImpact.Distribution.{distribution_of-Distributes}
use gmx_solana.Action.DistributePositionImpact.{
  DistributePositionImpactReport, distribute_position_impact, apply_delta_to_position_impact_pool,
}
use gmx_solana.Action.DistributePositionImpact.{move_clock as distribute_clock}
use gmx_solana.Action.Holdings.{neg_of_pos}
use gmx_solana.Action.UpdateBorrowing.{
  UpdateBorrowingReport, move_clock, execute_one_side, update_borrowing,
}

-- The pools that hold tokens stay as they are.
pub record Keeps (m m' : Market) : Type 0 where
  pub primary : m'.pools.primary ≡ m.pools.primary
  pub swap_impact : m'.pools.swap_impact ≡ m.pools.swap_impact
  pub claimable_fee : m'.pools.claimable_fee ≡ m.pools.claimable_fee

Keeps-trans : {m m₁ m₂ : Market} → Keeps m m₁ → Keeps m₁ m₂ → Keeps m m₂
Keeps-trans f g = record {
  primary = g.primary ∙ f.primary;
  swap_impact = g.swap_impact ∙ f.swap_impact;
  claimable_fee = g.claimable_fee ∙ f.claimable_fee;
}

module _ ⦃n : FixedPointOps⦄ where
  one_side-Keeps :
      (m : Market) (prices : Prices) (b : Bool) (seconds : ℕ)
      → Ensures (execute_one_side m prices b seconds) (λ r. Keeps m r.0)
  unfolding execute_one_side
  one_side-Keeps m prices b seconds = bind _ (next-Grows m b prices seconds) λ r h.
      bind _ (to_signed_ensures r.1) λ x k.
        bind _ (result (apply_delta_amount b m.pools.borrowing_factor x))
          λ q _. returns (record { primary = refl; swap_impact = refl; claimable_fee = refl })

  pub update-Keeps :
      (m : Market) (prices : Prices) → Ensures (update_borrowing m prices) (λ r. Keeps m r.0)
  unfolding update_borrowing move_clock
  update-Keeps m prices = bind _ (result (validate prices)) λ _ _.
      bind _ (one_side-Keeps _ prices true _) λ r f.
        bind _ (one_side-Keeps r.0 prices false _) λ s g. returns (
          Keeps-trans
            (record {
              primary = f.primary;
              swap_impact = f.swap_impact;
              claimable_fee = f.claimable_fee;
            })
            g)

  pub distribute-Keeps : (m : Market) → Ensures (distribute_position_impact m) (λ r. Keeps m r.0)
  unfolding distribute_position_impact distribute_clock apply_delta_to_position_impact_pool
      pending_position_impact_pool_distribution_amount
  distribute-Keeps m = bind _ (distribution_of-Distributes _ _ _) λ d split.
      bind {P = λ (m₂ : Market). Keeps m m₂} _
        (branch (d.0 == 0)
          (λ _. returns (record { primary = refl; swap_impact = refl; claimable_fee = refl }))
          λ _. bind _ (to_opposite_signed_ensures d.0) λ x e.
            bind _ (result (apply_delta_to_long_amount m.pools.position_impact x))
              λ q _. returns (record { primary = refl; swap_impact = refl; claimable_fee = refl }))
        λ m₂ kept. returns kept

module _ ⦃n : FixedPointOps⦄ where
  -- One side of the update: its factor becomes the reported one, and does not fall; the other stays.
  record Accrued (b : Bool) (m m' : Market) (next : ℕ) : Type 0 where
    impure : m'.pools.borrowing_factor.is_pure ≡ 0
    recorded : amount m'.pools.borrowing_factor b ≡ next
    grows : amount m.pools.borrowing_factor b ≤ next
    other : amount m'.pools.borrowing_factor (not b) ≡ amount m.pools.borrowing_factor (not b)

  one_side-Accrued :
      (m : Market)
      → m.pools.borrowing_factor.is_pure ≡ 0
      → (prices : Prices) (b : Bool) (seconds : ℕ)
      → Ensures (execute_one_side m prices b seconds) (λ r. Accrued b m r.0 r.1)
  unfolding execute_one_side cumulative_borrowing_factor
  one_side-Accrued m impure prices b seconds = bind _ (next-Grows m b prices seconds) λ r h.
      bind _ (to_signed_ensures r.1) λ x k.
        bind _ (apply_delta_amount-Moved m.pools.borrowing_factor impure x b) λ q moved.
          let up : pos_part x ≡ r.1 = rw k.0 refl in
          let down : neg_part x ≡ 0 = rw k.0 refl in
          let near = moved.near in
          let far = moved.far in
          returns (record {
            impure = moved.impure;
            recorded = omega arith;
            grows = omega arith;
            other = omega arith;
          })

  record Updated (m m' : Market) (r : UpdateBorrowingReport) : Type 0 where
    long : amount m'.pools.borrowing_factor true ≡ r.next_cumulative_borrowing_factor_for_long
    short : amount m'.pools.borrowing_factor false ≡ r.next_cumulative_borrowing_factor_for_short
    long_grows : amount m.pools.borrowing_factor true ≤ r.next_cumulative_borrowing_factor_for_long
    short_grows :
        amount m.pools.borrowing_factor false ≤ r.next_cumulative_borrowing_factor_for_short

  update-Updated :
      (m : Market)
      → m.pools.borrowing_factor.is_pure ≡ 0
      → (prices : Prices) → Ensures (update_borrowing m prices) (λ r. Updated m r.0 r.1)
  unfolding update_borrowing move_clock
  update-Updated m impure prices = bind _ (result (validate prices)) λ _ _.
      bind _ (one_side-Accrued _ impure prices true _) λ r f.
        bind _ (one_side-Accrued r.0 f.impure prices false _) λ s g.
          let a = f.recorded in
          let b = f.grows in
          let c = f.other in
          let a' = g.recorded in
          let b' = g.grows in
          let c' = g.other in
          returns (record {
            long = omega arith;
            short = omega arith;
            long_grows = omega arith;
            short_grows = omega arith;
          })

  -- After an update of the borrowing state, with a pool of factors that keeps its sides apart, the
  -- cumulative borrowing factors of the market are the reported ones, on both sides, and neither has
  -- fallen.
  pub update_borrowing_records :
      (m : Market)
      → m.pools.borrowing_factor.is_pure ≡ 0
      → (prices : Prices) {m' : Market} {report : UpdateBorrowingReport}
      → update_borrowing m prices ≡ ok (m', report)
      → (cumulative_borrowing_factor m' true ≡ report.next_cumulative_borrowing_factor_for_long)
        × (cumulative_borrowing_factor m' false ≡ report.next_cumulative_borrowing_factor_for_short)
        × (cumulative_borrowing_factor m true ≤ cumulative_borrowing_factor m' true)
        × (cumulative_borrowing_factor m false ≤ cumulative_borrowing_factor m' false)
  unfolding cumulative_borrowing_factor
  update_borrowing_records m impure prices {m'} {report} h =
      let u = (update-Updated m impure prices).apply (m', report) h in
      let a = u.long in
      let b = u.short in
      let c = u.long_grows in let d = u.short_grows in (a, b, omega arith, omega arith)

  distribute-Ensures :
      (m : Market)
      → m.pools.position_impact.is_pure ≡ 0
      → Ensures (distribute_position_impact m) (λ r.
        (position_impact_pool_amount r.0 ≡ r.1.next_position_impact_pool_amount)
        × (position_impact_pool_amount r.0 + r.1.distribution_amount
            ≡ position_impact_pool_amount m))
  unfolding distribute_position_impact distribute_clock apply_delta_to_position_impact_pool
      position_impact_pool_amount pending_position_impact_pool_distribution_amount
  distribute-Ensures m impure = bind _ (distribution_of-Distributes _ _ _) λ d split.
      bind
        {P = λ (m₂ : Market).
          long_amount m₂.pools.position_impact + d.0 ≡ long_amount m.pools.position_impact}
        _
        (branch (d.0 == 0) (λ zero. returns (ground arith))
          λ _. bind _ (to_opposite_signed_ensures d.0) λ x e.
            bind _ (long_Moved m.pools.position_impact impure x) λ q moved.
              let parts = neg_of_pos (pos d.0) refl in
              let up : pos_part x ≡ 0 = rw e.0 parts.0 in
              let down : neg_part x ≡ d.0 = rw e.0 parts.1 in
              let near = moved.1 in returns (omega arith))
        λ m₂ left. let total = split.total in returns (omega arith, left)

  -- A distribution of a position impact pool that keeps its sides apart takes from the pool exactly what
  -- it reports as distributed, and leaves in it what it reports as the next amount.
  pub distribute_position_impact_lem :
      (m : Market)
      → m.pools.position_impact.is_pure ≡ 0
      → {m' : Market} {report : DistributePositionImpactReport}
      → distribute_position_impact m ≡ ok (m', report)
      → (position_impact_pool_amount m' ≡ report.next_position_impact_pool_amount)
        × (position_impact_pool_amount m' + report.distribution_amount
            ≡ position_impact_pool_amount m)
  distribute_position_impact_lem m impure {m'} {report} h =
      (distribute-Ensures m impure).apply (m', report) h
