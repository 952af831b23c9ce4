-- ===== src/Action/Withdraw/Conservation.antt =====
-- A withdrawal: crates/gmsol-model/src/action/withdraw.rs.
use gmx_solana.Prelude.{ℕ, ◌+◌, ◌≤◌, ◌≡◌, true, false, ◌==◌, arith, refl}
use gmx_solana.Result.{ok, Ensures, bind, from_option, returns, result, err_if}
use gmx_solana.Num.{FixedPointOps}
use gmx_solana.Num.Exact.{add_gives, try_signed_gives, to_opposite_signed_ensures}
use gmx_solana.Price.{Prices, validate}
use gmx_solana.Market.State.{Market}
use gmx_solana.Market.Supply.{burn-Ensures}
use gmx_solana.Market.Base.{validate_reserve, validate_max_pnl}
use gmx_solana.Action.Holdings.{Flow, IsTwoSided, holdings, into_claimable-Flow, out_of_pool-Flow}
use gmx_solana.Action.Withdraw.{
  WithdrawParams, WithdrawReport, try_new, output_amounts, charge_fees, execute, withdraw,
}

record Withdrawn (m : Market) (amount long short : ℕ) (m' : Market) : Type 0 where
  out_long : holdings m' true + long ≡ holdings m true
  out_short : holdings m' false + short ≡ holdings m false
  to_burn : m'.to_burn ≡ m.to_burn + amount
  covered : m'.to_burn ≤ m'.supply
  supply : m'.supply ≡ m.supply
  to_mint : m'.to_mint ≡ m.to_mint
  two_sided : IsTwoSided m'

module _ (k l out_k out_l long short amount : ℕ) (p : out_k ≡ k + long)
    (q : out_l ≡ l + short) where
  withdrawn :
      {m m₁ m₂ m₃ m₄ : Market}
      → Flow true k 0 m m₁
      → Flow false l 0 m₁ m₂
      → Flow true 0 out_k m₂ m₃
      → Flow false 0 out_l m₃ m₄
      → m₄.to_burn + amount ≤ m₄.supply
      → Withdrawn m amount long short (record m₄ { to_burn = m₄.to_burn + amount })
  withdrawn f g h i le = record {
    out_long = let a = f.near in let b = g.far in let c = h.near in let d = i.far in omega arith;
    out_short = let a = f.far in let b = g.near in let c = h.far in let d = i.near in omega arith;
    to_burn =
        let a = f.to_burn in
        let b = g.to_burn in let c = h.to_burn in let d = i.to_burn in omega arith;
    covered = le;
    supply =
        let a = f.supply in let b = g.supply in let c = h.supply in let d = i.supply in omega arith;
    to_mint =
        let a = f.to_mint in
        let b = g.to_mint in let c = h.to_mint in let d = i.to_mint in omega arith;
    two_sided = record {
      primary = i.two_sided.primary;
      swap_impact = i.two_sided.swap_impact;
      claimable_fee = i.two_sided.claimable_fee;
    };
  }

module _ ⦃n : FixedPointOps⦄ (m : Market) (apart : IsTwoSided m) where
  execute-Withdrawn :
      (p : WithdrawParams)
      → Ensures
          (execute m p)
          (λ r. Withdrawn m p.market_token_amount r.1.long_token_output r.1.short_token_output r.0)
  unfolding execute
  execute-Withdrawn p = bind _ (result (output_amounts m p)) λ o _.
      bind _ (result (charge_fees m o.0)) λ x _. bind _ (result (charge_fees m o.1)) λ y _.
        bind _ (from_option _ _ (try_signed_gives _)) λ a e.
          bind _ (into_claimable-Flow m apart true a _ e.0) λ m₁ f.
            bind _ (from_option _ _ (try_signed_gives _)) λ b e'.
              bind _ (into_claimable-Flow m₁ f.two_sided false b _ e'.0) λ m₂ g.
                bind _ (from_option _ _ (add_gives _ _)) λ out_k p.
                  bind _ (to_opposite_signed_ensures out_k) λ c d.
                    bind _ (out_of_pool-Flow m₂ g.two_sided true c _ d.0) λ m₃ h.
                      bind _ (from_option _ _ (add_gives _ _)) λ out_l q.
                        bind _ (to_opposite_signed_ensures out_l) λ c' d'.
                          bind _ (out_of_pool-Flow m₃ h.two_sided false c' _ d'.0) λ m₄ i.
                            bind _ (result (validate_reserve m₄ _ true)) λ _ _.
                              bind _ (result (validate_reserve m₄ _ false)) λ _ _.
                                bind _ (result (validate_max_pnl m₄ _ _ _)) λ _ _.
                                  bind _ (burn-Ensures _ m₄) λ m₅ b. returns (
                                    rw b.0
                                      (withdrawn _ _ out_k out_l x.0 y.0 _ p.0 q.0 f g h i b.1))

  withdraw-Withdrawn :
      (amount : ℕ) (prices : Prices)
      → Ensures
          (withdraw m amount prices)
          (λ r. Withdrawn m amount r.1.long_token_output r.1.short_token_output r.0)
  unfolding withdraw try_new
  withdraw-Withdrawn amount prices =
      bind {P = λ p. p ≡ record { market_token_amount = amount; prices = prices }} _
        (bind _ (result (err_if (amount == 0) _))
          λ _ _. bind _ (result (validate prices)) λ _ _. returns refl)
        λ p e. rw e (execute-Withdrawn (record { market_token_amount = amount; prices = prices }))

-- A withdrawal from a market whose pools keep their sides apart: on each side the liquidity pool, the
-- swap impact pool and the claimable fees together hold exactly the output less, fees included. The
-- market tokens to burn grow by the withdrawn amount and are covered by the supply; those to mint and
-- the supply stay, and the pools still keep their sides apart.
pub withdraw_conserves :
    ⦃n : FixedPointOps⦄ (m : Market)
    → IsTwoSided m
    → (market_token_amount : ℕ) (prices : Prices) {m' : Market} {report : WithdrawReport}
    → withdraw m market_token_amount prices ≡ ok (m', report)
    → (holdings m' true + report.long_token_output ≡ holdings m true)
      × (holdings m' false + report.short_token_output ≡ holdings m false)
      × (m'.to_burn ≡ m.to_burn + market_token_amount)
      × (m'.to_burn ≤ m'.supply)
      × (m'.supply ≡ m.supply)
      × (m'.to_mint ≡ m.to_mint)
      × IsTwoSided m'
withdraw_conserves m apart amount prices {m'} {report} h =
    let w = (withdraw-Withdrawn m apart amount prices).apply (m', report) h in
    (w.out_long, w.out_short, w.to_burn, w.covered, w.supply, w.to_mint, w.two_sided)
