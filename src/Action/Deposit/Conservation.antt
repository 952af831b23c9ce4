-- ===== src/Action/Deposit/Conservation.antt =====
-- A deposit of both tokens: crates/gmsol-model/src/action/deposit.rs.
use gmx_solana.Prelude.{ℕ, ◌+◌, ◌≡◌, true, false, ◌&&◌, ◌==◌, arith, refl}
use gmx_solana.Prelude.Int.{abs, is_negative}
use gmx_solana.Result.{ok, Ensures, bind, from_option, returns, result, err_if, PnlFactorKind}
use gmx_solana.Num.{FixedPointOps}
use gmx_solana.Num.Exact.{add_gives}
use gmx_solana.Price.{Prices}
use gmx_solana.Market.State.{Market}
use gmx_solana.Market.Supply.{mint-Ensures}
use gmx_solana.Market.Base.{validate_max_pnl}
use gmx_solana.Market.Liquidity.{pool_value}
use gmx_solana.Action.Holdings.{Flow, IsTwoSided, holdings}
use gmx_solana.Action.Deposit.{
  DepositParams, DepositReport, try_new, price_impact, execute, deposit, reassign_values,
}
use gmx_solana.Action.Deposit.OneSide.{deposit_one_side-Flow}

record Deposited (m : Market) (long short : ℕ) (m' : Market) (minted : ℕ) : Type 0 where
  in_long : holdings m' true ≡ holdings m true + long
  in_short : holdings m' false ≡ holdings m false + short
  to_mint : m'.to_mint ≡ m.to_mint + minted
  supply : m'.supply ≡ m.supply
  to_burn : m'.to_burn ≡ m.to_burn
  two_sided : IsTwoSided m'

deposited :
    (long short minted : ℕ) {m m₁ m₂ : Market}
    → Flow true long 0 m m₁
    → Flow false short 0 m₁ m₂
    → Deposited m long short (record m₂ { to_mint = m₂.to_mint + minted }) minted
deposited long short minted f g = record {
  in_long = let x = f.near in let y = g.far in omega arith;
  in_short = let x = f.far in let y = g.near in omega arith;
  to_mint = let x = f.to_mint in let y = g.to_mint in omega arith;
  supply = let x = f.supply in let y = g.supply in omega arith;
  to_burn = let x = f.to_burn in let y = g.to_burn in omega arith;
  two_sided = record {
    primary = g.two_sided.primary;
    swap_impact = g.two_sided.swap_impact;
    claimable_fee = g.two_sided.claimable_fee;
  };
}

module _ ⦃n : FixedPointOps⦄ (m : Market) (apart : IsTwoSided m) where
  execute-Deposited :
      (p : DepositParams)
      → Ensures (execute m p) (λ r.
        Deposited m (reassign_values p true).amount (reassign_values p false).amount r.0 r.1.minted)
  unfolding execute
  execute-Deposited p =
      bind _
        (result (
          validate_max_pnl m p.prices PnlFactorKind.max_after_deposit
            PnlFactorKind.max_after_deposit))
        λ _ _. bind _ (result (price_impact m p)) λ i _.
          bind _ (result (pool_value m p.prices PnlFactorKind.max_after_deposit true)) λ value _.
            bind _ (result (err_if (is_negative value) _)) λ _ _.
              bind _ (from_option _ _ (add_gives _ _)) λ total _.
                bind _ (deposit_one_side-Flow m apart true p (abs value) i.0 i.1 total 0) λ r f.
                  bind _
                    (deposit_one_side-Flow r.0 f.two_sided false p (abs value) i.0 i.2 total r.1)
                    λ s g.
                      bind _ (mint-Ensures s.1 s.0) λ m₃ e. returns (rw e.0 (deposited _ _ s.1 f g))

  deposit-Deposited :
      (long short : ℕ) (prices : Prices)
      → Ensures (deposit m long short prices) (λ r. Deposited m long short r.0 r.1.minted)
  unfolding deposit try_new reassign_values
  deposit-Deposited long short prices =
      bind
        {P = λ p.
          p ≡ record { long_token_amount = long; short_token_amount = short; prices = prices }}
        _ (bind _ (result (err_if (long == 0 && short == 0) _)) λ _ _. returns refl)
        λ p e. rw e (
          execute-Deposited
            (record { long_token_amount = long; short_token_amount = short; prices = prices }))

-- A deposit into a market whose pools keep their sides apart: on each side the liquidity pool, the
-- swap impact pool and the claimable fees together hold exactly the deposited amount more, price
-- impact and fees included. The market tokens to mint grow by what the report says, those to burn and
-- the supply stay, and the pools still keep their sides apart.
pub deposit_conserves :
    ⦃n : FixedPointOps⦄ (m : Market)
    → IsTwoSided m
    → (long_token_amount short_token_amount : ℕ) (prices : Prices) {m' : Market}
      {report : DepositReport}
    → deposit m long_token_amount short_token_amount prices ≡ ok (m', report)
    → (holdings m' true ≡ holdings m true + long_token_amount)
      × (holdings m' false ≡ holdings m false + short_token_amount)
      × (m'.to_mint ≡ m.to_mint + report.minted)
      × (m'.supply ≡ m.supply)
      × (m'.to_burn ≡ m.to_burn)
      × IsTwoSided m'
deposit_conserves m apart long short prices {m'} {report} h =
    let d = (deposit-Deposited m apart long short prices).apply (m', report) h in
    (d.in_long, d.in_short, d.to_mint, d.supply, d.to_burn, d.two_sided)
