-- ===== src/Action/Deposit/OneSide.antt =====
-- A deposit of one token, `execute_deposit` of crates/gmsol-model/src/action/deposit.rs: where the
-- tokens go.
use gmx_solana.Prelude.{
  ℕ, ◌+◌, ◌-◌, ◌≤◌, ◌≡◌, Bool, true, false, not, ◌&&◌, ◌==◌, if◌then◌else◌, arith, refl,
}
use gmx_solana.Prelude.Int.{ℤ, pos, is_positive, is_negative}
use gmx_solana.Result.{Ensures, ok_or, bind, branch, from_option, returns, result, err_if}
use gmx_solana.Num.{FixedPointOps, checked_mul_div_with_signed_numerator}
use gmx_solana.Num.Exact.{add_gives, sub_gives, mul_gives, try_signed_gives}
use gmx_solana.Utils.{usd_to_market_token_amount}
use gmx_solana.Price.{Price}
use gmx_solana.Fee.Split.{AddsUp, apply_fees-AddsUp}
use gmx_solana.Market.State.{Market, swap_fee_params, total_supply}
use gmx_solana.Market.Base.{validate_pool_amount}
use gmx_solana.Market.Liquidity.{validate_pool_value_for_deposit}
use gmx_solana.Action.Holdings.{
  Flow, IsTwoSided, compose, recast, into_pool-Flow, into_claimable-Flow, positive_impact-Flow,
  negative_impact-Flow,
}
use gmx_solana.Action.Deposit.{
  DepositParams, ReassignedValues, reassign_values, charge_fees, add_positive_impact,
  pay_negative_impact, settle_impact, execute_deposit, deposit_one_side,
}

-- Nothing changed, seen from the other side.
flip : (b : Bool) {m m' : Market} → Flow (not b) 0 0 m m' → Flow b 0 0 m m'
flip true f = record {
  near = let x = f.far in omega arith;
  far = let x = f.near in omega arith;
  two_sided = f.two_sided;
  supply = f.supply;
  to_mint = f.to_mint;
  to_burn = f.to_burn;
}
flip false f = record {
  near = let x = f.far in omega arith;
  far = let x = f.near in omega arith;
  two_sided = f.two_sided;
  supply = f.supply;
  to_mint = f.to_mint;
  to_burn = f.to_burn;
}

-- No change at all.
pub still : (b : Bool) (m : Market) → IsTwoSided m → Flow b 0 0 m m
still b m h = record {
  near = refl;
  far = refl;
  two_sided = h;
  supply = refl;
  to_mint = refl;
  to_burn = refl;
}

-- Of `amount` there is `left`, and the rest is in the pools.
record Kept (b : Bool) (amount left : ℕ) (m m' : Market) : Type 0 where
  least : left ≤ amount
  flow : Flow b (amount - left) 0 m m'

keep :
    (b : Bool) (amount left k : ℕ) {m m' : Market}
    → left + k ≡ amount
    → Flow b k 0 m m'
    → Kept b amount left m m'
keep b amount left k h f = record {
  least = omega arith;
  flow = recast b k 0 f (amount - left) 0 (omega arith) refl;
}

module _ ⦃n : FixedPointOps⦄ (m : Market) (apart : IsTwoSided m) (b : Bool) where
  positive_Flow :
      (price : Price) (impact : ℤ) (pool_value supply : ℕ)
      → is_positive impact ≡ true
      → Ensures
          (add_positive_impact m b price impact pool_value supply)
          (λ r. Flow (not b) 0 0 m r.0)
  unfolding add_positive_impact
  positive_Flow price impact pool_value supply sign =
      bind _ (positive_impact-Flow m apart (not b) price impact sign) λ r f.
        bind _ (from_option _ _ (mul_gives _ _)) λ usd _.
          bind _ (result (ok_or (usd_to_market_token_amount usd pool_value supply _) _)) λ minted _.
            bind _ (from_option _ _ (add_gives 0 minted)) λ mint _.
              bind _ (from_option _ _ (try_signed_gives r.1)) λ x e.
                bind _ (into_pool-Flow r.0 f.two_sided (not b) x r.1 e.0) λ m₂ g.
                  bind _ (result (validate_pool_amount m₂ (not b)))
                    λ _ _. returns (compose (not b) 0 r.1 r.1 0 f g 0 0 (omega arith))

  negative_Kept :
      (price : Price) (impact : ℤ) (amount : ℕ)
      → is_positive impact ≡ false
      → Ensures (pay_negative_impact m b price impact amount) (λ r. Kept b amount r.1 m r.0)
  unfolding pay_negative_impact
  negative_Kept price impact amount sign =
      bind _ (negative_impact-Flow m apart b price impact sign) λ r f.
        bind _ (from_option _ _ (sub_gives amount r.1))
          λ left h. returns (keep b amount left r.1 h f)

  settle_Kept :
      (v : ReassignedValues) (impact : ℤ) (amount pool_value supply : ℕ)
      → Ensures (settle_impact m b v impact amount pool_value supply) (λ r. Kept b amount r.2 m r.0)
  unfolding settle_impact
  settle_Kept v impact amount pool_value supply =
      branch (is_positive impact)
        (λ sign.
          bind _ (positive_Flow v.opposite_price impact pool_value supply sign)
            λ r f. returns (keep b amount amount 0 (omega arith) (flip b f)))
        λ sign.
          branch (is_negative impact)
            (λ _. bind _ (negative_Kept v.price impact amount sign) λ r k. returns k)
            λ _. returns (keep b amount amount 0 (omega arith) (still b m apart))

module _ ⦃n : FixedPointOps⦄ (m : Market) (apart : IsTwoSided m) (b : Bool)
    (p : DepositParams) where
  charge_fees-AddsUp : (c : Bool) (amount : ℕ) → Ensures (charge_fees m c amount) (AddsUp amount)
  unfolding charge_fees
  charge_fees-AddsUp c amount = from_option _ _ (apply_fees-AddsUp (swap_fee_params m) c amount)

  -- All of the amount is in the pools after the deposit of the token.
  pub execute_deposit-Flow :
      (pool_value : ℕ) (impact : ℤ)
      → Ensures
          (execute_deposit m p b pool_value impact)
          (λ r. Flow b (reassign_values p b).amount 0 m r.0)
  unfolding execute_deposit
  execute_deposit-Flow pool_value impact =
      bind _ (result (err_if (pool_value == 0 && not (total_supply m == 0)) _)) λ _ _.
        bind _ (charge_fees-AddsUp (is_positive impact) _) λ c adds.
          bind _ (from_option _ _ (try_signed_gives _)) λ receiver e.
            bind _ (into_claimable-Flow m apart b receiver _ e.0) λ m₁ f.
              bind _
                (settle_Kept m₁ f.two_sided b (reassign_values p b)
                  (if is_positive impact && total_supply m == 0 then pos 0 else impact) c.0
                  pool_value (total_supply m))
                λ s g. bind _ (from_option _ _ (mul_gives s.2 _)) λ usd _.
                  bind _
                    (result
                      (ok_or (usd_to_market_token_amount usd pool_value (total_supply m) _) _))
                    λ more _. bind _ (from_option _ _ (add_gives s.1 more)) λ mint _.
                      bind _ (from_option _ _ (add_gives s.2 _)) λ total t.
                        bind _ (from_option _ _ (try_signed_gives total)) λ delta d.
                          bind _ (into_pool-Flow s.0 g.flow.two_sided b delta total d.0) λ m₃ h.
                            bind _ (result (validate_pool_amount m₃ b)) λ _ _.
                              bind _ (result (validate_pool_value_for_deposit m₃ _ b)) λ _ _.
                                returns (
                                  compose b _ 0 total 0
                                    (compose b _ 0 _ 0 f g.flow
                                      (c.1.fee_amount_for_receiver + (c.0 - s.2)) 0 (omega arith))
                                    h _ 0
                                    (let whole = adds.total in
                                      let least = g.least in let sum = t.0 in omega arith))

  pub deposit_one_side-Flow :
      (pool_value : ℕ) (impact : ℤ) (usd total_usd minted : ℕ)
      → Ensures
          (deposit_one_side m p b pool_value impact usd total_usd minted)
          (λ r. Flow b (reassign_values p b).amount 0 m r.0)
  unfolding deposit_one_side
  deposit_one_side-Flow pool_value impact usd total_usd minted =
      branch ((reassign_values p b).amount == 0)
        (λ zero. returns (recast b 0 0 (still b m apart) _ 0 (ground arith) refl))
        λ _.
          bind _ (result (ok_or (checked_mul_div_with_signed_numerator usd impact total_usd) _))
            λ share _.
              bind _ (execute_deposit-Flow pool_value share)
                λ r f. bind _ (from_option _ _ (add_gives minted r.1)) λ sum _. returns f
