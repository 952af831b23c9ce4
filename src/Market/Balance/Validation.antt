-- ===== src/Market/Balance/Validation.antt =====
-- What the validation of the recorded balances guarantees: `ValidateMarketBalances` of
-- programs/gmsol-store/src/states/market/utils.rs.
use gmx_solana.Prelude.{ℕ, ◌+◌, ◌≤◌, ◌≡◌, Bool, true, false, ltb, ◌==◌, arith, refl}
use gmx_solana.Result.{ok, Ensures, bind, branch, check, from_option, returns, weaken, weaken_gives}
use gmx_solana.Num.{FixedPointOps}
use gmx_solana.Num.Exact.{add_gives, sub_gives}
use gmx_solana.Pool.{amount}
use gmx_solana.Market.State.{Market, collateral_sum_pool}
use gmx_solana.Market.Base.{expected_min_token_balance, total_collateral_amount_for_one_token_side}
use gmx_solana.Market.Balance.{
  RecordedMarket, balance_for_token, balance_excluding, validate_market_balance_for_the_given_token,
  validate_market_balances,
}

-- The tokens of a side in the liquidity pool, the swap impact pool and the claimable fees.
abbrev pub holdings : Market → Bool → ℕ
holdings m b =
    amount m.pools.primary b + amount m.pools.swap_impact b + amount m.pools.claimable_fee b

-- The collateral of the positions in the token of a side.
abbrev pub collateral : Market → Bool → ℕ
collateral m b = amount (collateral_sum_pool m true) b + amount (collateral_sum_pool m false) b

-- The record of a token, less `excluded`, covers the pools and the collateral, each by itself.
record Covers (r : RecordedMarket) (b : Bool) (excluded : ℕ) : Type 0 where
  pools : holdings r.market b + excluded ≤ balance_for_token r b
  positions : collateral r.market b + excluded ≤ balance_for_token r b

module _ ⦃n : FixedPointOps⦄ (m : Market) where
  pub holdings_exact : (b : Bool) → Ensures (expected_min_token_balance m b) (λ c. c ≡ holdings m b)
  unfolding expected_min_token_balance
  holdings_exact b = bind _ (from_option _ _ (add_gives _ _)) λ x h. from_option _ _ (
      let s = add_gives x (amount m.pools.claimable_fee b) in
      weaken_gives _ (λ y k. let z = k.0 in rw (← h.0) z) s)

  collateral_exact :
      (b : Bool)
      → Ensures (total_collateral_amount_for_one_token_side m b) (λ c. c ≡ collateral m b)
  unfolding total_collateral_amount_for_one_token_side
  collateral_exact b = from_option _ _ (weaken_gives _ (λ y k. k.0) (add_gives _ _))

module _ ⦃n : FixedPointOps⦄ (r : RecordedMarket) where
  excluding :
      (b : Bool) (x : ℕ) → Ensures (balance_excluding r b x) (λ c. c + x ≡ balance_for_token r b)
  unfolding balance_excluding
  excluding b x =
      branch (x == 0) (λ z. returns (ground arith))
        λ _. from_option _ _ (sub_gives (balance_for_token r b) x)

  module _ (two_tokens : r.is_pure ≡ false) where
    token-Covers :
        (b : Bool) (x : ℕ)
        → Ensures (validate_market_balance_for_the_given_token r b x) (λ _. Covers r b x)
    unfolding validate_market_balance_for_the_given_token
    token-Covers b x = bind _ (excluding b x) λ balance e.
        bind _ (holdings_exact r.market b) λ one f.
          bind {P = λ c. c ≡ one} _
            (branch r.is_pure (λ p. record { apply = λ c h. cc }) λ _. returns refl)
            λ least g. bind _ (check (ltb balance least) _) λ _ h.
              bind _ (collateral_exact r.market b) λ side f'.
                bind {P = λ c. c ≡ side} _
                  (branch r.is_pure (λ p. record { apply = λ c h. cc }) λ _. returns refl)
                  λ all g'.
                    weaken _ (λ _ h'. record { pools = ground arith; positions = ground arith })
                      (check (ltb balance all) _)

    both-Covers :
        (x y : ℕ)
        → Ensures (validate_market_balances r x y) (λ _. Covers r true x × Covers r false y)
    unfolding validate_market_balances
    both-Covers x y =
        branch r.is_pure (λ p. record { apply = λ c h. cc })
          λ _. bind _ (token-Covers true x) λ _ c. weaken _ (λ _ d. (c, d)) (token-Covers false y)

    -- In a market of two tokens, where the validation of the balances succeeds, the recorded balance of
    -- each token, less the amount to exclude, covers what the liquidity pool, the swap impact pool and the
    -- claimable fees hold of it, and also, by itself, the collateral of the positions.
    pub validate_market_balances_lem :
        (long_excluded short_excluded : ℕ) {u : Unit {0}}
        → validate_market_balances r long_excluded short_excluded ≡ ok u
        → (holdings r.market true + long_excluded ≤ balance_for_token r true)
          × (holdings r.market false + short_excluded ≤ balance_for_token r false)
          × (collateral r.market true + long_excluded ≤ balance_for_token r true)
          × (collateral r.market false + short_excluded ≤ balance_for_token r false)
    validate_market_balances_lem x y e =
        let c = (both-Covers x y).apply _ e in (c.0.pools, c.1.pools, c.0.positions, c.1.positions)
