-- ===== src/Action/Swap/Branch.antt =====
-- The two branches of `Swap::try_execute` that settle the price impact, in
-- crates/gmsol-model/src/action/swap.rs: what the swap impact pool pays or takes.
use gmx_solana.Prelude.{ℕ, ◌+◌, ◌≡◌, Bool, true, false, not, ◌==◌, arith, refl}
use gmx_solana.Prelude.Int.{ℤ, pos, neg_part, pos_part, is_positive, neg, abs}
use gmx_solana.Result.{Ensures, bind, branch, check, from_option, returns}
use gmx_solana.Num.{FixedPointOps}
use gmx_solana.Num.Exact.{add_gives, sub_gives, neg_gives, to_signed_ensures, mul_div_gives}
use gmx_solana.Price.{Price}
use gmx_solana.Pool.{Pool, amount}
use gmx_solana.Pool.Apply.{Moved, one_side-Moved, both_sides-Moved}
use gmx_solana.Market.State.{Market}
use gmx_solana.Market.SwapImpact.{swap_impact_amount_with_cap}
use gmx_solana.Market.SwapImpact.Amount.{positive_sign, non_positive_sign}
use gmx_solana.Action.Holdings.{neg_of_pos, neg_of_neg}
use gmx_solana.Action.Swap.{
  SwapParams, SwapAmounts, capped_diff_token_in, positive_impact_amounts, negative_impact_amounts,
}

pub not-not : (b : Bool) → not (not b) ≡ b
not-not true = refl
not-not false = refl

-- The swap impact pool settles the difference between what comes in after fees and what goes into the
-- liquidity pool, and between what leaves the liquidity pool and what is paid out.
pub record Settled (b : Bool) (before : Pool) (amount_after_fees : ℕ) (a : SwapAmounts)
    : Type 0 where
  pub impure : a.swap_impact.is_pure ≡ 0
  pub in_side : amount a.swap_impact b + a.token_in_amount ≡ amount before b + amount_after_fees
  pub out_side :
      amount a.swap_impact (not b) + a.token_out_amount ≡ amount before (not b) + a.pool_amount_out

module _ (b : Bool) (before : Pool) (after : ℕ) (s : ℤ) (q : Pool) where
  settle_both :
      (d : ℤ)
      → neg_part s ≡ 0
      → neg_part d ≡ 0
      → (x y : ℤ) → x ≡ neg s
      → y ≡ neg d
      → Moved (not b) x y before q
      → (token_in token_out pool_out : ℕ) → token_in ≡ after + abs d
      → token_out ≡ pool_out + abs s
      → Settled b before after (record {
        token_in_amount = token_in;
        token_out_amount = token_out;
        pool_amount_out = pool_out;
        price_impact_amount = abs s;
        swap_impact = q;
      })
  settle_both d k l x y ex ey moved token_in token_out pool_out e g =
      let xs = neg_of_pos s k in
      let ys = neg_of_pos d l in
      let near : amount q (not b) + neg_part (neg s) ≡ amount before (not b) + pos_part (neg s) =
        rw (← ex) moved.near in
      let far : amount q b + neg_part (neg d) ≡ amount before b + pos_part (neg d) =
        rw (← ey) (rw (← not-not b) moved.far) in
      record { impure = moved.impure; in_side = omega arith; out_side = omega arith }

  settle_one :
      pos_part s ≡ 0
      → (x : ℤ) → x ≡ neg s
      → Moved b x (pos 0) before q
      → (token_in pool_out : ℕ) → token_in + abs s ≡ after
      → Settled b before after (record {
        token_in_amount = token_in;
        token_out_amount = pool_out;
        pool_amount_out = pool_out;
        price_impact_amount = abs s;
        swap_impact = q;
      })
  settle_one k x ex moved token_in pool_out e =
      let xs = neg_of_neg s k in
      let near : amount q b + neg_part (neg s) ≡ amount before b + pos_part (neg s) =
        rw (← ex) moved.near in
      record { impure = moved.impure; in_side = omega arith; out_side = omega arith }

module _ ⦃n : FixedPointOps⦄ (m : Market) (p : SwapParams)
    (impure : m.pools.swap_impact.is_pure ≡ 0) where
  capped_diff_sign :
      (price : Price) (v : ℕ) → Ensures (capped_diff_token_in m p price v) (λ d. neg_part d ≡ 0)
  unfolding capped_diff_token_in swap_impact_amount_with_cap
  capped_diff_sign price v =
      branch (v == 0) (λ _. returns refl)
        λ nz.
          bind _ (to_signed_ensures v)
            λ usd h. bind _ (positive_sign _ _ price usd (ground arith)) λ d k. returns k

  module _ (token_in_price token_out_price : Price) (impact : ℤ) (amount_after_fees : ℕ) where
    pub positive_Settled :
        is_positive impact ≡ true
        → Ensures
            (positive_impact_amounts m p token_in_price token_out_price impact amount_after_fees)
            (Settled p.is_token_in_long m.pools.swap_impact amount_after_fees)
    unfolding positive_impact_amounts swap_impact_amount_with_cap
    positive_Settled h = bind _ (positive_sign _ _ token_out_price impact h) λ s k.
        bind _ (capped_diff_sign token_in_price _) λ d l.
          bind _ (from_option _ _ (add_gives _ (abs d))) λ token_in e.
            bind _ (from_option _ _ (neg_gives s.0)) λ x ex.
              bind _ (from_option _ _ (neg_gives d)) λ y ey.
                bind _ (both_sides-Moved m.pools.swap_impact impure (not p.is_token_in_long) x y)
                  λ q moved. bind _ (from_option _ _ (mul_div_gives token_in _ _)) λ pool_out f.
                    bind _ (from_option _ _ (add_gives pool_out (abs s.0))) λ token_out g. returns (
                      settle_both _ _ _ s.0 q d k l x y ex ey moved token_in token_out pool_out
                        (e.0) (g.0))

    pub negative_Settled :
        is_positive impact ≡ false
        → Ensures
            (negative_impact_amounts m p token_in_price token_out_price impact amount_after_fees)
            (Settled p.is_token_in_long m.pools.swap_impact amount_after_fees)
    unfolding negative_impact_amounts swap_impact_amount_with_cap
    negative_Settled h = bind _ (non_positive_sign _ _ token_in_price impact h) λ s k.
        bind _ (from_option _ _ (neg_gives s.0)) λ x ex.
          bind _ (one_side-Moved m.pools.swap_impact impure x p.is_token_in_long) λ q moved.
            bind _ (from_option _ _ (sub_gives amount_after_fees (abs s.0))) λ token_in e.
              bind _ (check (token_in == 0) _) λ _ _.
                bind _ (from_option _ _ (mul_div_gives token_in _ _))
                  λ pool_out f. returns (settle_one _ _ _ s.0 q k x ex moved token_in pool_out e)
