-- ===== src/Action/Increase/Steps.antt =====
-- What the steps of an increase leave in the books of the market:
-- crates/gmsol-model/src/action/increase_position.rs.
use gmx_solana.Prelude.{◌&&◌, ℕ, ◌+◌, ◌≡◌, refl, Bool, false, not, ◌==◌, arith}
use gmx_solana.Prelude.Int.{is_positive, ℤ, pos, pos_part, neg_part, abs, ◌-ℤ◌}
use gmx_solana.Result.{Error, Ensures, bind, from_option, result, returns, branch, weaken, check}
use gmx_solana.Num.{FixedPointOps, checked_signed_sub}
use gmx_solana.Utils.{apply_factor}
use gmx_solana.Num.Exact.{to_signed_ensures, signed_sub_gives, add_gives}
use gmx_solana.Pool.{amount}
use gmx_solana.Fee.{PositionFees, for_receiver, for_pool, total_cost_amount}
use gmx_solana.Fee.Split.{total_cost_amount-for_pool-for_receiver, any}
use gmx_solana.Market.State.{Market, max_open_interest, collateral_sum_pool, open_interest_pool}
use gmx_solana.Position.{
  Position, position_fees, collateral_price, update_open_interest, update_total_borrowing,
  is_exceeded,
}
use gmx_solana.Action.Holdings.{holdings}
use gmx_solana.Action.Increase.{
  IncreasePositionParams, ExecutionParams, process_collateral, increase_size, settle_funding,
}
use gmx_solana.Action.Increase.Effect.{
  KeepsApart, Effect, interest_of, then_unchanged, unchanged_then, pool-Effect, claimable-Effect,
  collateral-Effect, interest-Effect, tokens-Effect, borrowing-Effect,
}

module _ (a b : Bool) where
  -- The market after the collateral has been processed.
  pub record Charged (increment : ℕ) (m : Market) (r : Market × ℤ × PositionFees) : Type 0 where
    pub total :
        holdings r.0 b + amount (collateral_sum_pool r.0 a) b + r.2.funding.amount
        ≡ holdings m b + amount (collateral_sum_pool m a) b + increment
    pub far : holdings r.0 (not b) ≡ holdings m (not b)
    pub sum :
        amount (collateral_sum_pool r.0 a) b + neg_part r.1
        ≡ amount (collateral_sum_pool m a) b + pos_part r.1
    pub interest : amount (open_interest_pool r.0 a) b ≡ amount (open_interest_pool m a) b
    pub apart : KeepsApart a r.0

  -- A position and its market after a change of the size by `s`.
  pub record Settled (s collateral size : ℕ) (m : Market) (q : Position) : Type 0 where
    pub effect : Effect a b (interest_of s) m q.market
    pub is_long : q.is_long ≡ a
    pub side : q.is_collateral_token_long ≡ b
    pub collateral_amount : q.collateral_amount ≡ collateral
    pub size_in_usd : q.size_in_usd ≡ size

difference :
    (i c : ℕ) (x y d : ℤ) → x ≡ pos i → y ≡ pos c → d ≡ x -ℤ y → pos_part d + c ≡ neg_part d + i
difference i c x y d e f g = ground arith

part_pos : (k : ℕ) (x : ℤ) → x ≡ pos k → (pos_part x ≡ k) × (neg_part x ≡ 0)
part_pos k x e = ground arith

module _ ⦃n : FixedPointOps⦄ where
  pub process-Charged :
      (p : Position) (params : IncreasePositionParams) (v : ℤ)
      → KeepsApart p.is_long p.market
      → Ensures
          (process_collateral p params v)
          (Charged p.is_long p.is_collateral_token_long params.collateral_increment_amount p.market)
  unfolding process_collateral
  process-Charged p params v h =
      let a = p.is_long in
      let b = p.is_collateral_token_long in
      bind _ (to_signed_ensures params.collateral_increment_amount) λ i e₁.
        bind _
          (result
            (position_fees p (collateral_price p params.prices) params.size_delta_usd _ false))
          λ fees _. bind _ (result (total_cost_amount fees)) λ cost e₂.
            bind _ (to_signed_ensures cost) λ y e₃.
              bind _ (from_option _ _ (signed_sub_gives i y)) λ d e₄.
                bind _ (result (for_receiver fees)) λ receiver e₅.
                  bind _ (to_signed_ensures receiver) λ x e₆.
                    bind _ (claimable-Effect b x a p.market h) λ m₁ f₁.
                      bind _ (result (for_pool fees)) λ pool e₇.
                        bind _ (to_signed_ensures pool) λ z e₈.
                          bind _ (pool-Effect b z a m₁ f₁.apart) λ m₂ f₂.
                            bind _ (collateral-Effect b d m₂ a f₂.apart) λ m₃ f₃.
                              let split = total_cost_amount-for_pool-for_receiver fees e₂ e₇ e₅ in
                              let d_parts =
                                difference params.collateral_increment_amount cost i y d e₁.0 e₃.0
                                  e₄ in
                              let x_parts = part_pos receiver x e₆.0 in
                              let z_parts = part_pos pool z e₈.0 in
                              returns (record {
                                total = omega (
                                  arith, f₁.near, f₂.near, f₃.near, f₁.sum, f₂.sum, f₃.sum,
                                  x_parts.0, x_parts.1, z_parts.0, z_parts.1,
                                );
                                far = omega (arith, f₁.far, f₂.far, f₃.far);
                                sum = omega (arith, f₁.sum, f₂.sum, f₃.sum);
                                interest = omega (arith, f₁.interest, f₂.interest, f₃.interest);
                                apart = f₃.apart;
                              })

  module _ (a b : Bool) (p : Position) (long : p.is_long ≡ a)
      (side : p.is_collateral_token_long ≡ b) where
    open_interest-Settled :
        (s : ℕ) (x y : ℤ)
        → x ≡ pos s
        → KeepsApart a p.market
        → Ensures
            (update_open_interest p x y)
            (Settled a b s p.collateral_amount p.size_in_usd p.market)
    unfolding update_open_interest is_exceeded
    open_interest-Settled s x y e h = rw long (
        rw side (
          branch (abs x == 0)
            (λ zero. returns (record {
              effect = record {
                near = omega arith;
                far = refl;
                sum = omega arith;
                interest = let z : s ≡ 0 = ground arith in omega arith;
                apart = h;
              };
              is_long = refl;
              side = refl;
              collateral_amount = refl;
              size_in_usd = refl;
            }))
            (λ _. bind _ (interest-Effect b x p.market a s e h) λ m₁ f.
              let exceeded = is_exceeded (open_interest_pool m₁ a) (max_open_interest p.market a) in
              bind _ (check (is_positive x && exceeded) Error.max_open_interest_exceeded) λ _ _.
                bind _ (tokens-Effect b y m₁ a b f.apart) λ m₂ g. returns (record {
                  effect = then_unchanged a b (interest_of s) f g;
                  is_long = refl;
                  side = refl;
                  collateral_amount = refl;
                  size_in_usd = refl;
                }))))

  borrowing-Settled :
      (p : Position) (size factor : ℕ)
      → KeepsApart p.is_long p.market
      → Ensures (update_total_borrowing p size factor) (
          Settled p.is_long p.is_collateral_token_long 0 p.collateral_amount p.size_in_usd p.market)
  unfolding update_total_borrowing
  borrowing-Settled p size factor h =
      bind _ (from_option _ _ (any (apply_factor p.size_in_usd p.borrowing_factor))) λ previous _.
        bind _ (from_option _ _ (any (apply_factor size factor))) λ next _.
          bind _ (result (checked_signed_sub next previous)) λ d _.
            bind _ (borrowing-Effect p.is_collateral_token_long d p.market p.is_long p.is_long h)
              λ m f. returns (record {
                effect = f;
                is_long = refl;
                side = refl;
                collateral_amount = refl;
                size_in_usd = refl;
              })

  pub size-Settled :
      (p : Position) (params : IncreasePositionParams) (execution : ExecutionParams)
      → KeepsApart p.is_long p.market
      → Ensures (increase_size p params execution) (
          Settled p.is_long p.is_collateral_token_long params.size_delta_usd p.collateral_amount
            (p.size_in_usd + params.size_delta_usd)
            p.market)
  unfolding increase_size settle_funding
  size-Settled p params execution h =
      let a = p.is_long in
      let b = p.is_collateral_token_long in
      let s = params.size_delta_usd in
      bind _ (from_option _ _ (add_gives p.size_in_usd s)) λ size e.
        bind _ (borrowing-Settled p size _ h) λ p₁ f.
          bind _ (from_option _ _ (add_gives p₁.size_in_tokens execution.size_delta_in_tokens))
            λ tokens _. bind _ (to_signed_ensures s) λ x e₁.
              bind _ (to_signed_ensures execution.size_delta_in_tokens) λ y _.
                weaken _
                  (λ q g. record {
                    effect = unchanged_then a b (interest_of s) f.effect g.effect;
                    is_long = g.is_long;
                    side = g.side;
                    collateral_amount =
                        let k = g.collateral_amount in let l = f.collateral_amount in cc;
                    size_in_usd = let k = g.size_in_usd in let l = e.0 in cc;
                  })
                  (open_interest-Settled a b _ f.is_long f.side s x y e₁.0 f.effect.apart)
