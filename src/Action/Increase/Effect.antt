-- ===== src/Action/Increase/Effect.antt =====
-- What an increase of a position moves in the market: crates/gmsol-model/src/action/increase_position.rs.
use gmx_solana.Prelude.{ℕ, ◌+◌, ◌≡◌, refl, Bool, true, false, not, arith}
use gmx_solana.Prelude.Int.{ℤ, pos, pos_part, neg_part}
use gmx_solana.Result.{Ensures, bind, result, returns}
use gmx_solana.Num.{FixedPointOps}
use gmx_solana.Pool.{amount, apply_delta_amount, apply_delta_to_long_amount}
use gmx_solana.Pool.Apply.{apply_delta_amount-Moved}
use gmx_solana.Market.Pools.{PoolKind, get, set}
use gmx_solana.Market.State.{Market, collateral_sum_pool, open_interest_pool}
use gmx_solana.Market.Liquidity.{apply_delta, apply_delta_to_claimable_fee_pool}
use gmx_solana.Market.Perp.{apply_delta_to_pool}
use gmx_solana.Action.Holdings.{holdings}
use gmx_solana.Action.DistributePositionImpact.{apply_delta_to_position_impact_pool}
use gmx_solana.Action.Increase.{collateral_sum_kind}
use gmx_solana.Position.{open_interest_kind, open_interest_in_tokens_kind}

-- The pools that an increase of a position of the side `a` moves keep their sides apart.
pub record KeepsApart (a : Bool) (m : Market) : Type 0 where
  pub primary : m.pools.primary.is_pure ≡ 0
  pub claimable_fee : m.pools.claimable_fee.is_pure ≡ 0
  pub collateral_sum : (collateral_sum_pool m a).is_pure ≡ 0
  pub open_interest : (open_interest_pool m a).is_pure ≡ 0

-- What comes to the market and what leaves it: tokens held for the liquidity providers, tokens of
-- collateral, and open interest.
pub record Change : Type 0 where
  pub held_in : ℕ
  pub held_out : ℕ
  pub collateral_in : ℕ
  pub collateral_out : ℕ
  pub interest : ℕ

abbrev pub unchanged : Change
unchanged = record {
  held_in = 0;
  held_out = 0;
  collateral_in = 0;
  collateral_out = 0;
  interest = 0;
}

abbrev pub held : ℤ → Change
held x = record unchanged { held_in = pos_part x; held_out = neg_part x }

abbrev pub collateral : ℤ → Change
collateral x = record unchanged { collateral_in = pos_part x; collateral_out = neg_part x }

abbrev pub interest_of : ℕ → Change
interest_of s = record unchanged { interest = s }

-- The change of a market, for a position of the side `a` with collateral of the side `b`.
pub record Effect (a b : Bool) (c : Change) (m m' : Market) : Type 0 where
  pub near : holdings m' b + c.held_out ≡ holdings m b + c.held_in
  pub far : holdings m' (not b) ≡ holdings m (not b)
  pub sum :
      amount (collateral_sum_pool m' a) b + c.collateral_out
      ≡ amount (collateral_sum_pool m a) b + c.collateral_in
  pub interest : amount (open_interest_pool m' a) b ≡ amount (open_interest_pool m a) b + c.interest
  pub apart : KeepsApart a m'

module _ (a b : Bool) (c : Change) {m m₁ m₂ : Market} where
  pub then_unchanged : Effect a b c m m₁ → Effect a b unchanged m₁ m₂ → Effect a b c m m₂
  then_unchanged f g = record {
    near = omega (arith, f.near, g.near);
    far = omega (arith, f.far, g.far);
    sum = omega (arith, f.sum, g.sum);
    interest = omega (arith, f.interest, g.interest);
    apart = g.apart;
  }

  pub unchanged_then : Effect a b unchanged m m₁ → Effect a b c m₁ m₂ → Effect a b c m m₂
  unchanged_then f g = record {
    near = omega (arith, f.near, g.near);
    far = omega (arith, f.far, g.far);
    sum = omega (arith, f.sum, g.sum);
    interest = omega (arith, f.interest, g.interest);
    apart = g.apart;
  }

module _ ⦃n : FixedPointOps⦄ (b : Bool) (x : ℤ) where
  pub pool-Effect :
      (a : Bool) (m : Market) → KeepsApart a m → Ensures (apply_delta m b x) (Effect a b (held x) m)
  unfolding apply_delta collateral_sum_pool open_interest_pool
  pool-Effect a m h = bind _ (apply_delta_amount-Moved m.pools.primary h.primary x b) λ q k.
      returns (record {
        near = omega (arith, k.near);
        far = omega (arith, k.far);
        sum = refl;
        interest = omega arith;
        apart = record {
          primary = k.impure;
          claimable_fee = h.claimable_fee;
          collateral_sum = h.collateral_sum;
          open_interest = h.open_interest;
        };
      })

  pub claimable-Effect :
      (a : Bool) (m : Market)
      → KeepsApart a m
      → Ensures (apply_delta_to_claimable_fee_pool m b x) (Effect a b (held x) m)
  unfolding apply_delta_to_claimable_fee_pool collateral_sum_pool open_interest_pool
  claimable-Effect a m h =
      bind _ (apply_delta_amount-Moved m.pools.claimable_fee h.claimable_fee x b) λ q k.
        returns (record {
          near = omega (arith, k.near);
          far = omega (arith, k.far);
          sum = refl;
          interest = omega arith;
          apart = record {
            primary = h.primary;
            claimable_fee = k.impure;
            collateral_sum = h.collateral_sum;
            open_interest = h.open_interest;
          };
        })

  module _ (m : Market) where
    pub collateral-Effect :
        (a : Bool)
        → KeepsApart a m
        → Ensures (apply_delta_to_pool (collateral_sum_kind a) b x m) (Effect a b (collateral x) m)
    unfolding apply_delta_to_pool collateral_sum_kind get set collateral_sum_pool open_interest_pool
    collateral-Effect true h =
        bind _ (apply_delta_amount-Moved m.pools.collateral_sum_for_long h.collateral_sum x b)
          λ q k. returns (record {
            near = omega arith;
            far = refl;
            sum = omega (arith, k.near);
            interest = omega arith;
            apart = record {
              primary = h.primary;
              claimable_fee = h.claimable_fee;
              collateral_sum = k.impure;
              open_interest = h.open_interest;
            };
          })
    collateral-Effect false h =
        bind _ (apply_delta_amount-Moved m.pools.collateral_sum_for_short h.collateral_sum x b)
          λ q k. returns (record {
            near = omega arith;
            far = refl;
            sum = omega (arith, k.near);
            interest = omega arith;
            apart = record {
              primary = h.primary;
              claimable_fee = h.claimable_fee;
              collateral_sum = k.impure;
              open_interest = h.open_interest;
            };
          })

    pub interest-Effect :
        (a : Bool) (s : ℕ)
        → x ≡ pos s
        → KeepsApart a m
        → Ensures (apply_delta_to_pool (open_interest_kind a) b x m) (Effect a b (interest_of s) m)
    unfolding apply_delta_to_pool open_interest_kind get set collateral_sum_pool open_interest_pool
    interest-Effect true s e h =
        bind _ (apply_delta_amount-Moved m.pools.open_interest_for_long h.open_interest x b) λ q k.
          returns (record {
            near = omega arith;
            far = refl;
            sum = omega arith;
            interest =
                let y : neg_part x ≡ 0 = rw e refl in
                let z : pos_part x ≡ s = rw e refl in omega (arith, k.near);
            apart = record {
              primary = h.primary;
              claimable_fee = h.claimable_fee;
              collateral_sum = h.collateral_sum;
              open_interest = k.impure;
            };
          })
    interest-Effect false s e h =
        bind _ (apply_delta_amount-Moved m.pools.open_interest_for_short h.open_interest x b) λ q k.
          returns (record {
            near = omega arith;
            far = refl;
            sum = omega arith;
            interest =
                let y : neg_part x ≡ 0 = rw e refl in
                let z : pos_part x ≡ s = rw e refl in omega (arith, k.near);
            apart = record {
              primary = h.primary;
              claimable_fee = h.claimable_fee;
              collateral_sum = h.collateral_sum;
              open_interest = k.impure;
            };
          })

-- A change of other pools only.
module _ (a b : Bool) (m m' : Market) where
  pub frame :
      m'.pools.primary ≡ m.pools.primary
      → m'.pools.swap_impact ≡ m.pools.swap_impact
      → m'.pools.claimable_fee ≡ m.pools.claimable_fee
      → collateral_sum_pool m' a ≡ collateral_sum_pool m a
      → open_interest_pool m' a ≡ open_interest_pool m a
      → KeepsApart a m
      → Effect a b unchanged m m'
  frame p q r s t h = record {
    near = rw p (rw q (rw r (omega arith)));
    far = rw p (rw q (rw r refl));
    sum = rw s (omega arith);
    interest = rw t (omega arith);
    apart = record {
      primary = rw p h.primary;
      claimable_fee = rw r h.claimable_fee;
      collateral_sum = rw s h.collateral_sum;
      open_interest = rw t h.open_interest;
    };
  }

module _ ⦃n : FixedPointOps⦄ (b : Bool) (x : ℤ) (m : Market) where
  pub impact-Effect :
      (a : Bool)
      → KeepsApart a m
      → Ensures (apply_delta_to_position_impact_pool m x) (Effect a b unchanged m)
  unfolding apply_delta_to_position_impact_pool collateral_sum_pool open_interest_pool
  impact-Effect a h =
      bind _ (result (apply_delta_to_long_amount m.pools.position_impact x))
        λ q _. returns (frame a b m _ refl refl refl refl refl h)

  pub borrowing-Effect :
      (a c : Bool)
      → KeepsApart a m
      → Ensures (apply_delta_to_pool PoolKind.total_borrowing c x m) (Effect a b unchanged m)
  unfolding apply_delta_to_pool get set collateral_sum_pool open_interest_pool
  borrowing-Effect a c h =
      bind _ (result (apply_delta_amount c m.pools.total_borrowing x))
        λ q _. returns (frame a b m _ refl refl refl refl refl h)

  pub tokens-Effect :
      (a c : Bool)
      → KeepsApart a m
      → Ensures
          (apply_delta_to_pool (open_interest_in_tokens_kind a) c x m)
          (Effect a b unchanged m)
  unfolding apply_delta_to_pool open_interest_in_tokens_kind get set collateral_sum_pool
      open_interest_pool
  tokens-Effect true c h =
      bind _ (result (apply_delta_amount c m.pools.open_interest_in_tokens_for_long x))
        λ q _. returns (frame true b m _ refl refl refl refl refl h)
  tokens-Effect false c h =
      bind _ (result (apply_delta_amount c m.pools.open_interest_in_tokens_for_short x))
        λ q _. returns (frame false b m _ refl refl refl refl refl h)
