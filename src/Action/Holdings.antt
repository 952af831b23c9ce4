-- ===== src/Action/Holdings.antt =====
-- The tokens that actions move: the liquidity pool, the swap impact pool and the claimable fees of a
-- market, and what each change of one of them does to the whole.
use gmx_solana.Prelude.{ℕ, ◌+◌, ◌≡◌, Bool, true, false, not, arith, refl}
use gmx_solana.Prelude.Int.{ℤ, pos, pos_part, neg_part, abs, neg, is_positive}
use gmx_solana.Result.{Ensures, bind, from_option, returns, weaken}
use gmx_solana.Num.{FixedPointOps}
use gmx_solana.Num.Exact.{neg_gives}
use gmx_solana.Price.{Price}
use gmx_solana.Pool.{Pool}
use gmx_solana.Pool.Apply.{Moved, apply_delta_amount-Moved}
use gmx_solana.Market.State.{Market}
use gmx_solana.Market.SwapImpact.{swap_impact_amount_with_cap, apply_swap_impact_value_with_cap}
use gmx_solana.Market.SwapImpact.Amount.{positive_sign, non_positive_sign}
pub use gmx_solana.Market.Balance.Validation.{holdings}
use gmx_solana.Market.Liquidity.{apply_delta, apply_delta_to_claimable_fee_pool}

-- The three pools each keep their sides apart.
pub record IsTwoSided (m : Market) : Type 0 where
  pub primary : m.pools.primary.is_pure ≡ 0
  pub swap_impact : m.pools.swap_impact.is_pure ≡ 0
  pub claimable_fee : m.pools.claimable_fee.is_pure ≡ 0

-- On the side `b`, `i` tokens come in and `o` go out; nothing else of the market tokens changes.
pub record Flow (b : Bool) (i o : ℕ) (m m' : Market) : Type 0 where
  pub near : holdings m' b + o ≡ holdings m b + i
  pub far : holdings m' (not b) ≡ holdings m (not b)
  pub two_sided : IsTwoSided m'
  pub supply : m'.supply ≡ m.supply
  pub to_mint : m'.to_mint ≡ m.to_mint
  pub to_burn : m'.to_burn ≡ m.to_burn

-- Two flows of one side, one after the other.
pub compose :
    (b : Bool) (i o j k : ℕ) {m m₁ m₂ : Market}
    → Flow b i o m m₁
    → Flow b j k m₁ m₂
    → (i' o' : ℕ) → i' + (o + k) ≡ o' + (i + j)
    → Flow b i' o' m m₂
compose b i o j k f g i' o' h = record {
  near = let x = f.near in let y = g.near in omega arith;
  far = let x = f.far in let y = g.far in cc;
  two_sided = g.two_sided;
  supply = let x = f.supply in let y = g.supply in cc;
  to_mint = let x = f.to_mint in let y = g.to_mint in cc;
  to_burn = let x = f.to_burn in let y = g.to_burn in cc;
}

pub recast :
    (b : Bool) (i o : ℕ) {m m' : Market}
    → Flow b i o m m'
    → (i' o' : ℕ) → i ≡ i'
    → o ≡ o'
    → Flow b i' o' m m'
recast b i o f i' o' p q = record {
  near = let x = f.near in omega arith;
  far = f.far;
  two_sided = f.two_sided;
  supply = f.supply;
  to_mint = f.to_mint;
  to_burn = f.to_burn;
}

-- The magnitude of a value is that of its opposite, on the other side of zero.
pub neg_of_pos : (z : ℤ) → neg_part z ≡ 0 → (pos_part (neg z) ≡ 0) × (neg_part (neg z) ≡ abs z)
neg_of_pos z h = ground arith

pub neg_of_neg : (z : ℤ) → pos_part z ≡ 0 → (pos_part (neg z) ≡ abs z) × (neg_part (neg z) ≡ 0)
neg_of_neg z h = ground arith

taken : (z : ℤ) → neg_part z ≡ 0 → (x : ℤ) → x ≡ neg z → (pos_part x ≡ 0) × (neg_part x ≡ abs x)
taken z h x e = ground arith

given : (z : ℤ) → pos_part z ≡ 0 → (x : ℤ) → x ≡ neg z → (pos_part x ≡ abs x) × (neg_part x ≡ 0)
given z h x e = ground arith

module _ (b : Bool) (x : ℤ) (m : Market) (apart : IsTwoSided m) (q : Pool) where
  primary-Flow :
      Moved b x (pos 0) m.pools.primary q
      → Flow b (pos_part x) (neg_part x) m (record m { pools = record (m.pools) { primary = q } })
  primary-Flow h =
      let near = h.near in
      let far = h.far in
      record {
        near = omega arith;
        far = omega arith;
        two_sided = record {
          primary = h.impure;
          swap_impact = apart.swap_impact;
          claimable_fee = apart.claimable_fee;
        };
        supply = refl;
        to_mint = refl;
        to_burn = refl;
      }

  claimable_fee-Flow :
      Moved b x (pos 0) m.pools.claimable_fee q
      → Flow b
          (pos_part x)
          (neg_part x)
          m
          (record m { pools = record (m.pools) { claimable_fee = q } })
  claimable_fee-Flow h =
      let near = h.near in
      let far = h.far in
      record {
        near = omega arith;
        far = omega arith;
        two_sided = record {
          primary = apart.primary;
          swap_impact = apart.swap_impact;
          claimable_fee = h.impure;
        };
        supply = refl;
        to_mint = refl;
        to_burn = refl;
      }

  swap_impact-Flow :
      Moved b x (pos 0) m.pools.swap_impact q
      → Flow b
          (pos_part x)
          (neg_part x)
          m
          (record m { pools = record (m.pools) { swap_impact = q } })
  swap_impact-Flow h =
      let near = h.near in
      let far = h.far in
      record {
        near = omega arith;
        far = omega arith;
        two_sided = record {
          primary = apart.primary;
          swap_impact = h.impure;
          claimable_fee = apart.claimable_fee;
        };
        supply = refl;
        to_mint = refl;
        to_burn = refl;
      }

module _ ⦃n : FixedPointOps⦄ (m : Market) (apart : IsTwoSided m) (b : Bool) where
  pub apply_delta-Flow : (x : ℤ) → Ensures (apply_delta m b x) (Flow b (pos_part x) (neg_part x) m)
  unfolding apply_delta
  apply_delta-Flow x =
      bind _ (apply_delta_amount-Moved m.pools.primary apart.primary x b)
        λ q h. returns (primary-Flow b x m apart q h)

  pub claimable-Flow :
      (x : ℤ)
      → Ensures (apply_delta_to_claimable_fee_pool m b x) (Flow b (pos_part x) (neg_part x) m)
  unfolding apply_delta_to_claimable_fee_pool
  claimable-Flow x =
      bind _ (apply_delta_amount-Moved m.pools.claimable_fee apart.claimable_fee x b)
        λ q h. returns (claimable_fee-Flow b x m apart q h)

  module _ (x : ℤ) (k : ℕ) where
    pub into_pool-Flow : x ≡ pos k → Ensures (apply_delta m b x) (Flow b k 0 m)
    into_pool-Flow e = rw e (apply_delta-Flow (pos k))

    pub into_claimable-Flow :
        x ≡ pos k → Ensures (apply_delta_to_claimable_fee_pool m b x) (Flow b k 0 m)
    into_claimable-Flow e = rw e (claimable-Flow (pos k))

    pub out_of_pool-Flow : x ≡ neg (pos k) → Ensures (apply_delta m b x) (Flow b 0 k m)
    out_of_pool-Flow e =
        let parts = taken (pos k) refl x e in
        weaken _ (λ m' f. recast b _ _ f 0 k parts.0 (rw e (neg_of_pos (pos k) refl).1))
          (apply_delta-Flow x)

  -- What a price impact reports is what it moves: a positive impact takes it from the swap impact
  -- pool, a negative one puts it there.
  module _ (price : Price) (impact : ℤ) where
    pub positive_impact-Flow :
        is_positive impact ≡ true
        → Ensures (apply_swap_impact_value_with_cap m b price impact) (λ r. Flow b 0 r.1 m r.0)
    unfolding apply_swap_impact_value_with_cap swap_impact_amount_with_cap
    positive_impact-Flow sign = bind _ (positive_sign _ b price impact sign) λ s k.
        bind _ (from_option _ _ (neg_gives s.0)) λ x e.
          bind _ (apply_delta_amount-Moved m.pools.swap_impact apart.swap_impact x b) λ q h.
            let parts : (pos_part x ≡ 0) × (neg_part x ≡ abs x) = taken s.0 k x e in
            returns (recast b _ _ (swap_impact-Flow b x m apart q h) 0 (abs x) parts.0 parts.1)

    pub negative_impact-Flow :
        is_positive impact ≡ false
        → Ensures (apply_swap_impact_value_with_cap m b price impact) (λ r. Flow b r.1 0 m r.0)
    unfolding apply_swap_impact_value_with_cap swap_impact_amount_with_cap
    negative_impact-Flow sign = bind _ (non_positive_sign _ b price impact sign) λ s k.
        bind _ (from_option _ _ (neg_gives s.0)) λ x e.
          bind _ (apply_delta_amount-Moved m.pools.swap_impact apart.swap_impact x b) λ q h.
            let parts : (pos_part x ≡ abs x) × (neg_part x ≡ 0) = given s.0 k x e in
            returns (recast b _ _ (swap_impact-Flow b x m apart q h) (abs x) 0 parts.0 parts.1)
