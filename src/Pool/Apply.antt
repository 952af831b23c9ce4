-- ===== src/Pool/Apply.antt =====
-- What a delta does to the amounts of a pool: programs/gmsol-store/src/states/market/pool.rs.
use gmx_solana.Prelude.{◌+◌, ◌≡◌, Bool, true, false, not, arith}
use gmx_solana.Prelude.Int.{ℤ, pos, pos_part, neg_part}
use gmx_solana.Result.{ok, Ensures, bind, from_option, returns, weaken}
use gmx_solana.Num.{FixedPointOps}
use gmx_solana.Num.Exact.{add_signed_gives}
use gmx_solana.Pool.{
  Pool, long_amount, short_amount, amount, new_one_side, new_both_sides, apply_delta_to_long_amount,
  apply_delta_to_short_amount, apply_delta_amount, checked_apply_delta,
}

-- `q` is an impure pool with `p`'s amounts, that of the side `b` moved by `x`, the other by `y`.
pub record Moved (b : Bool) (x y : ℤ) (p q : Pool) : Type 0 where
  pub impure : q.is_pure ≡ 0
  pub near : amount q b + neg_part x ≡ amount p b + pos_part x
  pub far : amount q (not b) + neg_part y ≡ amount p (not b) + pos_part y

module _ ⦃n : FixedPointOps⦄ where
  module _ (p : Pool) (impure : p.is_pure ≡ 0) (x : ℤ) where
    pub long_Moved : Ensures (apply_delta_to_long_amount p x) (λ q.
        (q.is_pure ≡ 0)
        × (long_amount q + neg_part x ≡ long_amount p + pos_part x)
        × (short_amount q ≡ short_amount p))
    unfolding apply_delta_to_long_amount long_amount short_amount
    long_Moved =
        bind _ (from_option _ _ (add_signed_gives p.long_token_amount x))
          λ a h. returns (ground arith)

    short_Moved : Ensures (apply_delta_to_short_amount p x) (λ q.
        (q.is_pure ≡ 0)
        × (short_amount q + neg_part x ≡ short_amount p + pos_part x)
        × (long_amount q ≡ long_amount p))
    unfolding apply_delta_to_short_amount long_amount short_amount
    short_Moved = rw impure (
        bind _ (from_option _ _ (add_signed_gives p.short_token_amount x))
          λ a h. returns (ground arith))

    -- A change of one side moves the amount of that side by exactly the delta, and leaves the other
    -- side as it was.
    pub apply_delta_amount-Moved :
        (b : Bool) → Ensures (apply_delta_amount b p x) (Moved b x (pos 0) p)
    unfolding apply_delta_amount amount
    apply_delta_amount-Moved true = weaken _ (λ q h. ground arith) long_Moved
    apply_delta_amount-Moved false = weaken _ (λ q h. ground arith) short_Moved

    pub one_side-Moved :
        (b : Bool) → Ensures (checked_apply_delta p (new_one_side b x)) (Moved b x (pos 0) p)
    unfolding checked_apply_delta new_one_side amount
    one_side-Moved true = bind _ long_Moved λ q h. returns (ground arith)
    one_side-Moved false = weaken _ (λ q h. ground arith) short_Moved

  -- A change of both sides moves each by its own delta.
  pub both_sides-Moved :
      (p : Pool)
      → p.is_pure ≡ 0
      → (b : Bool) (x y : ℤ)
      → Ensures (checked_apply_delta p (new_both_sides b x y)) (Moved b x y p)
  unfolding checked_apply_delta new_both_sides amount
  both_sides-Moved p impure true x y =
      bind _ (long_Moved p impure x) λ q h. weaken _ (λ r k. ground arith) (short_Moved q h.0 y)
  both_sides-Moved p impure false x y =
      bind _ (long_Moved p impure y) λ q h. weaken _ (λ r k. ground arith) (short_Moved q h.0 x)

  -- A change of both sides of a pool that keeps its sides apart moves the amount of each side by
  -- exactly its own delta, and the pool still keeps them apart.
  pub checked_apply_delta_exact :
      (p : Pool)
      → p.is_pure ≡ 0
      → (b : Bool) (x y : ℤ) {q : Pool} → checked_apply_delta p (new_both_sides b x y) ≡ ok q
      → (amount q b + neg_part x ≡ amount p b + pos_part x)
        × (amount q (not b) + neg_part y ≡ amount p (not b) + pos_part y)
        × (q.is_pure ≡ 0)
  checked_apply_delta_exact p impure b x y {q} e =
      let m = (both_sides-Moved p impure b x y).apply q e in (m.near, m.far, m.impure)
