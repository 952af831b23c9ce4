-- ===== src/Pool/Split.antt =====
-- The two amounts of a pool against what it stores.
use gmx_solana.Prelude.{ℕ, ◌+◌, ◌≤◌, ◌≡◌, Bool, true, false, arith, if◌then◌else◌}
use gmx_solana.Prelude.Int.{ℤ, pos_part, neg_part}
use gmx_solana.Result.{ok, Ensures, bind, from_option, returns, weaken}
use gmx_solana.Num.{FixedPointOps}
use gmx_solana.Num.Exact.{add_signed_gives}
use gmx_solana.Pool.{
  Pool, is_pure_pool, long_amount, short_amount, new_both_sides, apply_delta_to_long_amount,
  apply_delta_to_short_amount, checked_apply_delta,
}

-- All tokens that a pool stores.
abbrev pub stock : Pool → ℕ
stock p = p.long_token_amount + p.short_token_amount

-- A pure pool keeps nothing in its second field.
abbrev pub IsConsistent : Pool → Type 0
IsConsistent p = (if is_pure_pool p then p.short_token_amount else 0) ≡ 0

-- In a pool that keeps nothing in its second field if it is pure, the long and the short amount add up to all that is stored.
pub long_amount-add-short_amount :
    (p : Pool) → IsConsistent p → long_amount p + short_amount p ≡ stock p
unfolding long_amount short_amount
long_amount-add-short_amount p h = ground arith

-- What a pure pool shows of an amount that it stores.
shown :
    (p : Pool)
    → is_pure_pool p ≡ true
    → (long_amount p + short_amount p ≡ p.long_token_amount)
      × (short_amount p ≤ long_amount p)
      × (long_amount p ≤ short_amount p + 1)
unfolding long_amount short_amount
shown p h = (ground arith, ground arith, ground arith)

-- A pure pool takes a delta to either side into the one amount that it stores.
record Stored (x : ℤ) (p q : Pool) : Type 0 where
  amount : q.long_token_amount + neg_part x ≡ p.long_token_amount + pos_part x
  pure : is_pure_pool q ≡ true

module _ ⦃n : FixedPointOps⦄ where
  module _ (p : Pool) (pure : is_pure_pool p ≡ true) (x : ℤ) where
    long_Stored : Ensures (apply_delta_to_long_amount p x) (Stored x p)
    unfolding apply_delta_to_long_amount is_pure_pool
    long_Stored =
        bind _ (from_option _ _ (add_signed_gives p.long_token_amount x))
          λ a h. returns (record { amount = h.0; pure = pure })

    short_Stored : Ensures (apply_delta_to_short_amount p x) (Stored x p)
    unfolding apply_delta_to_short_amount is_pure_pool
    short_Stored = rw pure (
        bind _ (from_option _ _ (add_signed_gives p.long_token_amount x))
          λ a h. returns (record { amount = h.0; pure = pure }))

  both_Stored :
      (p : Pool)
      → is_pure_pool p ≡ true
      → (b : Bool) (x y : ℤ)
      → Ensures (checked_apply_delta p (new_both_sides b x y)) (λ q.
        (q.long_token_amount + neg_part x + neg_part y
          ≡ p.long_token_amount + pos_part x + pos_part y)
        × (is_pure_pool q ≡ true))
  unfolding checked_apply_delta new_both_sides
  both_Stored p pure true x y =
      bind _ (long_Stored p pure x) λ r h.
        weaken _ (λ q k. (omega (arith, h.amount, k.amount), k.pure)) (short_Stored r h.pure y)
  both_Stored p pure false x y =
      bind _ (long_Stored p pure y) λ r h.
        weaken _ (λ q k. (omega (arith, h.amount, k.amount), k.pure)) (short_Stored r h.pure x)

  -- After deltas to both sides of a pure pool, its long and its short amount together have moved by both
  -- deltas, and they are split evenly: the long amount is the short one, or one more.
  pub pure_pool_split :
      (p : Pool)
      → is_pure_pool p ≡ true
      → (b : Bool) (x y : ℤ) {q : Pool} → checked_apply_delta p (new_both_sides b x y) ≡ ok q
      → (long_amount q + short_amount q + neg_part x + neg_part y
          ≡ long_amount p + short_amount p + pos_part x + pos_part y)
        × (short_amount q ≤ long_amount q)
        × (long_amount q ≤ short_amount q + 1)
  pure_pool_split p pure b x y {q} e =
      let s = (both_Stored p pure b x y).apply q e in
      let before = shown p pure in
      let after = shown q s.1 in (omega (arith, s.0, before.0, after.0), after.1, after.2)
