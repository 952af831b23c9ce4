-- ===== src/Position/Updates.antt =====
-- `PositionMutExt` of crates/gmsol-model/src/position.rs: what a position changes in its market.
use gmx_solana.Prelude.{ℕ, Bool, true, Option, none, some, ltb, ◌==◌, ◌&&◌, if◌then◌else◌}
use gmx_solana.Prelude.Int.{ℤ, abs, is_positive}
use gmx_solana.Result.{Result, ok, Error, ok_or, err_if, ◌>>=◌, ◌>>◌}
use gmx_solana.Num.{FixedPointOps, checked_add, checked_signed_sub}
use gmx_solana.Utils.{apply_factor}
use gmx_solana.Pool.{Pool, long_amount, short_amount}
use gmx_solana.Market.Pools.{PoolKind}
use gmx_solana.Market.State.{open_interest_pool, max_open_interest}
use gmx_solana.Market.Perp.{apply_delta_to_pool}
use gmx_solana.Position.State.{Position}

unfoldable pub open_interest_kind : Bool → PoolKind
open_interest_kind is_long =
    if is_long then PoolKind.open_interest_for_long else PoolKind.open_interest_for_short

unfoldable pub open_interest_in_tokens_kind : Bool → PoolKind
open_interest_in_tokens_kind is_long =
    if is_long
    then PoolKind.open_interest_in_tokens_for_long
    else PoolKind.open_interest_in_tokens_for_short

-- A total that overflows is above every maximum.
abbrev above : ℕ → Option ℕ → Bool
above max none = true
above max (some total) = ltb max total

module _ ⦃n : FixedPointOps⦄ where
  unfoldable pub is_exceeded : Pool → ℕ → Bool
  is_exceeded pool max = above max (checked_add (long_amount pool) (short_amount pool))

  unfoldable pub update_open_interest : Position → ℤ → ℤ → Result Position
  unfolding is_exceeded open_interest_kind open_interest_in_tokens_kind
  update_open_interest p size_delta_usd size_delta_in_tokens =
      if abs size_delta_usd == 0 then ok p else (do
        m₁ ←
            apply_delta_to_pool (open_interest_kind p.is_long) p.is_collateral_token_long
              size_delta_usd p.market
        err_if
            (is_positive size_delta_usd
              && is_exceeded (open_interest_pool m₁ p.is_long)
                  (max_open_interest p.market p.is_long))
            Error.max_open_interest_exceeded
        m₂ ←
            apply_delta_to_pool (open_interest_in_tokens_kind p.is_long) p.is_collateral_token_long
              size_delta_in_tokens m₁
        ok (record p { market = m₂ }))

  unfoldable pub update_total_borrowing : Position → ℕ → ℕ → Result Position
  update_total_borrowing p next_size_in_usd next_borrowing_factor = do
    previous ←
        ok_or (apply_factor p.size_in_usd p.borrowing_factor)
          (Error.computation "calculating previous borrowing")
    next ←
        ok_or (apply_factor next_size_in_usd next_borrowing_factor)
          (Error.computation "calculating next borrowing")
    delta ← checked_signed_sub next previous
    m ← apply_delta_to_pool PoolKind.total_borrowing p.is_long delta p.market
    ok (record p { market = m })
