-- ===== src/Market/Base/Values.antt =====
-- Values of the pools, profit and loss, and the limits on them.
use gmx_solana.Prelude.{
  ℕ, Bool, true, false, not, ◌&&◌, ◌||◌, Option, none, some, String, ltb, ◌==◌, if◌then◌else◌,
}
use gmx_solana.Prelude.Int.{ℤ, pos, abs, is_positive}
use gmx_solana.Result.{Result, ok, Error, ok_or, err_if, ◌>>=◌, ◌>>◌, PnlFactorKind}
use gmx_solana.Num.{FixedPointOps, checked_sub, checked_mul, to_signed, signed_sub}
use gmx_solana.Utils.{apply_factor, div_to_factor_signed}
use gmx_solana.Price.{Price, Prices, pick_price, pick_price_for_pnl}
use gmx_solana.Pool.{
  Balance, amount, balance, balance_amount, merge, long_usd_value, short_usd_value,
}
use gmx_solana.Market.State.{
  Market, open_interest_pool, open_interest_in_tokens_pool, max_pool_amount, pnl_factor_config,
}

-- `get_msg_by_side`.
abbrev pub get_msg_by_side : Bool → String
get_msg_by_side is_long = if is_long then "for long" else "for short"

-- `PnlFactorExceeded`.
pub record PnlFactorExceeded : Type 0 where
  pub pnl_factor : ℤ
  pub max_pnl_factor : ℕ
  pub pool_value : ℕ

module _ ⦃n : FixedPointOps⦄ where
  unfoldable pub pool_value_without_pnl_for_one_side : Market → Prices → Bool → Bool → Result ℕ
  pool_value_without_pnl_for_one_side m prices is_long maximize =
      if is_long
      then long_usd_value (balance m.pools.primary) (pick_price prices.long_token_price maximize)
      else short_usd_value (balance m.pools.primary) (pick_price prices.short_token_price maximize)

  unfoldable pub open_interest : Market → Balance
  open_interest m =
      merge (balance (open_interest_pool m true)) (balance (open_interest_pool m false))

  unfoldable pub open_interest_in_tokens : Market → Balance
  open_interest_in_tokens m =
      merge (balance (open_interest_in_tokens_pool m true))
        (balance (open_interest_in_tokens_pool m false))

  -- The profit of one side, by its open interest in usd, its tokens, and the price.
  unfoldable pub pnl_of_side : Bool → ℕ → ℕ → ℕ → Result ℤ
  pnl_of_side is_long usd tokens price = do
    value ← ok_or (checked_mul tokens price) (Error.computation "calculating open interest value")
    if is_long
        then (do
          v ← to_signed value
          u ← to_signed usd
          ok_or (signed_sub v u) (Error.computation "calculating pnl for long"))
        else (do
          u ← to_signed usd
          v ← to_signed value
          ok_or (signed_sub u v) (Error.computation "calculating pnl for short"))

  unfoldable pub pnl : Market → Price → Bool → Bool → Result ℤ
  pnl m index_token_price is_long maximize = do
    usd ← balance_amount (open_interest m) is_long
    tokens ← balance_amount (open_interest_in_tokens m) is_long
    if usd == 0 && tokens == 0
        then ok (pos 0)
        else pnl_of_side is_long usd tokens (pick_price_for_pnl index_token_price is_long maximize)

  unfoldable pub pnl_factor_with_pool_value : Market → Prices → Bool → Bool → Result (ℤ × ℕ)
  pnl_factor_with_pool_value m prices is_long maximize = do
    pool_value ← pool_value_without_pnl_for_one_side m prices is_long (not maximize)
    p ← pnl m prices.index_token_price is_long maximize
    f ← ok_or (div_to_factor_signed p pool_value) (Error.computation "calculating pnl factor")
    ok (f, pool_value)

  unfoldable pub validate_pool_amount : Market → Bool → Result (Unit {0})
  validate_pool_amount m is_long_token =
      err_if (ltb (max_pool_amount m is_long_token) (amount m.pools.primary is_long_token))
        (Error.max_pool_amount_exceeded (get_msg_by_side is_long_token))

  unfoldable pub pnl_factor_exceeded :
      Market → Prices → PnlFactorKind → Bool → Result (Option PnlFactorExceeded)
  pnl_factor_exceeded m prices kind is_long = do
    (factor, pool_value) ← pnl_factor_with_pool_value m prices is_long true
    let max_pnl_factor = pnl_factor_config m kind is_long
    ok (
        if is_positive factor && ltb max_pnl_factor (abs factor)
        then some (record {
          pnl_factor = factor;
          max_pnl_factor = max_pnl_factor;
          pool_value = pool_value;
        })
        else none)

  -- `PnlFactorExceeded::exceeded_pnl`.
  unfoldable pub exceeded_pnl : PnlFactorExceeded → Option ℕ
  exceeded_pnl e =
      if not (is_positive e.pnl_factor) || e.pool_value == 0
      then none
      else elim (checked_sub (abs e.pnl_factor) e.max_pnl_factor) [
        | none ↦ none
        | some diff_factor ↦ apply_factor e.pool_value diff_factor
      ]

  abbrev is_exceeded : Option PnlFactorExceeded → Bool
  is_exceeded none = false
  is_exceeded (some _) = true

  unfoldable pub validate_pnl_factor : Market → Prices → PnlFactorKind → Bool → Result (Unit {0})
  validate_pnl_factor m prices kind is_long = do
    e ← pnl_factor_exceeded m prices kind is_long
    err_if (is_exceeded e) (Error.pnl_factor_exceeded kind (get_msg_by_side is_long))

  unfoldable pub validate_max_pnl :
      Market → Prices → PnlFactorKind → PnlFactorKind → Result (Unit {0})
  validate_max_pnl m prices long_kind short_kind = do
    validate_pnl_factor m prices long_kind true
    validate_pnl_factor m prices short_kind false
