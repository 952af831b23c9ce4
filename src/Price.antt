-- ===== src/Price.antt =====
-- crates/gmsol-model/src/price.rs.
use gmx_solana.Prelude.{
  ℕ, Bool, true, false, not, ◌&&◌, ◌||◌, xor, Option, none, some, ◌==◌, if◌then◌else◌,
}
use gmx_solana.Prelude.Maybe.{◌>>=◌}
use gmx_solana.Result.{Result, ok, err, Error, ok_or}
use gmx_solana.Num.{FixedPointOps, checked_add, checked_div}

pub record Price : Type 0 where
  pub min : ℕ
  pub max : ℕ

unfoldable pub pick_price_for_pnl : Price → Bool → Bool → ℕ
pick_price_for_pnl p is_long maximize = if xor is_long maximize then p.min else p.max

unfoldable pub pick_price : Price → Bool → ℕ
pick_price p maximize = if maximize then p.max else p.min

unfoldable pub has_zero : Price → Bool
has_zero p = p.min == 0 || p.max == 0

pub record Prices : Type 0 where
  pub index_token_price : Price
  pub long_token_price : Price
  pub short_token_price : Price

unfoldable pub collateral_token_price : Prices → Bool → Price
collateral_token_price p is_long = if is_long then p.long_token_price else p.short_token_price

abbrev is_some : Option ℕ → Bool
is_some none = false
is_some (some _) = true

module _ ⦃n : FixedPointOps⦄ where
  unfoldable pub checked_mid : Price → Option ℕ
  checked_mid p = do two ← checked_add 1 1; sum ← checked_add p.min p.max; checked_div sum two

  -- A panic ends the instruction: it is an error of its own here.
  unfoldable pub mid : Price → Result ℕ
  mid p = ok_or (checked_mid p) (Error.panic "cannot calculate the mid price")

  unfoldable pub price_is_valid : Price → Bool
  price_is_valid p = not (p.min == 0) && not (p.max == 0) && is_some (checked_mid p)

  unfoldable pub prices_is_valid : Prices → Bool
  prices_is_valid p =
      price_is_valid p.index_token_price
      && price_is_valid p.long_token_price
      && price_is_valid p.short_token_price

  unfoldable pub validate : Prices → Result (Unit {0})
  validate p = if prices_is_valid p then ok tt else err (Error.invalid_argument "invalid prices")
