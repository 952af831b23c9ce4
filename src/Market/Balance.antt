-- ===== src/Market/Balance.antt =====
-- The token balances that a market account records, and their validation: `OtherState` of
-- programs/gmsol-store/src/states/market/mod.rs, revertible/market.rs, `ValidateMarketBalances` of
-- utils.rs, and the trait `Bank` of crates/gmsol-model/src/bank.rs. A token is given by its side; in a pure
-- market, where the two are one token, `to_token_side` gives the long side.
use gmx_solana.Prelude.{
  ℕ, ◌+◌, ◌-◌, ◌^◌, Bool, true, false, not, ◌||◌, ltb, leb, ◌==◌, if◌then◌else◌,
}
use gmx_solana.Result.{Result, ok, err, Error, ok_or, err_if, ◌>>=◌, ◌>>◌}
use gmx_solana.Num.{FixedPointOps, checked_add, checked_sub}
use gmx_solana.Market.State.{Market}
use gmx_solana.Market.Base.{expected_min_token_balance, total_collateral_amount_for_one_token_side}
pub mod Validation

pub record OtherState : Type 0 where
  pub long_token_balance : ℕ
  pub short_token_balance : ℕ

-- A market with its flag for a pure market and the balances that it records.
pub record RecordedMarket : Type 0 where
  pub market : Market
  pub is_pure : Bool
  pub other : OtherState

unfoldable pub balance_for_token : RecordedMarket → Bool → ℕ
balance_for_token r is_long_token =
    if is_long_token || r.is_pure then r.other.long_token_balance else r.other.short_token_balance

-- `checked_add` of u64.
abbrev pub add_u64 : ℕ → ℕ → Result ℕ
add_u64 a b = if ltb (a + b) (2 ^ 64) then ok (a + b) else err Error.token_amount_overflow

-- `checked_sub` of u64.
abbrev pub sub_u64 : ℕ → ℕ → Result ℕ
sub_u64 a b = if leb b a then ok (a - b) else err Error.token_amount_overflow

abbrev pub set_long : RecordedMarket → ℕ → RecordedMarket
set_long r balance = record r { other = record (r.other) { long_token_balance = balance } }

abbrev pub set_short : RecordedMarket → ℕ → RecordedMarket
set_short r balance = record r { other = record (r.other) { short_token_balance = balance } }

unfoldable pub record_transferred_in : RecordedMarket → Bool → ℕ → Result RecordedMarket
record_transferred_in r is_long_token amount =
    if r.is_pure || is_long_token
    then (add_u64 r.other.long_token_balance amount >>= λ balance. ok (set_long r balance))
    else (add_u64 r.other.short_token_balance amount >>= λ balance. ok (set_short r balance))

unfoldable pub record_transferred_out : RecordedMarket → Bool → ℕ → Result RecordedMarket
record_transferred_out r is_long_token amount =
    if r.is_pure || is_long_token
    then (sub_u64 r.other.long_token_balance amount >>= λ balance. ok (set_long r balance))
    else (sub_u64 r.other.short_token_balance amount >>= λ balance. ok (set_short r balance))

unfoldable pub balance_excluding : RecordedMarket → Bool → ℕ → Result ℕ
balance_excluding r is_long_token excluded =
    if excluded == 0
    then ok (balance_for_token r is_long_token)
    else ok_or (checked_sub (balance_for_token r is_long_token) excluded)
        (Error.computation "underflow when excluding amount of balance")

module _ ⦃n : FixedPointOps⦄ where
  unfoldable pub validate_market_balance_for_the_given_token :
      RecordedMarket → Bool → ℕ → Result (Unit {0})
  validate_market_balance_for_the_given_token r is_long_token excluded = do
    balance ← balance_excluding r is_long_token excluded
    one_side ← expected_min_token_balance r.market is_long_token
    min_token_balance ←
        if r.is_pure
        then (do
          other_side ← expected_min_token_balance r.market (not is_long_token)
          ok_or (checked_add one_side other_side) (
              Error.computation
                "validate balance: overflow while adding the min token balance for the other side"))
        else ok one_side
    err_if (ltb balance min_token_balance) (
        Error.invalid_token_balance
          "Less than expected min token balance excluding collateral amount")
    collateral ← total_collateral_amount_for_one_token_side r.market is_long_token
    collateral_amount ←
        if r.is_pure
        then (do
          other_side ← total_collateral_amount_for_one_token_side r.market (not is_long_token)
          ok_or (checked_add collateral other_side) (
              Error.computation
                "validate balance: overflow while adding the collateral amount for the other side"))
        else ok collateral
    err_if (ltb balance collateral_amount)
        (Error.invalid_token_balance "Less than total collateral amount")

  unfoldable pub validate_market_balances : RecordedMarket → ℕ → ℕ → Result (Unit {0})
  validate_market_balances r long_excluding_amount short_excluding_amount =
      if r.is_pure
      then (add_u64 long_excluding_amount short_excluding_amount
          >>= validate_market_balance_for_the_given_token r true)
      else (validate_market_balance_for_the_given_token r true long_excluding_amount
          >> validate_market_balance_for_the_given_token r false short_excluding_amount)
