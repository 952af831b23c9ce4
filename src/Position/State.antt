-- ===== src/Position/State.antt =====
-- A position with its market, and the parts of it that actions read and write.
use gmx_solana.Prelude.{ℕ, ◌+◌, ◌^◌, Bool, Option, ◌&&◌, ltb, ◌==◌, if◌then◌else◌}
use gmx_solana.Prelude.Int.{ℤ}
use gmx_solana.Result.{Result, ok, err, Error}
use gmx_solana.Market.State.{Market}

-- `on_validate` is what the validation of the accounts of the position and its market ends with;
-- `order_fee_discount` is that of the order and `slot` the slot of the runtime.
pub record Position : Type 0 where
  pub market : Market
  pub is_long : Bool
  pub is_collateral_token_long : Bool
  pub collateral_amount : ℕ
  pub size_in_usd : ℕ
  pub size_in_tokens : ℕ
  pub borrowing_factor : ℕ
  pub funding_fee_amount_per_size : ℕ
  pub claimable_for_long : ℕ
  pub claimable_for_short : ℕ
  pub trade_id : ℕ
  pub updated_at_slot : ℕ
  pub increased_at : ℤ
  pub trade_count : ℕ
  pub slot : ℕ
  pub order_fee_discount : Option ℕ
  pub on_validate : Result (Unit {0})

-- `claimable_funding_fee_amount_per_size` of the state.
unfoldable pub claimable_per_size : Position → Bool → ℕ
claimable_per_size p is_long_collateral =
    if is_long_collateral then p.claimable_for_long else p.claimable_for_short

unfoldable pub is_empty : Position → Bool
is_empty p = p.size_in_usd == 0 && (p.size_in_tokens == 0 && p.collateral_amount == 0)

-- `on_increased`, which takes the next trade id of the market.
unfoldable pub on_increased : Position → Result Position
on_increased p =
    if ltb (p.trade_count + 1) (2 ^ 64)
    then ok (record p {
      updated_at_slot = p.slot;
      increased_at = p.market.unix_timestamp;
      trade_count = p.trade_count + 1;
      trade_id = p.trade_count + 1;
    })
    else err Error.token_amount_overflow
