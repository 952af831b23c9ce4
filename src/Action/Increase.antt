-- ===== src/Action/Increase.antt =====
-- crates/gmsol-model/src/action/increase_position.rs.
use gmx_solana.Prelude.{
  ℕ, Bool, true, false, not, Option, none, some, ◌&&◌, ◌||◌, leb, ◌==◌, if◌then◌else◌,
}
use gmx_solana.Prelude.Int.{ℤ, pos, is_positive}
use gmx_solana.Result.{Result, ok, err, Error, ok_or, err_if, ◌>>=◌, ◌>>◌}
use gmx_solana.Num.{
  FixedPointOps, checked_add, checked_div, checked_round_up_div, checked_add_with_signed,
  checked_sub_with_signed, as_divisor_to_round_up_magnitude_div, signed_sub, signed_div, signed_neg,
  to_signed, try_signed,
}
use gmx_solana.Price.{Prices, Price, pick_price, prices_is_valid}
use gmx_solana.Fee.{PositionFees, for_receiver, for_pool, total_cost_amount}
use gmx_solana.Market.Pools.{PoolKind}
use gmx_solana.Market.State.{Market}
use gmx_solana.Market.Base.{validate_reserve}
use gmx_solana.Market.Liquidity.{apply_delta, apply_delta_to_claimable_fee_pool}
use gmx_solana.Market.Borrowing.{cumulative_borrowing_factor}
use gmx_solana.Market.Perp.{
  funding_fee_amount_per_size, claimable_funding_fee_amount_per_size, apply_delta_to_pool,
  validate_open_interest_reserve,
}
use gmx_solana.Action.DistributePositionImpact.{apply_delta_to_position_impact_pool}
use gmx_solana.Position.{
  Position, CollateralDelta, WillCollateralBeSufficient, is_sufficient, collateral_price,
  capped_positive_position_price_impact, position_fees, will_collateral_be_sufficient, validate,
  update_open_interest, update_total_borrowing, on_increased,
}
pub mod Effect
pub mod Steps
pub mod Bookkeeping
pub mod Health

pub record IncreasePositionParams : Type 0 where
  pub collateral_increment_amount : ℕ
  pub size_delta_usd : ℕ
  pub acceptable_price : Option ℕ
  pub prices : Prices

pub record ExecutionParams : Type 0 where
  pub price_impact_value : ℤ
  pub price_impact_amount : ℤ
  pub size_delta_in_tokens : ℕ
  pub execution_price : ℕ

pub record IncreasePositionReport : Type 0 where
  pub params : IncreasePositionParams
  pub execution : ExecutionParams
  pub collateral_delta_amount : ℤ
  pub fees : PositionFees

-- The state of the funding fees of a position is that of its market.
unfoldable pub settle_funding : Position → Position
settle_funding p = record p {
  funding_fee_amount_per_size =
      funding_fee_amount_per_size p.market p.is_long p.is_collateral_token_long;
  claimable_for_long = claimable_funding_fee_amount_per_size p.market p.is_long true;
  claimable_for_short = claimable_funding_fee_amount_per_size p.market p.is_long false;
}

unfoldable pub initialize_position_if_empty : Position → Position
unfolding settle_funding
initialize_position_if_empty p =
    if p.size_in_usd == 0 then settle_funding (record p { size_in_tokens = 0 }) else p

unfoldable pub is_acceptable : Bool → ℕ → Option ℕ → Bool
is_acceptable is_long price none = true
is_acceptable is_long price (some acceptable) =
    (is_long && leb price acceptable) || (not is_long && leb acceptable price)

unfoldable pub get_execution_price_for_increase : ℕ → ℕ → Option ℕ → Bool → Result ℕ
unfolding is_acceptable
get_execution_price_for_increase size_delta_usd size_delta_in_tokens acceptable_price is_long = do
  err_if (size_delta_usd == 0) (Error.computation "empty size delta in tokens")
  price ←
      ok_or (checked_div size_delta_usd size_delta_in_tokens)
        (Error.computation "calculating execution price")
  err_if (not (is_acceptable is_long price acceptable_price))
      (Error.invalid_argument "order not fulfillable at acceptable price")
  ok price

module _ ⦃n : FixedPointOps⦄ where
  -- `IncreasePosition::try_new`.
  unfoldable pub try_new : Prices → ℕ → ℕ → Option ℕ → Result IncreasePositionParams
  try_new prices collateral_increment_amount size_delta_usd acceptable_price = do
    err_if (not (prices_is_valid prices)) (Error.invalid_argument "invalid prices")
    ok (record {
      collateral_increment_amount = collateral_increment_amount;
      size_delta_usd = size_delta_usd;
      acceptable_price = acceptable_price;
      prices = prices;
    })

  -- An impact in usd as index tokens: rounded down if positive, its magnitude up if not.
  unfoldable pub impact_amount : Price → ℤ → Result ℤ
  impact_amount index_token_price impact_value =
      if is_positive impact_value
      then (do
        price ← ok_or (try_signed (pick_price index_token_price true)) Error.convert
        ok_or (signed_div impact_value price) (Error.computation "calculating price impact amount"))
      else ok_or
          (as_divisor_to_round_up_magnitude_div (pick_price index_token_price false) impact_value)
          (Error.computation "calculating price impact amount")

  unfoldable pub base_size_delta_in_tokens : Bool → Price → ℕ → Result ℕ
  base_size_delta_in_tokens is_long index_token_price size_delta_usd =
      ok_or
        (if is_long
          then checked_div size_delta_usd (pick_price index_token_price true)
          else checked_round_up_div size_delta_usd (pick_price index_token_price false))
        (Error.computation "calculating size delta in tokens")

  unfoldable pub get_execution_params : Position → IncreasePositionParams → Result ExecutionParams
  unfolding impact_amount base_size_delta_in_tokens
  get_execution_params p params =
      if params.size_delta_usd == 0
      then ok (record {
        price_impact_value = pos 0;
        price_impact_amount = pos 0;
        size_delta_in_tokens = 0;
        execution_price = pick_price params.prices.index_token_price p.is_long;
      })
      else (do
        size_delta ← to_signed params.size_delta_usd
        impact_value ←
            capped_positive_position_price_impact p params.prices.index_token_price size_delta
        impact ← impact_amount params.prices.index_token_price impact_value
        base ←
            base_size_delta_in_tokens p.is_long params.prices.index_token_price
              params.size_delta_usd
        tokens ←
            ok_or
              (if p.is_long
                then checked_add_with_signed base impact
                else checked_sub_with_signed base impact)
              (Error.computation "price impact larger than order size")
        price ←
            get_execution_price_for_increase params.size_delta_usd tokens params.acceptable_price
              p.is_long
        ok (record {
          price_impact_value = impact_value;
          price_impact_amount = impact;
          size_delta_in_tokens = tokens;
          execution_price = price;
        }))

  unfoldable pub collateral_sum_kind : Bool → PoolKind
  collateral_sum_kind is_long =
      if is_long then PoolKind.collateral_sum_for_long else PoolKind.collateral_sum_for_short

  -- The market, the change of the collateral and the fees.
  unfoldable pub process_collateral :
      Position → IncreasePositionParams → ℤ → Result (Market × ℤ × PositionFees)
  unfolding collateral_sum_kind
  process_collateral p params price_impact_value = do
    increment ← to_signed params.collateral_increment_amount
    fees ←
        position_fees p (collateral_price p params.prices) params.size_delta_usd
          (is_positive price_impact_value) false
    cost ← total_cost_amount fees
    signed_cost ← to_signed cost
    delta ←
        ok_or (signed_sub increment signed_cost)
          (Error.computation "applying fees to collateral amount")
    receiver ← for_receiver fees
    receiver_delta ← to_signed receiver
    m₁ ← apply_delta_to_claimable_fee_pool p.market p.is_collateral_token_long receiver_delta
    pool ← for_pool fees
    pool_delta ← to_signed pool
    m₂ ← apply_delta m₁ p.is_collateral_token_long pool_delta
    m₃ ← apply_delta_to_pool (collateral_sum_kind p.is_long) p.is_collateral_token_long delta m₂
    ok (m₃, delta, fees)

  -- The checks of an increase of the size.
  unfoldable pub validate_increase : Position → IncreasePositionParams → Result (Unit {0})
  validate_increase p params = if params.size_delta_usd == 0 then ok tt else (do
    validate_reserve p.market params.prices p.is_long
    validate_open_interest_reserve p.market params.prices p.is_long
    sufficiency ← will_collateral_be_sufficient p params.prices (record {
      next_size_in_usd = p.size_in_usd;
      next_collateral_amount = p.collateral_amount;
      realized_pnl_value = pos 0;
      open_interest_delta = pos 0;
    })
    err_if (not (is_sufficient sufficiency)) (Error.invalid_argument "insufficient collateral usd"))

  -- The sizes, the borrowing and the funding state after the collateral has been processed.
  unfoldable pub increase_size :
      Position → IncreasePositionParams → ExecutionParams → Result Position
  increase_size p params execution = do
    next_size ←
        ok_or (checked_add p.size_in_usd params.size_delta_usd)
          (Error.computation "size in usd overflow")
    let next_factor = cumulative_borrowing_factor p.market p.is_long
    p₁ ← update_total_borrowing p next_size next_factor
    next_tokens ←
        ok_or (checked_add p₁.size_in_tokens execution.size_delta_in_tokens)
          (Error.computation "size in tokens overflow")
    let p₂ = settle_funding (record p₁ {
      size_in_usd = next_size;
      size_in_tokens = next_tokens;
      borrowing_factor = next_factor;
    })
    size_delta ← to_signed params.size_delta_usd
    tokens_delta ← to_signed execution.size_delta_in_tokens
    update_open_interest p₂ size_delta tokens_delta

  -- `execute` of an initialized position.
  unfoldable pub execute_initialized :
      Position → IncreasePositionParams → Result (Position × IncreasePositionReport)
  unfolding get_execution_params process_collateral increase_size validate_increase
  execute_initialized p params = do
    execution ← get_execution_params p params
    (m₁, delta, fees) ← process_collateral p params execution.price_impact_value
    collateral ← ok_or (checked_add_with_signed p.collateral_amount delta) (
        if is_positive delta
        then Error.computation "collateral amount overflow"
        else Error.invalid_argument "insufficient collateral amount")
    impact_delta ←
        ok_or (signed_neg execution.price_impact_amount)
          (Error.computation "calculating position impact pool delta amount")
    m₂ ← apply_delta_to_position_impact_pool m₁ impact_delta
    p₁ ← increase_size (record p { market = m₂; collateral_amount = collateral }) params execution
    validate_increase p₁ params
    validate p₁ params.prices true true
    p₂ ← on_increased p₁
    ok (
      p₂,
      record {
        params = params;
        execution = execution;
        collateral_delta_amount = delta;
        fees = fees;
      },
    )

  unfoldable pub execute :
      Position → IncreasePositionParams → Result (Position × IncreasePositionReport)
  unfolding initialize_position_if_empty execute_initialized
  execute p params = execute_initialized (initialize_position_if_empty p) params

  -- `position.increase(…)?.execute()`.
  unfoldable pub increase :
      Position → Prices → ℕ → ℕ → Option ℕ → Result (Position × IncreasePositionReport)
  unfolding try_new
  increase p prices collateral_increment_amount size_delta_usd acceptable_price =
      try_new prices collateral_increment_amount size_delta_usd acceptable_price >>= execute p
