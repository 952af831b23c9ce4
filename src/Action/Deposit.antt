-- ===== src/Action/Deposit.antt =====
-- crates/gmsol-model/src/action/deposit.rs.
use gmx_solana.Prelude.{ℕ, Bool, true, false, not, ◌&&◌, ◌==◌, if◌then◌else◌}
use gmx_solana.Prelude.Int.{ℤ, pos, abs, is_positive, is_negative}
use gmx_solana.Result.{Result, ok, err, Error, ok_or, err_if, ◌>>=◌, ◌>>◌, PnlFactorKind}
use gmx_solana.Num.{
  FixedPointOps, checked_add, checked_sub, checked_mul, checked_mul_div_with_signed_numerator,
  try_signed,
}
use gmx_solana.Utils.{usd_to_market_token_amount}
use gmx_solana.Price.{Price, Prices, mid, pick_price}
use gmx_solana.Pool.{balance}
use gmx_solana.Delta.{pool_delta_with_amounts, PoolDelta}
use gmx_solana.Delta.{price_impact as pool_price_impact}
use gmx_solana.Fee.{Fees, no_fees, apply_fees}
use gmx_solana.Market.State.{
  Market, swap_fee_params, swap_impact_params, total_supply, usd_to_amount_divisor, mint,
}
use gmx_solana.Market.Base.{validate_pool_amount, validate_max_pnl}
use gmx_solana.Market.SwapImpact.{apply_swap_impact_value_with_cap}
use gmx_solana.Market.Liquidity.{
  pool_value, apply_delta, apply_delta_to_claimable_fee_pool, validate_pool_value_for_deposit,
}
pub mod OneSide
pub mod Conservation

pub record DepositParams : Type 0 where
  pub long_token_amount : ℕ
  pub short_token_amount : ℕ
  pub prices : Prices

pub record DepositReport : Type 0 where
  pub params : DepositParams
  pub minted : ℕ
  pub price_impact : ℤ
  pub long_token_fees : Fees
  pub short_token_fees : Fees

pub record ReassignedValues : Type 0 where
  pub amount : ℕ
  pub price : Price
  pub opposite_price : Price

unfoldable pub reassign_values : DepositParams → Bool → ReassignedValues
reassign_values p is_long_token =
    if is_long_token
    then record {
      amount = p.long_token_amount;
      price = p.prices.long_token_price;
      opposite_price = p.prices.short_token_price;
    }
    else record {
      amount = p.short_token_amount;
      price = p.prices.short_token_price;
      opposite_price = p.prices.long_token_price;
    }

-- `Deposit::try_new`.
unfoldable pub try_new : ℕ → ℕ → Prices → Result DepositParams
try_new long_token_amount short_token_amount prices = do
  err_if (long_token_amount == 0 && short_token_amount == 0) Error.empty_deposit
  ok (record {
    long_token_amount = long_token_amount;
    short_token_amount = short_token_amount;
    prices = prices;
  })

module _ ⦃n : FixedPointOps⦄ where
  -- The price impact in usd, and the usd values of the two amounts.
  unfoldable pub price_impact : Market → DepositParams → Result (ℤ × ℕ × ℕ)
  price_impact m p = do
    long ← ok_or (try_signed p.long_token_amount) Error.convert
    short ← ok_or (try_signed p.short_token_amount) Error.convert
    long_price ← mid p.prices.long_token_price
    short_price ← mid p.prices.short_token_price
    delta ← pool_delta_with_amounts (balance m.pools.primary) long short long_price short_price
    impact ← pool_price_impact delta (swap_impact_params m)
    ok (impact, abs (delta.delta).long_token_usd_value, abs (delta.delta).short_token_usd_value)

  unfoldable pub charge_fees : Market → Bool → ℕ → Result (ℕ × Fees)
  charge_fees m is_positive_impact amount =
      ok_or (apply_fees (swap_fee_params m) is_positive_impact amount)
        (Error.computation "apply fees")

  -- A positive impact: tokens of the opposite side move from the swap impact pool into the liquidity
  -- pool, and are minted for. The market, and the market tokens.
  unfoldable pub add_positive_impact : Market → Bool → Price → ℤ → ℕ → ℕ → Result (Market × ℕ)
  add_positive_impact m is_long_token opposite_price impact pool_value supply = do
    (m₁, positive_impact_amount) ←
        apply_swap_impact_value_with_cap m (not is_long_token) opposite_price impact
    usd ← ok_or (checked_mul positive_impact_amount (pick_price opposite_price true)) Error.overflow
    minted ←
        ok_or (usd_to_market_token_amount usd pool_value supply usd_to_amount_divisor)
          (Error.computation "convert positive usd to amount")
    mint_amount ← ok_or (checked_add 0 minted) Error.overflow
    delta ← ok_or (try_signed positive_impact_amount) Error.convert
    m₂ ← apply_delta m₁ (not is_long_token) delta
    validate_pool_amount m₂ (not is_long_token)
    ok (m₂, mint_amount)

  -- A negative impact: part of the amount goes into the swap impact pool.
  unfoldable pub pay_negative_impact : Market → Bool → Price → ℤ → ℕ → Result (Market × ℕ)
  pay_negative_impact m is_long_token price impact amount = do
    (m₁, negative_impact_amount) ← apply_swap_impact_value_with_cap m is_long_token price impact
    left ←
        ok_or (checked_sub amount negative_impact_amount)
          (Error.computation "deposit: not enough fund to pay negative impact amount")
    ok (m₁, left)

  -- The market, the market tokens minted so far, and the amount that is left.
  unfoldable pub settle_impact :
      Market → Bool → ReassignedValues → ℤ → ℕ → ℕ → ℕ → Result (Market × ℕ × ℕ)
  settle_impact m is_long_token v impact amount pool_value supply =
      if is_positive impact
      then (do
        (m₁, mint_amount) ←
            add_positive_impact m is_long_token v.opposite_price impact pool_value supply
        ok (m₁, mint_amount, amount))
      else if is_negative impact
      then (do
        (m₁, left) ← pay_negative_impact m is_long_token v.price impact amount
        ok (m₁, 0, left))
      else ok (m, 0, amount)

  -- The market, the market tokens to mint, and the fees.
  unfoldable pub execute_deposit :
      Market → DepositParams → Bool → ℕ → ℤ → Result (Market × ℕ × Fees)
  execute_deposit m p is_long_token pool_value impact = do
    let supply = total_supply m
    err_if (pool_value == 0 && not (supply == 0)) (Error.invalid_pool_value "deposit")
    let v = reassign_values p is_long_token
    (amount_after_fees, fees) ← charge_fees m (is_positive impact) v.amount
    receiver ← ok_or (try_signed fees.fee_amount_for_receiver) Error.convert
    m₁ ← apply_delta_to_claimable_fee_pool m is_long_token receiver
    let settled = if is_positive impact && supply == 0 then pos 0 else impact
    (m₂, minted, amount) ←
        settle_impact m₁ is_long_token v settled amount_after_fees pool_value supply
    usd ← ok_or (checked_mul amount (pick_price v.price false)) Error.overflow
    more ←
        ok_or (usd_to_market_token_amount usd pool_value supply usd_to_amount_divisor)
          (Error.computation "convert negative usd to amount")
    mint_amount ← ok_or (checked_add minted more) Error.overflow
    to_pool ← ok_or (checked_add amount fees.fee_amount_for_pool) Error.overflow
    delta ← ok_or (try_signed to_pool) Error.convert
    m₃ ← apply_delta m₂ is_long_token delta
    validate_pool_amount m₃ is_long_token
    validate_pool_value_for_deposit m₃ p.prices is_long_token
    ok (m₃, mint_amount, fees)

  -- The block of `execute` for one token: nothing if the amount is zero.
  unfoldable pub deposit_one_side :
      Market → DepositParams → Bool → ℕ → ℤ → ℕ → ℕ → ℕ → Result (Market × ℕ × Fees)
  deposit_one_side m p is_long_token pool_value impact usd total_usd minted =
      if (reassign_values p is_long_token).amount == 0 then ok (m, minted, no_fees) else (do
        share ← ok_or (checked_mul_div_with_signed_numerator usd impact total_usd) (
            Error.computation
              (if is_long_token then "price impact for long" else "price impact for short"))
        (m₁, mint_amount, fees) ← execute_deposit m p is_long_token pool_value share
        sum ← ok_or (checked_add minted mint_amount) Error.overflow
        ok (m₁, sum, fees))

  -- `long_token_usd_value.checked_add(&short_token_usd_value)`, which only the blocks of the two
  -- tokens compute; one of them always runs, since a deposit is not empty.
  unfoldable pub execute : Market → DepositParams → Result (Market × DepositReport)
  execute m p = do
    validate_max_pnl m p.prices PnlFactorKind.max_after_deposit PnlFactorKind.max_after_deposit
    (impact, long_usd, short_usd) ← price_impact m p
    value ← pool_value m p.prices PnlFactorKind.max_after_deposit true
    err_if (is_negative value) (Error.invalid_pool_value "deposit: current pool value is negative")
    total_usd ← ok_or (checked_add long_usd short_usd) Error.overflow
    (m₁, minted_long, long_fees) ← deposit_one_side m p true (abs value) impact long_usd total_usd 0
    (m₂, minted, short_fees) ←
        deposit_one_side m₁ p false (abs value) impact short_usd total_usd minted_long
    m₃ ← mint minted m₂
    ok (
      m₃,
      record {
        params = p;
        minted = minted;
        price_impact = impact;
        long_token_fees = long_fees;
        short_token_fees = short_fees;
      },
    )

  -- `market.deposit(…)?.execute()`.
  unfoldable pub deposit : Market → ℕ → ℕ → Prices → Result (Market × DepositReport)
  deposit m long_token_amount short_token_amount prices =
      try_new long_token_amount short_token_amount prices >>= execute m
