-- ===== src/Utils/Shares.antt =====
-- Market tokens as shares of the pool value: `usd_to_market_token_amount` and
-- `market_token_amount_to_usd` of crates/gmsol-model/src/utils.rs.
use gmx_solana.Prelude.{ℕ, ◌+◌, ◌*◌, ◌/◌, ◌≤◌, ◌<◌, ◌≡◌, some, arith}
use gmx_solana.Num.{FixedPointOps, checked_mul_div}
use gmx_solana.Num.Exact.{mul_div_gives}
use gmx_solana.Utils.{usd_to_market_token_amount, market_token_amount_to_usd}
use native.Mathlib.Nat.{div-mul-le_self, mul_comm, mul-add, add-mul, le_of_mul-le-mul_right}

-- A quotient times its divisor, in the order of the program.
div_below : (a b d q : ℕ) → q ≡ a * b / d → q * d ≤ a * b
div_below a b d q h = rw h (div-mul-le_self (a * b) d)

module _ ⦃n : FixedPointOps⦄ (usd pool_value supply divisor : ℕ) (some_supply : 0 < supply) where
  -- Where the supply is not zero, the amount is the share of the supply, rounded down.
  minted_below :
      {minted : ℕ}
      → usd_to_market_token_amount usd pool_value supply divisor ≡ some minted
      → minted * pool_value ≤ supply * usd
  unfolding usd_to_market_token_amount
  minted_below {minted} h =
      let e : checked_mul_div supply usd pool_value ≡ some minted = ground arith in
      div_below supply usd pool_value minted ((mul_div_gives supply usd pool_value).apply _ e).0

  -- Where the supply of market tokens is not zero, minting for a deposit never lowers the value of a
  -- market token: the pool value per market token, with the deposit added and its tokens minted, is at
  -- least what it was.
  pub mint_keeps_price :
      {minted : ℕ}
      → usd_to_market_token_amount usd pool_value supply divisor ≡ some minted
      → pool_value * (supply + minted) ≤ (pool_value + usd) * supply
  mint_keeps_price {minted} h =
      let below = minted_below h in
      let left = mul-add pool_value supply minted in
      let right = add-mul pool_value usd supply in
      let c = mul_comm pool_value minted in let d = mul_comm supply usd in omega arith

  -- Where the supply of market tokens was not zero before a deposit, the market tokens that are minted
  -- for it are worth at most what was deposited, if they are redeemed at once from a pool that is worth
  -- the deposit more.
  pub mint-redeem_le :
      {minted out : ℕ}
      → usd_to_market_token_amount usd pool_value supply divisor ≡ some minted
      → market_token_amount_to_usd minted (pool_value + usd) (supply + minted) ≡ some out
      → out ≤ usd
  unfolding market_token_amount_to_usd
  mint-redeem_le {minted} {out} h k =
      let below = minted_below h in
      let q = (mul_div_gives (pool_value + usd) minted (supply + minted)).apply _ k in
      let redeemed = div_below (pool_value + usd) minted (supply + minted) out q.0 in
      let left = add-mul pool_value usd minted in
      let right = mul-add usd supply minted in
      let c = mul_comm pool_value minted in
      let d = mul_comm supply usd in
      le_of_mul-le-mul_right {k = supply + minted} (omega arith) (omega arith)
