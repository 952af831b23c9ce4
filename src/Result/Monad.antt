-- ===== src/Result/Monad.antt =====
-- Errors, results, and the bind that stands for `?`.
use gmx_solana.Prelude.{Bool, Option, none, some, String, if◌then◌else◌}

-- crates/gmsol-model/src/pool/mod.rs and market/base.rs: the enums that errors mention.
pub data PnlFactorKind : Type 0 where
  max_after_deposit max_after_withdrawal max_for_trader for_adl min_after_adl : PnlFactorKind

-- crates/gmsol-model/src/position.rs.
pub data LiquidatableReason : Type 0 where
  min_collateral not_positive min_collateral_for_leverage : LiquidatableReason

-- crates/gmsol-model/src/error.rs. Messages that print two numbers are left out. `token_amount_overflow`
-- is an error of the store program, which the variant `Solana` carries.
pub data Error : Type 0 where
  invalid_argument panic : String → Error
  empty_deposit empty_withdrawal empty_swap invalid_prices : Error
  computation : String → Error
  pow_computation overflow divided_by_zero convert : Error
  invalid_pool_value : String → Error
  unable_to_get_borrowing_factor_empty_pool_value : Error
  insufficient_reserve insufficient_reserve_for_open_interest : Error
  unable_to_get_funding_factor_empty_open_interest : Error
  pnl_factor_exceeded : PnlFactorKind → String → Error
  max_pool_amount_exceeded : String → Error
  max_open_interest_exceeded : Error
  invalid_position : String → Error
  liquidatable : LiquidatableReason → Error
  max_pool_value_exceeded invalid_token_balance : String → Error
  token_amount_overflow already_exist exceed_max_length_limit exceed_max_decimals : Error

pub data Result {ℓ} (A : Type ℓ) : Type ℓ where
  ok : A → Result A
  err : Error → Result A

infixl 5 ◌>>=◌ ◌>>◌
abbrev pub ◌>>=◌ {ℓ κ} : {A : Type ℓ} {B : Type κ} → Result A → (A → Result B) → Result B
ok a >>= f = f a
err e >>= f = err e

abbrev pub ◌>>◌ {ℓ κ} : {A : Type ℓ} {B : Type κ} → Result A → Result B → Result B
m >> k = m >>= λ _. k

-- `Option::ok_or`.
abbrev pub ok_or {ℓ} : {A : Type ℓ} → Option A → Error → Result A
ok_or none e = err e
ok_or (some a) e = ok a

-- `if failed { return Err(e) }`.
abbrev pub err_if : Bool → Error → Result (Unit {0})
err_if failed e = if failed then err e else ok tt
