-- ===== src/Decimal.antt =====
-- crates/gmsol-utils/src/price/decimal.rs: prices as a u32 with a power of ten.
mod Power
pub mod Encoding
pub mod RoundTrip
use gmx_solana.Prelude.{
  ℕ, ◌+◌, ◌-◌, ◌*◌, ◌/◌, ◌%◌, ◌^◌, Bool, Option, none, some, ltb, leb, ◌==◌, ◌||◌, if◌then◌else◌,
}
use gmx_solana.Result.{Result, ok, err, ◌>>=◌, ◌>>◌, ok_or, err_if, overflow, exceed_max_decimals}

pub record Decimal : Type 0 where
  pub value : ℕ
  pub decimal_multiplier : ℕ

abbrev pub max_decimals : ℕ
max_decimals = 20

-- `checked_mul` of u128.
unfoldable pub mul_u128 : ℕ → ℕ → Option ℕ
mul_u128 a b = if ltb (a * b) (2 ^ 128) then some (a * b) else none

unfoldable pub to_unit_price : Decimal → ℕ
to_unit_price d = d.value * 10 ^ d.decimal_multiplier

unfoldable pub decimal_multiplier_from_precision : ℕ → ℕ → ℕ
decimal_multiplier_from_precision decimals precision = max_decimals - decimals - precision

unfoldable pub is_out_of_range : ℕ → ℕ → ℕ → Bool
is_out_of_range decimals token_decimals precision =
    ltb max_decimals token_decimals || ltb max_decimals precision || ltb max_decimals decimals

-- The price with at least `token_decimals` decimals, and the power of ten by which it has more.
unfoldable pub with_token_decimals : ℕ → ℕ → ℕ → Result (ℕ × Option ℕ)
unfolding mul_u128
with_token_decimals price decimals token_decimals =
    if decimals == token_decimals
    then ok (price, none)
    else if ltb decimals token_decimals
    then (do p ← ok_or (mul_u128 price (10 ^ (token_decimals - decimals))) overflow; ok (p, none))
    else ok (price, some (decimals - token_decimals))

-- The value where the multiplier leaves `exp` decimals to add.
unfoldable pub scale_up : ℕ → Option ℕ → ℕ → Result ℕ
unfolding mul_u128
scale_up price none exp = ok_or (mul_u128 price (10 ^ exp)) overflow
scale_up price (some divisor_exp) exp =
    if leb divisor_exp exp
    then ok_or (mul_u128 price (10 ^ (exp - divisor_exp))) overflow
    else ok (price / 10 ^ (divisor_exp - exp))

-- The value where it takes `exp` decimals away.
unfoldable pub scale_down : ℕ → Option ℕ → ℕ → ℕ
scale_down price none exp = price / 10 ^ exp
scale_down price (some divisor_exp) exp = price / 10 ^ exp / 10 ^ divisor_exp

unfoldable pub scale : ℕ → Option ℕ → ℕ → Result ℕ
unfolding scale_up scale_down
scale price divisor_exp multiplier =
    if leb multiplier max_decimals
    then scale_up price divisor_exp (max_decimals - multiplier)
    else ok (scale_down price divisor_exp (multiplier - max_decimals))

-- `value as u32` keeps the low 32 bits.
unfoldable pub try_from_price : ℕ → ℕ → ℕ → ℕ → Result Decimal
unfolding is_out_of_range with_token_decimals scale decimal_multiplier_from_precision
try_from_price price decimals token_decimals precision = do
  err_if (is_out_of_range decimals token_decimals precision) exceed_max_decimals
  err_if (ltb max_decimals (token_decimals + precision)) exceed_max_decimals
  p ← with_token_decimals price decimals token_decimals
  let multiplier = decimal_multiplier_from_precision token_decimals precision
  value ← scale p.0 p.1 (token_decimals * 2 + multiplier)
  ok (record { value = value % 2 ^ 32; decimal_multiplier = multiplier })

unfoldable pub maximum : Decimal → Decimal
maximum d = record d { value = 2 ^ 32 - 1 }
