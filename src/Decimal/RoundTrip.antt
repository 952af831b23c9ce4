-- ===== src/Decimal/RoundTrip.antt =====
-- The unit price of a decimal, encoded again.
use gmx_solana.Prelude.{ℕ, ◌+◌, ◌-◌, ◌*◌, ◌/◌, ◌%◌, ◌^◌, ◌≤◌, ◌<◌, ◌≡◌, ap, ◌∙◌, arith}
use gmx_solana.Result.{ok}
use gmx_solana.Decimal.{Decimal, to_unit_price, try_from_price}
use gmx_solana.Decimal.Power.{product_twice, pow_pos}
use gmx_solana.Decimal.Encoding.{try_from_price_rounds, try_from_price_total}
use native.Mathlib.Nat.{mul-le-mul_left, pow-le-pow_right, mul-div_cancel, mod-eq_of_lt}

u32_scaled : (v i : ℕ) → v < 2 ^ 32 → i ≤ 20 → v * 10 ^ i < 2 ^ 128
u32_scaled v i h k = let le = mul-le-mul_left v (pow-le-pow_right (pow_pos 1) k) in omega arith

-- The unit price, scaled by further decimals.
unit_price_scaled :
    (r : Decimal) (i : ℕ) → to_unit_price r * 10 ^ i ≡ r.value * 10 ^ (r.decimal_multiplier + i)
unfolding to_unit_price
unit_price_scaled r i = product_twice r.value r.decimal_multiplier i

unit_price_recovered :
    (r : Decimal) (i j : ℕ)
    → r.decimal_multiplier + i ≡ j
    → to_unit_price r * 10 ^ i / 10 ^ j ≡ r.value
unit_price_recovered r i j h =
    ap (λ (x : ℕ). x / 10 ^ j) (unit_price_scaled r i)
    ∙ ap (λ (x : ℕ). r.value * 10 ^ x / 10 ^ j) h
    ∙ mul-div_cancel r.value (pow_pos j)

fields_eq :
    (a b : Decimal) → a.value ≡ b.value → a.decimal_multiplier ≡ b.decimal_multiplier → a ≡ b
fields_eq a b h k = ground arith

-- The unit price of a decimal whose value fits u32 and whose multiplier leaves room for the decimals of
-- the token, encoded with its 20 - t decimals and with the precision that gave the multiplier, is that
-- decimal: nothing overflows, is rounded or cut off.
pub unit_price_round_trip :
    (r : Decimal) (t : ℕ)
    → r.value < 2 ^ 32
    → t + r.decimal_multiplier ≤ 20
    → try_from_price (to_unit_price r) (20 - t) t (20 - t - r.decimal_multiplier) ≡ ok r
unit_price_round_trip r t small fits =
    let precision : ℕ = 20 - t - r.decimal_multiplier in
    let back = unit_price_recovered r precision (20 - t) (omega arith) in
    let bound = u32_scaled r.value (r.decimal_multiplier + (t - (20 - t))) small (omega arith) in
    let scaled = unit_price_scaled r (t - (20 - t)) in
    let (r', run) =
      try_from_price_total (to_unit_price r) (20 - t) t precision (omega arith) (omega arith)
        (omega arith) (omega arith) in
    let (_, _, multiplier, value) =
      try_from_price_rounds (to_unit_price r) (20 - t) t precision r' run in
    let same : r'.value ≡ r.value = value ∙ ap (λ (x : ℕ). x % 2 ^ 32) back ∙ mod-eq_of_lt small in
    run ∙ ap ok (fields_eq r' r same (omega arith))
