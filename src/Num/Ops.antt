-- ===== src/Num/Ops.antt =====
-- The number type as an interface, and the checked operations of Rust's unsigned integers.
use gmx_solana.Prelude.{
  ℕ, ◌+◌, ◌-◌, ◌*◌, ◌/◌, ◌<◌, Bool, Option, none, some, ltb, leb, ◌==◌, if◌then◌else◌,
}

-- `FixedPointOps<DECIMALS>`: `unit` is 10 ^ DECIMALS, and `pow_fraction` what `checked_pow_fixed` does
-- with an exponent that is no whole number of units.
pub record FixedPointOps : Type 0 where
  pub half : ℕ
  pub unit : ℕ
  pub pow_fraction : ℕ → ℕ → Option ℕ

-- What holds of u64 with 9 and of u128 with 20 decimals.
pub record IsFixedPoint (n : FixedPointOps) : Type 0 where
  pub unit_pos : 0 < n.unit
  pub unit_fits : n.unit < n.half

module _ ⦃n : FixedPointOps⦄ where
  open n use {half}

  abbrev pub fits : ℕ → Bool
  fits a = ltb a (half + half)

  -- `try_into` from a wider unsigned type.
  unfoldable pub narrow : ℕ → Option ℕ
  narrow a = if fits a then some a else none

  unfoldable pub checked_add : ℕ → ℕ → Option ℕ
  checked_add a b = if fits (a + b) then some (a + b) else none

  unfoldable pub checked_mul : ℕ → ℕ → Option ℕ
  checked_mul a b = if fits (a * b) then some (a * b) else none

unfoldable pub checked_sub : ℕ → ℕ → Option ℕ
checked_sub a b = if leb b a then some (a - b) else none

unfoldable pub checked_div : ℕ → ℕ → Option ℕ
checked_div a b = if b == 0 then none else some (a / b)

-- `abs_diff`, the `diff` of the trait `Unsigned`.
unfoldable pub diff : ℕ → ℕ → ℕ
diff a b = if leb b a then a - b else b - a
