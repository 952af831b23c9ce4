-- ===== src/Pool.antt =====
-- programs/gmsol-store/src/states/market/pool.rs, the pools of a market, with the trait `Pool` of
-- crates/gmsol-model/src/pool/mod.rs, and `Balance` and `Merged` of pool/balance.rs.
use gmx_solana.Prelude.{ℕ, ◌+◌, ◌/◌, ◌≡◌, Bool, true, not, Option, none, some, ◌==◌, if◌then◌else◌}
use gmx_solana.Prelude.Int.{ℤ}
use gmx_solana.Result.{Result, ok, Error, ok_or, ◌>>=◌}
use gmx_solana.Num.{FixedPointOps, checked_add, checked_mul, checked_add_signed, div_ceil}
pub mod Split
pub mod Apply

-- A trait object of `Balance`: the two amounts, either of which may fail.
pub record Balance : Type 0 where
  pub long_amount : Result ℕ
  pub short_amount : Result ℕ

-- `Delta` of crates/gmsol-model/src/pool/delta.rs: an optional change of either side.
pub record SideDelta : Type 0 where
  pub long : Option ℤ
  pub short : Option ℤ

unfoldable pub new_one_side : Bool → ℤ → SideDelta
new_one_side is_long amount =
    if is_long
    then record { long = some amount; short = none }
    else record { long = none; short = some amount }

unfoldable pub new_both_sides : Bool → ℤ → ℤ → SideDelta
new_both_sides is_long_first first second =
    if is_long_first
    then record { long = some first; short = some second }
    else record { long = some second; short = some first }

-- For a pure pool, whose flag is not zero, only `long_token_amount` is used.
pub record Pool : Type 0 where
  pub is_pure : ℕ
  pub long_token_amount : ℕ
  pub short_token_amount : ℕ

unfoldable pub is_pure_pool : Pool → Bool
is_pure_pool p = not (p.is_pure == 0)

unfoldable pub set_is_pure : Bool → Pool → Pool
set_is_pure is_pure p = record p { is_pure = if is_pure then 1 else 0 }

unfoldable pub long_amount : Pool → ℕ
unfolding is_pure_pool
long_amount p = if is_pure_pool p then div_ceil p.long_token_amount 2 else p.long_token_amount

unfoldable pub short_amount : Pool → ℕ
unfolding is_pure_pool
short_amount p = if is_pure_pool p then p.long_token_amount / 2 else p.short_token_amount

-- `BalanceExt::amount`.
unfoldable pub amount : Pool → Bool → ℕ
amount p is_long = if is_long then long_amount p else short_amount p

abbrev pub balance : Pool → Balance
balance p = record { long_amount = ok (long_amount p); short_amount = ok (short_amount p) }

module _ ⦃n : FixedPointOps⦄ where
  unfoldable pub apply_delta_to_long_amount : Pool → ℤ → Result Pool
  apply_delta_to_long_amount p delta = do
    a ←
        ok_or (checked_add_signed p.long_token_amount delta)
          (Error.computation "apply delta to long amount")
    ok (record p { long_token_amount = a })

  unfoldable pub apply_delta_to_short_amount : Pool → ℤ → Result Pool
  unfolding is_pure_pool
  apply_delta_to_short_amount p delta =
      if is_pure_pool p
      then (do
        a ←
            ok_or (checked_add_signed p.long_token_amount delta)
              (Error.computation "apply delta to short amount")
        ok (record p { long_token_amount = a }))
      else (do
        a ←
            ok_or (checked_add_signed p.short_token_amount delta)
              (Error.computation "apply delta to short amount")
        ok (record p { short_token_amount = a }))

  -- `PoolExt::apply_delta_amount`.
  unfoldable pub apply_delta_amount : Bool → Pool → ℤ → Result Pool
  apply_delta_amount is_long p delta =
      if is_long then apply_delta_to_long_amount p delta else apply_delta_to_short_amount p delta

  -- `if let Some(amount) = … { … }` over one side.
  abbrev pub apply_if_some : (Pool → ℤ → Result Pool) → Pool → Option ℤ → Result Pool
  apply_if_some f p none = ok p
  apply_if_some f p (some z) = f p z

  unfoldable pub checked_apply_delta : Pool → SideDelta → Result Pool
  checked_apply_delta p delta = do
    q ← apply_if_some apply_delta_to_long_amount p delta.long
    apply_if_some apply_delta_to_short_amount q delta.short

  unfoldable pub long_usd_value : Balance → ℕ → Result ℕ
  long_usd_value b price = b.long_amount >>= λ a. ok_or (checked_mul a price) Error.overflow

  unfoldable pub short_usd_value : Balance → ℕ → Result ℕ
  short_usd_value b price = b.short_amount >>= λ a. ok_or (checked_mul a price) Error.overflow

  abbrev total_amount : Balance → Result ℕ
  total_amount b = do
    long ← b.long_amount
    short ← b.short_amount
    ok_or (checked_add long short) Error.overflow

  -- `Merged`: the totals of two balances as its long and its short amount.
  unfoldable pub merge : Balance → Balance → Balance
  merge a b = record { long_amount = total_amount a; short_amount = total_amount b }

-- `BalanceExt::amount` of any balance.
unfoldable pub balance_amount : Balance → Bool → Result ℕ
balance_amount b is_long = if is_long then b.long_amount else b.short_amount
