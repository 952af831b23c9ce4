-- ===== src/Market/Clock.antt =====
-- programs/gmsol-store/src/states/market/clock.rs: clocks that hold the time of their last use. The
-- current time, from the clock of the Solana runtime, is an argument.
pub mod Reading
use gmx_solana.Prelude.{ℕ, ◌^◌, ◌-◌, Bool, leb, ltb, if◌then◌else◌}
use gmx_solana.Prelude.Int.{ℤ, pos, negsuc, ◌-ℤ◌, ltb_ℤ, is_positive, abs}

-- `saturating_sub` of i64.
unfoldable pub saturating_sub : ℤ → ℤ → ℤ
saturating_sub a b =
    if ltb_ℤ (pos (2 ^ 63 - 1)) (a -ℤ b)
    then pos (2 ^ 63 - 1)
    else if ltb_ℤ (a -ℤ b) (negsuc (2 ^ 63 - 1))
    then negsuc (2 ^ 63 - 1)
    else a -ℤ b

unfoldable pub passed_in_seconds : ℤ → ℤ → ℕ
passed_in_seconds current last =
    if is_positive (saturating_sub current last) then abs (saturating_sub current last) else 0

-- The seconds, and the new value of the clock.
unfoldable pub just_passed_in_seconds : ℤ → ℤ → ℕ × ℤ
just_passed_in_seconds current last =
    if is_positive (saturating_sub current last)
    then (abs (saturating_sub current last), current)
    else (0, last)
