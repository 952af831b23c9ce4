-- ===== src/Market/Clock/Reading.antt =====
-- Reading a clock of a market: programs/gmsol-store/src/states/market/clock.rs.
use gmx_solana.Prelude.{◌≡◌, false, arith, refl, Bool-cases, inl, inr}
use gmx_solana.Prelude.Int.{ℤ, is_positive}
use gmx_solana.Market.Clock.{saturating_sub, passed_in_seconds, just_passed_in_seconds}

self_sub : (a : ℤ) → is_positive (saturating_sub a a) ≡ false
unfolding saturating_sub
self_sub a = ground arith

-- Two readings at the same time count the seconds once: the second reading gives none, and leaves the
-- clock as it is. The first gives what a look at the clock tells.
pub clock_read_twice :
    (now last : ℤ)
    → ((just_passed_in_seconds now last).0 ≡ passed_in_seconds now last)
      × (just_passed_in_seconds now (just_passed_in_seconds now last).1
          ≡ (0, (just_passed_in_seconds now last).1))
unfolding just_passed_in_seconds passed_in_seconds
clock_read_twice now last = elim (Bool-cases (is_positive (saturating_sub now last))) [
  | inl h ↦ rw h (refl, rw (self_sub now) refl)
  | inr h ↦ rw h (refl, rw h refl)
]
