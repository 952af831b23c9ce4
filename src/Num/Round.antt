-- ===== src/Num/Round.antt =====
-- Division: how the roundings of the program relate to the exact quotient.
use gmx_solana.Prelude.{ℕ, suc, ◌+◌, ◌-◌, ◌*◌, ◌/◌, ◌≤◌, ◌<◌, ◌≡◌, arith}
use gmx_solana.Prelude.Int.{ℤ, pos, negsuc, pos_part, neg_part, neg_ℕ, ◌+ℤ◌, ◌-ℤ◌}
use gmx_solana.Prelude.Maybe.{◌>>=◌}
use gmx_solana.Result.{Gives, gives_bind, weaken_gives}
use gmx_solana.Num.Ops.{FixedPointOps}
use gmx_solana.Num.Signed.{narrow_signed, signed_add, signed_sub, signed_div}
use gmx_solana.Num.Exact.{signed_add_gives, signed_sub_gives}
use native.Mathlib.Nat.{div-mul-le_self, lt-div-mul-add}

-- A quotient from below and above.
pub div_bounds : (a b : ℕ) → 0 < b → (a / b * b ≤ a) × (a < a / b * b + b)
div_bounds a b h = (div-mul-le_self a b, lt-div-mul-add h)

-- Rounding up: the least multiple that is not below.
pub div_up_bounds : (u b : ℕ) → 0 < b → (suc u ≤ (u + b) / b * b) × ((u + b) / b * b < suc u + b)
div_up_bounds u b h = let below = div_bounds (u + b) b h in (omega arith, omega arith)

pub neg_ℕ_parts : (q : ℕ) → (pos_part (neg_ℕ q) ≡ 0) × (neg_part (neg_ℕ q) ≡ q)
neg_ℕ_parts q = ground arith

neg_up_bounds :
    (u p : ℕ)
    → 0 < p
    → (c : ℤ) → c ≡ neg_ℕ (suc (u + p - 1) / p)
    → (pos_part c ≡ 0) × (suc u ≤ neg_part c * p) × (neg_part c * p < suc u + p)
neg_up_bounds u p h c k =
    let sum : suc (u + p - 1) ≡ u + p = omega arith in
    let up = div_up_bounds u p h in
    let parts = neg_ℕ_parts ((u + p) / p) in rw k (rw sum (rw (parts.1) (parts.0, up.0, up.1)))

steps_exact :
    (u p : ℕ) → 0 < p → (a b : ℤ) → a ≡ negsuc u -ℤ pos p → b ≡ a +ℤ pos 1 → b ≡ negsuc (u + p - 1)
steps_exact u p h a b q r = ground arith

module _ ⦃n : FixedPointOps⦄ where
  pub signed_div_gives :
      (a p : ℕ) → Gives (signed_div (pos a) (pos p)) (λ c. (c ≡ pos (a / p)) × (0 < p))
  unfolding signed_div narrow_signed
  signed_div_gives a p = record { apply = λ c e. ground arith }

  pub signed_div_neg_gives :
      (a p : ℕ) → Gives (signed_div (negsuc a) (pos p)) (λ c. (c ≡ neg_ℕ (suc a / p)) × (0 < p))
  unfolding signed_div narrow_signed
  signed_div_neg_gives a p = record { apply = λ c e. ground arith }

  -- The division of a negative value away from zero, as the program writes it.
  pub round_up_gives :
      (u p : ℕ)
      → 0 < p
      → Gives
          (signed_sub (negsuc u) (pos p) >>= λ a.
            signed_add a (pos 1) >>= λ b. signed_div b (pos p))
          (λ c. (pos_part c ≡ 0) × (suc u ≤ neg_part c * p) × (neg_part c * p < suc u + p))
  round_up_gives u p h = gives_bind _ (signed_sub_gives (negsuc u) (pos p)) λ a q.
      gives_bind _ (signed_add_gives a (pos 1)) λ b r.
        rw (steps_exact u p h a b q r)
          (weaken_gives _ (λ c k. neg_up_bounds u p h c k.0) (signed_div_neg_gives (u + p - 1) p))
