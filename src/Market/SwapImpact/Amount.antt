-- ===== src/Market/SwapImpact/Amount.antt =====
-- The token amount of a price impact: its sign, its cap, and its rounding.
use gmx_solana.Prelude.{ℕ, suc, ◌+◌, ◌*◌, ◌/◌, ◌≤◌, ◌<◌, ◌≡◌, Bool, true, false, arith, refl, ltb}
use gmx_solana.Prelude.Int.{ℤ, pos, negsuc, abs, pos_part, neg_part, ◌-ℤ◌, ltb_ℤ, is_positive}
use gmx_solana.Result.{
  ok, Ensures, bind, gives_bind, weaken_gives, branch, from_option, returns, raises, weaken,
}
use gmx_solana.Num.{FixedPointOps}
use gmx_solana.Num.Exact.{to_signed_ensures, signed_sub_gives, mul_gives}
use gmx_solana.Num.Round.{signed_div_gives, round_up_gives, div_bounds}
use gmx_solana.Price.{Price, has_zero, pick_price}
use gmx_solana.Pool.{Pool, amount}
use gmx_solana.Market.SwapImpact.{impact_amount_with_cap}
use native.Mathlib.Nat.{add-mul}

-- The price of a token is not zero at either end.
price_pos : (price : Price) (b : Bool) → has_zero price ≡ false → 0 < pick_price price b
unfolding has_zero pick_price
price_pos price b h = ground arith

-- The two ends of the positive branch: `q` is the uncapped amount, `c` what the pool holds.
module _ (u p c : ℕ) (q z : ℤ) (e : q ≡ pos (u / p)) (f : z ≡ pos c) (h : 0 < p) where
  capped :
      ltb_ℤ z q ≡ true
      → (v : ℕ) → v ≡ abs (q -ℤ z) * p
      → (neg_part z ≡ 0) × (pos_part z ≤ c) × (pos_part z * p + v ≤ u)
  capped lt v g =
      let whole : abs (q -ℤ z) + c ≡ u / p = ground arith in
      let below = (div_bounds u p h).0 in
      let parts : (abs (q -ℤ z) + c) * p ≡ abs (q -ℤ z) * p + c * p = add-mul _ c p in
      let same : (abs (q -ℤ z) + c) * p ≡ u / p * p = rw whole refl in
      rw f (refl, omega arith, omega arith)

  uncapped : ltb_ℤ z q ≡ false → (neg_part q ≡ 0) × (pos_part q ≤ c) × (pos_part q * p + 0 ≤ u)
  uncapped ge =
      let below = (div_bounds u p h).0 in
      let le : u / p ≤ c = ground arith in rw e (refl, le, omega arith)

module _ ⦃n : FixedPointOps⦄ where
  module _ (pool : Pool) (b : Bool) (price : Price) where
    -- A positive impact is paid from the swap impact pool: at most what it holds, and together with
    -- what is capped off at most the impact.
    pub positive_amount :
        (u : ℕ)
        → 0 < u
        → Ensures (impact_amount_with_cap pool b price (pos u)) (λ r.
          (neg_part r.0 ≡ 0)
          × (pos_part r.0 ≤ amount pool b)
          × (pos_part r.0 * pick_price price true + r.1 ≤ u))
    unfolding impact_amount_with_cap
    positive_amount u some_impact =
        branch (has_zero price) (λ _. raises)
          λ nz.
            branch (ltb 0 u)
              (λ _. bind _ (to_signed_ensures (pick_price price true)) λ mp h. rw h.0 (
                bind _ (from_option _ _ (signed_div_gives u _)) λ q k.
                  bind _ (to_signed_ensures (amount pool b)) λ c l.
                    branch (ltb_ℤ c q)
                      (λ lt.
                        bind _
                          (from_option _ _ (
                            gives_bind {Q = λ v. v ≡ abs (q -ℤ c) * pick_price price true} _
                              (signed_sub_gives q c)
                              λ d f. rw f (weaken_gives _ (λ v g. g.0) (mul_gives _ _))))
                          λ v g. returns (capped u _ _ q c (k.0) (l.0) (k.1) lt v g))
                      (λ ge. returns (uncapped u _ _ q c (k.0) (l.0) (k.1) ge))))
              (λ no. record { apply = λ r e. ground arith })

    -- A negative impact is taken from the user, rounded up.
    pub negative_amount :
        (u : ℕ)
        → Ensures (impact_amount_with_cap pool b price (negsuc u)) (λ r.
          (pos_part r.0 ≡ 0)
          × (suc u ≤ neg_part r.0 * pick_price price false)
          × (neg_part r.0 * pick_price price false < suc u + pick_price price false))
    unfolding impact_amount_with_cap
    negative_amount u =
        branch (has_zero price) (λ _. raises)
          λ nz. bind _ (to_signed_ensures (pick_price price false)) λ mp h. rw (h.0) (
            bind _ (from_option _ _ (round_up_gives u _ (price_pos price false nz)))
              λ a k. returns k)

    -- A positive impact gives an amount that is not negative.
    pub positive_sign :
        (z : ℤ)
        → is_positive z ≡ true
        → Ensures (impact_amount_with_cap pool b price z) (λ r. neg_part r.0 ≡ 0)
    positive_sign (pos u) h = weaken _ (λ r k. k.0) (positive_amount u (ground arith))
    positive_sign (negsuc u) h = absurd (ground arith)

    -- Any other impact gives an amount that is not positive.
    pub non_positive_sign :
        (z : ℤ)
        → is_positive z ≡ false
        → Ensures (impact_amount_with_cap pool b price z) (λ r. pos_part r.0 ≡ 0)
    unfolding impact_amount_with_cap
    non_positive_sign (pos u) h = branch (has_zero price) (λ _. raises) λ nz. rw h (returns refl)
    non_positive_sign (negsuc u) h = weaken _ (λ r k. k.0) (negative_amount u)

    -- A positive impact, turned into tokens: the amount is not negative, no more than the swap impact
    -- pool holds, and with the value that is capped off worth no more than the impact.
    pub positive_impact_amount :
        (u : ℕ)
        → 0 < u
        → {r : ℤ} {capped_value : ℕ}
        → impact_amount_with_cap pool b price (pos u) ≡ ok (r, capped_value)
        → (neg_part r ≡ 0)
          × (pos_part r ≤ amount pool b)
          × (pos_part r * pick_price price true + capped_value ≤ u)
    positive_impact_amount u h e = (positive_amount u h).apply _ e

    -- A negative impact of u + 1, turned into tokens: the amount is not positive, worth at least the
    -- impact at the lower price, and less than one token more.
    pub negative_impact_amount :
        (u : ℕ) {r : ℤ} {capped_value : ℕ}
        → impact_amount_with_cap pool b price (negsuc u) ≡ ok (r, capped_value)
        → (pos_part r ≡ 0)
          × (suc u ≤ neg_part r * pick_price price false)
          × (neg_part r * pick_price price false < suc u + pick_price price false)
    negative_impact_amount u e = (negative_amount u).apply _ e
