-- ===== src/Market/Borrowing/Kink.antt =====
-- The shape of the kink model of the borrowing factor: crates/gmsol-model/src/params/fee.rs.
use gmx_solana.Prelude.{
  ℕ, zero, suc, ◌+◌, ◌-◌, ◌*◌, ◌/◌, ◌≤◌, ◌<◌, ◌≡◌, ◌∙◌, refl, false, ◌⊎◌, inl, inr, Bool, true,
  ◌&&◌, ltb, arith, if◌then◌else◌,
}
use gmx_solana.Result.{
  ok, Ensures, bind, branch, from_option, returns, ok_or, gives_bind, weaken_gives, Error,
}
use gmx_solana.Num.{FixedPointOps, checked_sub}
use gmx_solana.Num.Exact.{sub_gives, mul_div_gives, add_gives}
use gmx_solana.Utils.{apply_factor}
use gmx_solana.Market.State.{BorrowingFeeKinkModelParamsForOneSide}
use gmx_solana.Market.Borrowing.{kink_factor}
use native.Mathlib.Nat.{
  div-mul-le_self, div-zero, le-div_iff_mul-le, mul-div_cancel, mul-div_cancel_left,
  mul-le-mul_left, mul-le-mul_right, le_trans,
}

no_more : (a b : ℕ) → ltb a b ≡ false → 0 ≡ b - a
no_more a b h = let k : b ≤ a = ground arith in omega arith

greater : (a b : ℕ) → a + (b - a) ≡ (if ltb a b then b else a)
greater a b = ground arith

div_mono : (a b d : ℕ) → a ≤ b → a / d ≤ b / d
div_mono a b zero h = rw (div-zero a) (omega arith)
div_mono a b (suc d) h =
    (le-div_iff_mul-le {k = suc d} (omega arith)).1 (le_trans (div-mul-le_self a (suc d)) h)

module _ ⦃n : FixedPointOps⦄ (p : BorrowingFeeKinkModelParamsForOneSide) where
  open n use {unit}

  -- The share of the usage by the base factor.
  abbrev line : ℕ → ℕ
  line usage = usage * p.base_borrowing_factor / unit

  -- The part that the excess over the optimal usage adds.
  abbrev steep : ℕ → ℕ
  steep usage =
      (p.above_optimal_usage_borrowing_factor - p.base_borrowing_factor)
      * (usage - p.optimal_usage_factor)
      / (unit - p.optimal_usage_factor)

  abbrev surcharge : ℕ → ℕ
  surcharge usage =
      if ltb p.optimal_usage_factor usage && ltb p.optimal_usage_factor unit then steep usage else 0

  additional_exact :
      (e : Error)
      → Ensures
          (if ltb p.base_borrowing_factor p.above_optimal_usage_borrowing_factor
            then ok_or
                (checked_sub p.above_optimal_usage_borrowing_factor p.base_borrowing_factor)
                e
            else ok 0)
          (λ c. c ≡ p.above_optimal_usage_borrowing_factor - p.base_borrowing_factor)
  additional_exact e =
      branch (ltb p.base_borrowing_factor p.above_optimal_usage_borrowing_factor)
        (λ _. from_option _ _ (
          weaken_gives _ (λ c h. omega arith)
            (sub_gives p.above_optimal_usage_borrowing_factor p.base_borrowing_factor)))
        λ h. returns (no_more p.base_borrowing_factor p.above_optimal_usage_borrowing_factor h)

  kink_factor-Ensures :
      (usage : ℕ)
      → Ensures (kink_factor p usage) (λ f. (f ≡ line usage + surcharge usage) × (0 < unit))
  unfolding kink_factor apply_factor
  kink_factor-Ensures usage =
      bind _ (from_option _ _ (mul_div_gives usage p.base_borrowing_factor unit)) λ base h.
        branch (ltb p.optimal_usage_factor usage && ltb p.optimal_usage_factor unit)
          (λ above. bind _ (from_option _ _ (sub_gives usage p.optimal_usage_factor)) λ diff up.
            bind _ (additional_exact _) λ additional more.
              bind _ (from_option _ _ (sub_gives unit p.optimal_usage_factor)) λ divisor rest.
                from_option _ _ (
                  gives_bind _ (mul_div_gives additional diff divisor) λ a k.
                    weaken_gives _
                      (λ f g. (
                        let d : diff ≡ usage - p.optimal_usage_factor = omega arith in
                            let e : divisor ≡ unit - p.optimal_usage_factor = omega arith in
                            rw above
                              (rw (← more) (rw (← d) (rw (← e) (omega (arith, g.0, h.0, k.0))))),
                        h.1,
                      ))
                      (add_gives base a)))
          λ below. returns (rw below (omega (arith, h.0)), h.1)

  surcharge_mono : (u v : ℕ) → u ≤ v → surcharge u ≤ surcharge v
  surcharge_mono u v h =
      let x = p.above_optimal_usage_borrowing_factor - p.base_borrowing_factor in
      let o = p.optimal_usage_factor in
      let steeper =
        div_mono (x * (u - o)) (x * (v - o)) (unit - o) (mul-le-mul_left x (omega arith)) in
      ground arith

  line_mono : (u v : ℕ) → u ≤ v → line u ≤ line v
  line_mono u v h = div_mono _ _ unit (mul-le-mul_right p.base_borrowing_factor h)

  full_value :
      0 < unit
      → p.optimal_usage_factor < unit
      → line unit + surcharge unit ≡ (
          if ltb p.base_borrowing_factor p.above_optimal_usage_borrowing_factor
          then p.above_optimal_usage_borrowing_factor
          else p.base_borrowing_factor)
  full_value some_unit below =
      let x = p.above_optimal_usage_borrowing_factor - p.base_borrowing_factor in
      let flat : line unit ≡ p.base_borrowing_factor =
        mul-div_cancel_left p.base_borrowing_factor some_unit in
      let all : steep unit ≡ x = mul-div_cancel x (omega arith) in
      let on : (ltb p.optimal_usage_factor unit && ltb p.optimal_usage_factor unit) ≡ true =
        ground arith in
      rw on
        (rw flat (rw all (greater p.base_borrowing_factor p.above_optimal_usage_borrowing_factor)))

  no_surcharge :
      (usage : ℕ) (c : Bool)
      → ltb p.optimal_usage_factor usage ≡ c
      → (p.optimal_usage_factor < usage) ⊎ (surcharge usage ≡ 0)
  no_surcharge usage true e = inl (ground arith)
  no_surcharge usage false e = inr (rw e refl)

  or_line :
      (usage f : ℕ)
      → f ≡ line usage + surcharge usage
      → (p.optimal_usage_factor < usage) ⊎ (surcharge usage ≡ 0)
      → (p.optimal_usage_factor < usage) ⊎ (f ≡ line usage)
  or_line usage f e (inl h) = inl h
  or_line usage f e (inr h) = inr (omega (arith, e, h))

  -- The kink model with an optimal usage below full usage: the borrowing factor never falls as the usage
  -- grows; up to the optimal usage it is the share of the usage by the base factor, rounded down; and at
  -- full usage it is the factor for above the optimal usage, or the base factor if that is not less.
  pub kink_factor_shape :
      (u v : ℕ) {f g full : ℕ}
      → p.optimal_usage_factor < unit
      → u ≤ v
      → kink_factor p u ≡ ok f
      → kink_factor p v ≡ ok g
      → kink_factor p unit ≡ ok full
      → (f ≤ g)
        × ((p.optimal_usage_factor < u) ⊎ (f ≡ u * p.base_borrowing_factor / unit))
        × (full ≡ (
            if ltb p.base_borrowing_factor p.above_optimal_usage_borrowing_factor
            then p.above_optimal_usage_borrowing_factor
            else p.base_borrowing_factor))
  kink_factor_shape u v {f} {g} {full} below le at_u at_v at_full =
      let a = (kink_factor-Ensures u).apply f at_u in
      let b = (kink_factor-Ensures v).apply g at_v in
      let c = (kink_factor-Ensures unit).apply full at_full in
      (
        omega (arith, a.0, b.0, line_mono u v le, surcharge_mono u v le),
        or_line u f a.0 (no_surcharge u _ refl),
        c.0 ∙ full_value c.1 below,
      )
