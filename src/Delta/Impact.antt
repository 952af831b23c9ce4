-- ===== src/Delta/Impact.antt =====
-- The price impact of a change and of the change back: crates/gmsol-model/src/pool/delta.rs.
use gmx_solana.Prelude.{
  ℕ, ◌+◌, ◌*◌, ◌/◌, ◌≤◌, ◌<◌, ◌≡◌, Bool, true, false, Bool-cases, inl, inr, ltb, leb, some, String,
  if◌then◌else◌, arith, refl,
}
use gmx_solana.Prelude.Int.{ℤ, pos, neg, pos_part, neg_part, ◌+ℤ◌, ◌≤ℤ◌}
use gmx_solana.Result.{ok, Ensures, bind, from_option, returns, weaken, weaken_gives}
use gmx_solana.Num.{FixedPointOps, diff}
use gmx_solana.Num.Exact.{try_signed_gives, neg_gives, mul_div_gives}
use gmx_solana.Fixed.{fixed_mul}
use gmx_solana.Utils.{apply_factors, apply_exponent_factor}
use gmx_solana.Delta.{
  PriceImpactParams, adjusted_factors, PoolDelta, diff_value, is_same_side_rebalance, signed_impact,
  price_impact, price_impact_for_same_side_rebalance, price_impact_for_cross_over_rebalance,
}
use mathlib.Core.Path.{subst}
use mathlib.Core.Bool.{xor}
use native.Mathlib.Nat.{mul-le-mul_left}
use gmx_solana.Delta.Gap.{div_mono, gap_le, diff_comm}

-- The change back.
abbrev pub reverse : PoolDelta → PoolDelta
reverse d = record {
  current = d.next;
  next = d.current;
  delta = record {
    long_token_usd_value = neg (d.delta).long_token_usd_value;
    short_token_usd_value = neg (d.delta).short_token_usd_value;
  };
}

pub adjusted_le : (p : PriceImpactParams) → (adjusted_factors p).0 ≤ (adjusted_factors p).1
unfolding adjusted_factors
adjusted_le p = ground arith

xor_comm : (a b : Bool) → xor a b ≡ xor b a
unfolding xor
xor_comm true true = refl
xor_comm true false = refl
xor_comm false true = refl
xor_comm false false = refl

ltb_asym : (a b : ℕ) → ltb a b ≡ true → ltb b a ≡ false
ltb_asym a b h = ground arith

opposed : (k l : ℕ) (x y : ℤ) → x ≡ pos k → y ≡ neg (pos l) → k ≤ l + 1 → x +ℤ y ≤ℤ pos 1
opposed k l x y e f h = ground arith

opposed' : (k l : ℕ) (x y : ℤ) → x ≡ neg (pos k) → y ≡ pos l → l ≤ k + 1 → x +ℤ y ≤ℤ pos 1
opposed' k l x y e f h = ground arith

losses : (k l : ℕ) (x y : ℤ) → x ≡ neg (pos k) → y ≡ neg (pos l) → x +ℤ y ≤ℤ pos 1
losses k l x y e f = ground arith

module _ ⦃n : FixedPointOps⦄ where
  open n use {unit}

  -- `c` is the power of `v`, which is `power`, times the factor, rounded down.
  record Applied (v e f c : ℕ) : Type 0 where
    power : ℕ
    power_eq : apply_exponent_factor v e ≡ some power
    unit_pos : 0 < unit
    value : c ≡ power * f / unit

  apply_factors-Applied : (v f e : ℕ) → Ensures (apply_factors v f e) (Applied v e f)
  unfolding apply_factors fixed_mul
  apply_factors-Applied v f e =
      bind _ (from_option (apply_exponent_factor v e) _ (record { apply = λ a h. h })) λ power h.
        from_option _ _ (
          weaken_gives _
            (λ c k. record { power = power; power_eq = h; unit_pos = k.1; value = k.0 })
            (mul_div_gives power f unit))

  -- The two impacts, with the sign of the impact and the magnitude of their distance.
  record Signed (positive : Bool) (a b : ℕ) (z : ℤ) : Type 0 where
    gain : positive ≡ true → z ≡ pos (diff a b)
    loss : positive ≡ false → z ≡ neg (pos (diff a b))

  signed_impact-Signed :
      (positive : Bool) (a b : ℕ) (s : String)
      → Ensures (signed_impact positive a b s) (Signed positive a b)
  signed_impact-Signed true a b s =
      bind _ (from_option _ _ (try_signed_gives (diff a b)))
        λ z h. returns (record { gain = λ _. h.0; loss = λ c. cc })
  signed_impact-Signed false a b s = bind _ (from_option _ _ (try_signed_gives (diff a b))) λ z h.
      from_option _ _ (
        weaken_gives _ (λ w k. record { gain = λ c. cc; loss = λ _. subst (λ x. w ≡ neg x) h.0 k })
          (neg_gives z))

  module _ (params : PriceImpactParams) where
    chosen : Bool → ℕ
    chosen c = if c then (adjusted_factors params).0 else (adjusted_factors params).1

    module _ {c : Bool} {v a : ℕ} where
      with_gain :
          c ≡ true
          → Applied v params.exponent (chosen c) a
          → Applied v params.exponent (adjusted_factors params).0 a
      unfolding chosen
      with_gain e h = subst (λ c. Applied v params.exponent (chosen c) a) e h

      with_loss :
          c ≡ false
          → Applied v params.exponent (chosen c) a
          → Applied v params.exponent (adjusted_factors params).1 a
      unfolding chosen
      with_loss e h = subst (λ c. Applied v params.exponent (chosen c) a) e h

    record SameSide (initial next : ℕ) (z : ℤ) : Type 0 where
      a : ℕ
      b : ℕ
      at_initial : Applied initial params.exponent (chosen (ltb next initial)) a
      at_next : Applied next params.exponent (chosen (ltb next initial)) b
      impact : Signed (ltb next initial) a b z

    record CrossOver (initial next : ℕ) (z : ℤ) : Type 0 where
      a : ℕ
      b : ℕ
      at_initial : Applied initial params.exponent (adjusted_factors params).0 a
      at_next : Applied next params.exponent (adjusted_factors params).1 b
      impact : Signed (ltb b a) a b z

    same_side :
        (d : PoolDelta)
        → Ensures
            (price_impact_for_same_side_rebalance d params)
            (SameSide (diff_value d.current) (diff_value d.next))
    unfolding price_impact_for_same_side_rebalance chosen
    same_side d = bind _ (apply_factors-Applied _ _ _) λ a h.
        bind _ (apply_factors-Applied _ _ _) λ b k.
          weaken _ (λ z s. record { a = a; b = b; at_initial = h; at_next = k; impact = s })
            (signed_impact-Signed _ a b _)

    cross_over :
        (d : PoolDelta)
        → Ensures
            (price_impact_for_cross_over_rebalance d params)
            (CrossOver (diff_value d.current) (diff_value d.next))
    unfolding price_impact_for_cross_over_rebalance
    cross_over d = bind _ (apply_factors-Applied _ _ _) λ a h.
        bind _ (apply_factors-Applied _ _ _) λ b k.
          weaken _ (λ z s. record { a = a; b = b; at_initial = h; at_next = k; impact = s })
            (signed_impact-Signed _ a b _)

    one_power : (v e f g a b : ℕ) (p : Applied v e f a) (q : Applied v e g b) → p.power ≡ q.power
    one_power v e f g a b p q = let x = p.power_eq in let y = q.power_eq in cc

    impact_exact : (a b : ℕ) (z : ℤ) → Signed (ltb b a) a b z → pos_part z + b ≡ neg_part z + a
    unfolding diff
    impact_exact a b z s = let g = s.gain in let l = s.loss in ground arith

    crossing_pair : (i n : ℕ) (x y : ℤ) → CrossOver i n x → CrossOver n i y → x +ℤ y ≤ℤ pos 0
    crossing_pair i n x y c d =
        let p = one_power _ _ _ _ _ _ c.at_initial d.at_next in
        let q = one_power _ _ _ _ _ _ c.at_next d.at_initial in
        let u = c.at_initial.unit_pos in
        let f = adjusted_le params in
        let v₁ = c.at_initial.value in
        let v₂ = d.at_next.value in
        let v₃ = c.at_next.value in
        let v₄ = d.at_initial.value in
        let left : c.a ≤ d.b = rw v₁ (rw v₂ (rw p (div_mono unit u _ _ (mul-le-mul_left _ f)))) in
        let right : d.a ≤ c.b = rw v₃ (rw v₄ (rw q (div_mono unit u _ _ (mul-le-mul_left _ f)))) in
        let x' = impact_exact c.a c.b x c.impact in
        let y' = impact_exact d.a d.b y d.impact in ground arith

    -- The gain with the positive factor, against the loss with the negative one on the way back.
    narrower :
        (i n a b a' b' : ℕ)
        → Applied i params.exponent (adjusted_factors params).0 a
        → Applied n params.exponent (adjusted_factors params).0 b
        → Applied n params.exponent (adjusted_factors params).1 a'
        → Applied i params.exponent (adjusted_factors params).1 b'
        → diff a b ≤ diff a' b' + 1
    narrower i n a b a' b' s t s' t' =
        let p = one_power _ _ _ _ _ _ s t' in
        let q = one_power _ _ _ _ _ _ t s' in
        let gap = gap_le unit s.unit_pos (t'.power) (s'.power) _ _ (adjusted_le params) in
        rw (diff_comm a' b') (rw s.value (rw t.value (rw s'.value (rw t'.value (rw p (rw q gap))))))

    same_side_pair : (i n : ℕ) (x y : ℤ) → SameSide i n x → SameSide n i y → x +ℤ y ≤ℤ pos 1
    same_side_pair i n x y c d = elim (Bool-cases (ltb n i)) [
      | inl e ↦
          let f = ltb_asym n i e in
          let gap =
            narrower i n c.a c.b d.a d.b (with_gain e c.at_initial) (with_gain e c.at_next)
              (with_loss f d.at_initial) (with_loss f d.at_next) in
          opposed _ _ x y (c.impact.gain e) (d.impact.loss f) gap
      | inr e ↦ elim (Bool-cases (ltb i n)) [
        | inl f ↦
            let gap =
              narrower n i d.a d.b c.a c.b (with_gain f d.at_initial) (with_gain f d.at_next)
                (with_loss e c.at_initial) (with_loss e c.at_next) in
            opposed' _ _ x y (c.impact.loss e) (d.impact.gain f) gap
        | inr f ↦ losses _ _ x y (c.impact.loss e) (d.impact.loss f)
      ]
    ]

  module _ (d : PoolDelta) (params : PriceImpactParams) where
    impact_same :
        is_same_side_rebalance d ≡ true
        → price_impact d params ≡ price_impact_for_same_side_rebalance d params
    unfolding price_impact
    impact_same e = rw e refl

    impact_cross :
        is_same_side_rebalance d ≡ false
        → price_impact d params ≡ price_impact_for_cross_over_rebalance d params
    unfolding price_impact
    impact_cross e = rw e refl

    reverse_side : is_same_side_rebalance (reverse d) ≡ is_same_side_rebalance d
    unfolding is_same_side_rebalance
    reverse_side =
        rw
          (xor_comm (leb (d.next).long_token_usd_value (d.next).short_token_usd_value)
            (leb (d.current).long_token_usd_value (d.current).short_token_usd_value))
          refl

-- A change that crosses over the balance and the change back, each with the price impact of its own:
-- together they gain nothing.
pub cross_over_round_trip :
    ⦃n : FixedPointOps⦄ (params : PriceImpactParams) (d : PoolDelta) {x y : ℤ}
    → price_impact_for_cross_over_rebalance d params ≡ ok x
    → price_impact_for_cross_over_rebalance (reverse d) params ≡ ok y
    → x +ℤ y ≤ℤ pos 0
cross_over_round_trip params d {x} {y} h k =
    crossing_pair params _ _ x y ((cross_over params d).apply x h)
      ((cross_over params (reverse d)).apply y k)

-- The price impacts of a change of a pool, of any kind, and of the change back gain together at most one
-- unit of the last decimal.
pub price_impact_round_trip :
    ⦃n : FixedPointOps⦄ (params : PriceImpactParams) (d : PoolDelta) {x y : ℤ}
    → price_impact d params ≡ ok x
    → price_impact (reverse d) params ≡ ok y
    → x +ℤ y ≤ℤ pos 1
price_impact_round_trip params d {x} {y} h k = elim (Bool-cases (is_same_side_rebalance d)) [
  | inl e ↦
      let p : price_impact_for_same_side_rebalance d params ≡ ok x =
        rw (← impact_same d params e) h in
      let q : price_impact_for_same_side_rebalance (reverse d) params ≡ ok y =
        rw (← impact_same (reverse d) params (rw (reverse_side d params) e)) k in
      same_side_pair params _ _ x y ((same_side params d).apply x p)
        ((same_side params (reverse d)).apply y q)
  | inr e ↦
      let p : price_impact_for_cross_over_rebalance d params ≡ ok x =
        rw (← impact_cross d params e) h in
      let q : price_impact_for_cross_over_rebalance (reverse d) params ≡ ok y =
        rw (← impact_cross (reverse d) params (rw (reverse_side d params) e)) k in
      let c = cross_over_round_trip params d p q in ground arith
]
