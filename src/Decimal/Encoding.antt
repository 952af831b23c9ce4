-- ===== src/Decimal/Encoding.antt =====
-- What the encoding of a price keeps of it.
use gmx_solana.Prelude.{
  ℕ, ◌+◌, ◌-◌, ◌*◌, ◌/◌, ◌%◌, ◌^◌, ◌≤◌, ◌<◌, ◌≡◌, refl, ap, ◌∙◌, false, Option, none, some, inl,
  inr, ltb, leb, ◌==◌, ltb→lt, ltb→le, leb→le, leb→lt, lt→ltb, le→ltb, Bool-cases, ==→eq, ==→ne,
  arith,
}
use gmx_solana.Result.{
  ok, ok_or, overflow, Ensures, Gives, returns, gives, gives_none, gives_if, bind, branch, check,
  from_option, weaken,
}
use gmx_solana.Decimal.{
  Decimal, mul_u128, decimal_multiplier_from_precision, is_out_of_range, with_token_decimals,
  scale_up, scale_down, scale, try_from_price,
}
use gmx_solana.Decimal.Power.{
  quotient_twice, quotient_eq, product_eq, plain_quotient_eq, product_twice, product_none,
}

mul_gives : (a b : ℕ) → Gives (mul_u128 a b) (λ c. c ≡ a * b)
unfolding mul_u128
mul_gives a b = gives_if _ (λ h. gives refl) λ h. gives_none

-- The price with `token_decimals` decimals: multiplied, or with the power of ten still to divide by.
data Rescaled (price d t : ℕ) (p : ℕ × Option ℕ) : Type 0 where
  multiplied : d ≤ t → p.0 ≡ price * 10 ^ (t - d) → p.1 ≡ none → Rescaled price d t p
  undivided : t < d → p.0 ≡ price → p.1 ≡ some (d - t) → Rescaled price d t p

with_token_decimals-Rescaled :
    (price d t : ℕ) → Ensures (with_token_decimals price d t) (Rescaled price d t)
unfolding with_token_decimals
with_token_decimals-Rescaled price d t =
    branch (d == t)
      (λ h.
        let e = ==→eq d t h in
        returns (multiplied (omega arith) (product_none price (t - d) (omega arith)) refl))
      λ h.
        branch (ltb d t)
          (λ below.
            let lt = ltb→lt d t below in
            bind _ (from_option _ _ (mul_gives price (10 ^ (t - d))))
              λ p e. returns (multiplied (omega arith) e refl))
          λ above.
            let ne = ==→ne d t h in
            let le = ltb→le d t above in returns (undivided (omega arith) refl refl)

-- What the scaling has to give: the price with `precision` decimals, rounded down.
abbrev Scaled : ℕ → ℕ → ℕ → ℕ → Type 0
Scaled price d precision v = v ≡ price * 10 ^ precision / 10 ^ d

up_ensures :
    (p exp : ℕ) {q : ℕ}
    → p * 10 ^ exp ≡ q
    → Ensures (ok_or (mul_u128 p (10 ^ exp)) overflow) (λ v. v ≡ q)
up_ensures p exp h = weaken _ (λ v e. e ∙ h) (from_option _ _ (mul_gives p (10 ^ exp)))

module _ (price d t precision : ℕ) where
  -- The decimals that the value has to gain, or to lose.
  abbrev up : ℕ
  up = 20 - (t * 2 + (20 - t - precision))

  abbrev down : ℕ
  down = t * 2 + (20 - t - precision) - 20

  scale_multiplied :
      (p : ℕ) (exp k : ℕ)
      → d ≤ t
      → p ≡ price * 10 ^ (t - d)
      → (t + exp ≡ precision → Scaled price d precision (p * 10 ^ exp))
        × (t ≡ precision + k → Scaled price d precision (p / 10 ^ k))
  scale_multiplied p exp k le e = (
    λ h. rw e (
        product_twice price (t - d) exp ∙ product_eq price (t - d + exp) precision d (omega arith)),
    λ h. rw e (quotient_eq price (t - d) k precision d (omega arith)),
  )

  scale-Scaled :
      (p : ℕ × Option ℕ)
      → t + precision ≤ 20
      → Rescaled price d t p
      → Ensures (scale p.0 p.1 (t * 2 + (20 - t - precision))) (Scaled price d precision)
  unfolding scale scale_up scale_down
  scale-Scaled p fits (multiplied le e none_left) = rw none_left (
      branch _
        (λ h.
          let small = leb→le (t * 2 + (20 - t - precision)) 20 h in
          up_ensures p.0 up ((scale_multiplied p.0 up 0 le e).0 (omega arith)))
        λ h.
          let large = leb→lt (t * 2 + (20 - t - precision)) 20 h in
          returns ((scale_multiplied p.0 0 down le e).1 (omega arith)))
  scale-Scaled p fits (undivided lt e left) = rw left (
      branch _
        (λ h.
          let small = leb→le (t * 2 + (20 - t - precision)) 20 h in
          branch _
            (λ h'.
              let enough = leb→le (d - t) up h' in
              up_ensures p.0 (up - (d - t))
                (rw e (product_eq price (up - (d - t)) precision d (omega arith))))
            λ h'.
              let short = leb→lt (d - t) up h' in
              returns (rw e (plain_quotient_eq price (d - t - up) precision d (omega arith))))
        λ h.
          let large = leb→lt (t * 2 + (20 - t - precision)) 20 h in
          returns (
            quotient_twice p.0 down (d - t)
            ∙ rw e (plain_quotient_eq price (down + (d - t)) precision d (omega arith))))

in_range : (d t precision : ℕ) → is_out_of_range d t precision ≡ false → d ≤ 20
unfolding is_out_of_range
in_range d t precision h = ground arith

-- An encoding that succeeds is within the bounds on decimals. Its multiplier is what they leave of 20,
-- and its value is the price with `precision` decimals, rounded down, of which the low 32 bits are kept.
pub try_from_price_rounds :
    (price d t precision : ℕ) (r : Decimal)
    → try_from_price price d t precision ≡ ok r
    → (d ≤ 20)
      × (t + precision ≤ 20)
      × (r.decimal_multiplier + t + precision ≡ 20)
      × (r.value ≡ price * 10 ^ precision / 10 ^ d % 2 ^ 32)
unfolding try_from_price is_out_of_range decimal_multiplier_from_precision
try_from_price_rounds price d t precision r h =
    let spec : Ensures (try_from_price price d t precision) (λ (x : Decimal).
      (d ≤ 20)
      × (t + precision ≤ 20)
      × (x.decimal_multiplier + t + precision ≡ 20)
      × (x.value ≡ price * 10 ^ precision / 10 ^ d % 2 ^ 32)) =
      bind _ (check _ _) λ _ range.
        let small = in_range d t precision range in
        bind _ (check (ltb 20 (t + precision)) _) λ _ sum.
          let fits = ltb→le 20 (t + precision) sum in
          bind _ (with_token_decimals-Rescaled price d t) λ p rescaled.
            bind _ (scale-Scaled price d t precision p fits rescaled)
              λ v e. returns (small, fits, omega arith, ap (λ x. x % 2 ^ 32) e) in
    spec.apply r h

in_range' :
    (d t precision : ℕ) → d ≤ 20 → t + precision ≤ 20 → is_out_of_range d t precision ≡ false
unfolding is_out_of_range
in_range' d t precision h k = ground arith

up_total : (p exp : ℕ) → p * 10 ^ exp < 2 ^ 128 → mul_u128 p (10 ^ exp) ≡ some (p * 10 ^ exp)
unfolding mul_u128
up_total p exp h = rw (lt→ltb _ _ h)

with_token_decimals_total :
    (price d t : ℕ)
    → price * 10 ^ (t - d) < 2 ^ 128
    → (p : ℕ × Option ℕ) × (with_token_decimals price d t ≡ ok p)
unfolding with_token_decimals
with_token_decimals_total price d t h = elim (Bool-cases (d == t)) [
  | inl same ↦ ((price, none), rw same)
  | inr other ↦ elim (Bool-cases (ltb d t)) [
    | inl below ↦
        ((price * 10 ^ (t - d), none), rw other (rw below (rw (up_total price (t - d) h))))
    | inr above ↦ ((price, some (d - t)), rw other (rw above))
  ]
]

module _ (price d t precision : ℕ) (fits : t + precision ≤ 20)
    (small : price * 10 ^ precision / 10 ^ d < 2 ^ 128) where
  up_total_of :
      (p exp : ℕ)
      → p * 10 ^ exp ≡ price * 10 ^ precision / 10 ^ d
      → mul_u128 p (10 ^ exp) ≡ some (p * 10 ^ exp)
  up_total_of p exp e = up_total p exp (rw e small)

  scale_total :
      (p : ℕ × Option ℕ)
      → Rescaled price d t p
      → (v : ℕ) × (scale p.0 p.1 (t * 2 + (20 - t - precision)) ≡ ok v)
  unfolding scale scale_up scale_down
  scale_total p (multiplied le e none_left) =
      let u = up price d t precision in
      elim (Bool-cases (leb (t * 2 + (20 - t - precision)) 20)) [
        | inl h ↦
            let le' = leb→le (t * 2 + (20 - t - precision)) 20 h in
            (
              p.0 * 10 ^ u,
              rw none_left (
                  rw h (
                    rw (
                      up_total_of p.0 u
                        ((scale_multiplied price d t precision p.0 u 0 le e).0 (omega arith))))),
            )
        | inr h ↦ (p.0 / 10 ^ down price d t precision, rw none_left (rw h))
      ]
  scale_total p (undivided lt e left) =
      let u = up price d t precision in
      elim (Bool-cases (leb (t * 2 + (20 - t - precision)) 20)) [
        | inl h ↦ elim (Bool-cases (leb (d - t) u)) [
          | inl h' ↦
              let le = leb→le (t * 2 + (20 - t - precision)) 20 h in
              let le' = leb→le (d - t) u h' in
              (
                p.0 * 10 ^ (u - (d - t)),
                rw left (
                    rw h (
                      rw h' (
                        rw (
                          up_total_of p.0 (u - (d - t))
                            (rw e (product_eq price (u - (d - t)) precision d (omega arith))))))),
              )
          | inr h' ↦ (p.0 / 10 ^ (d - t - u), rw left (rw h (rw h')))
        ]
        | inr h ↦ (p.0 / 10 ^ down price d t precision / 10 ^ (d - t), rw left (rw h))
      ]

-- An encoding within the bounds on decimals succeeds if the price with the decimals of the token, where
-- these are more, and with `precision` decimals fit u128.
pub try_from_price_total :
    (price d t precision : ℕ)
    → d ≤ 20
    → t + precision ≤ 20
    → price * 10 ^ (t - d) < 2 ^ 128
    → price * 10 ^ precision / 10 ^ d < 2 ^ 128
    → (r : Decimal) × (try_from_price price d t precision ≡ ok r)
unfolding try_from_price decimal_multiplier_from_precision
try_from_price_total price d t precision range fits h k =
    let (p, run) = with_token_decimals_total price d t h in
    let rescaled = (with_token_decimals-Rescaled price d t).apply p run in
    let (v, run') = scale_total price d t precision fits k p rescaled in
    (
      record { value = v % 2 ^ 32; decimal_multiplier = 20 - t - precision },
      rw (in_range' d t precision range fits)
          (rw (le→ltb 20 (t + precision) fits) (rw run (rw run'))),
    )
